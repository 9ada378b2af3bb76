-- ===== src/Client/Window/Paper.antt =====
-- client/src/ui.cpp and server/src/main.cpp: a paper on its way to the window.
use network_final_project.Base.{
  ◌<◌, ◌^◌, ◌≡◌, refl, ◌∙◌, sym, ap, String, List, [], ◌∷◌, ◌++◌, map, arith,
}
use mathlib.Core.List.{append-nil, append_assoc}
use network_final_project.Base.Int.{pos}
use network_final_project.Base.Action.{ok}
use network_final_project.Codec.Json.{JsonApi, JsonLaws}
use network_final_project.Db.{PaperQuestion}
use network_final_project.Handlers.{JsonData, minus_one, question_json}
use network_final_project.Handlers.Fields.{DataLaws, lookup_held, lookup-fields}
use network_final_project.Client.State.{Question, ClientState}
use network_final_project.Client.Window.{
  JsonView, read_options, read_question, push_questions, add_to_exam, add_to_practice,
}

-- A question of the server's as the window shows it, when its options are these.
abbrev pub shown : (PaperQuestion → List (String × String)) → PaperQuestion → Question
shown opts q = record {
  question_id = pos q.question_id;
  text = q.question_text;
  difficulty = q.difficulty;
  topic = q.topic;
  options = opts q;
  answer = "";
}

abbrev pub add_all :
    (Question → ClientState → ClientState) → List Question → ClientState → ClientState
add_all add [] st = st
add_all add (q ∷ qs) st = add_all add qs (add q st)

pub add_all-add_to_exam :
    (qs : List Question) (st : ClientState)
    → add_all add_to_exam qs st
      ≡ record st { exam = record st.exam { questions = st.exam.questions ++ qs } }
add_all-add_to_exam [] st =
    ap (λ shown. record st { exam = record st.exam { questions = shown } })
      (sym (append-nil st.exam.questions))
add_all-add_to_exam (q ∷ qs) st =
    add_all-add_to_exam qs (add_to_exam q st)
    ∙ ap (λ shown. record st { exam = record st.exam { questions = shown } })
        (append_assoc st.exam.questions (q ∷ []) qs)

pub add_all-add_to_practice :
    (qs : List Question) (st : ClientState)
    → add_all add_to_practice qs st
      ≡ record st { practice = record st.practice { questions = st.practice.questions ++ qs } }
add_all-add_to_practice [] st =
    ap (λ shown. record st { practice = record st.practice { questions = shown } })
      (sym (append-nil st.practice.questions))
add_all-add_to_practice (q ∷ qs) st =
    add_all-add_to_practice qs (add_to_practice q st)
    ∙ ap (λ shown. record st { practice = record st.practice { questions = shown } })
        (append_assoc st.practice.questions (q ∷ []) qs)

module _ {J D : Type 0} (js : JsonApi J) (jd : JsonData J D) (jv : JsonView J)
    (opts : PaperQuestion → List (String × String)) where
  -- The ids are ints, and the options of the questions are these texts under these keys.
  abbrev pub AllRead : List PaperQuestion → Type 0
  AllRead [] = Unit
  AllRead (q ∷ qs) =
      (q.question_id < 2 ^ 31)
      × (read_options js jd jv (jv.items (jd.of_column q.options)) ≡ ok (opts q))
      × AllRead qs

module _ {J D : Type 0} (js : JsonApi J) (laws : JsonLaws js) (jd : JsonData J D)
    (data_laws : DataLaws js jd) (jv : JsonView J)
    (opts : PaperQuestion → List (String × String)) where
  read_question-question_json :
      (q : PaperQuestion) (st : ClientState)
      → q.question_id < 2 ^ 31
      → read_options js jd jv (jv.items (jd.of_column q.options)) ≡ ok (opts q)
      → read_question js jd jv (question_json js jd q) st ≡ (ok (shown opts q), st)
  unfolding read_question question_json
  read_question-question_json q st fits texts =
      let j = question_json js jd q in
      ground (
        arith,
        data_laws.value_int_lem j "question_id" minus_one (pos q.question_id) fits
            (lookup-fields js jd laws _ "question_id"),
        data_laws.value_text_lem j "question_text" "" q.question_text
            (lookup-fields js jd laws _ "question_text"),
        data_laws.value_text_lem j "difficulty" "" q.difficulty
            (lookup-fields js jd laws _ "difficulty"),
        data_laws.value_text_lem j "topic" "" q.topic (lookup-fields js jd laws _ "topic"),
        (lookup_held js jd j "options" (jd.of_column q.options)
            (lookup-fields js jd laws _ "options")).1,
      )

  pub push_questions-question_json :
      (add : Question → ClientState → ClientState) (qs : List PaperQuestion) (st : ClientState)
      → AllRead js jd jv opts qs
      → push_questions js jd jv add (map (question_json js jd) qs) st
        ≡ (ok tt, add_all add (map (shown opts) qs) st)
  unfolding push_questions
  push_questions-question_json add [] st all = refl
  push_questions-question_json add (q ∷ qs) st all = ground (
    arith,
    read_question-question_json q st all.0 all.1,
    push_questions-question_json add qs (add (shown opts q) st) all.2,
  )
