-- ===== src/Client/Window/Answers.antt =====
-- client/src/ui.cpp and server/src/main.cpp: the answers of the window on their way to the service that
-- grades them.
use network_final_project.Base.{
  ℕ, ◌<◌, ◌≡◌, refl, ◌∙◌, ap, inl, inr, String, false, List, [], ◌∷◌, map, arith, str_eq,
  Bool-cases, if◌then◌else◌,
}
use network_final_project.Base.Int.{ℤ, pos_part}
use network_final_project.Base.Action.{ok}
use network_final_project.Codec.Json.{JsonApi, JsonLaws}
use network_final_project.Handlers.{
  JsonData, value, refused, ◌>>=◌, pure, read, look, require, positive, minus_one, keep,
  read_answers, call,
}
use network_final_project.Db.{Db, Floats}
use network_final_project.Db.Env.{Env}
use network_final_project.Auth.{SessionInfo, validate}
use network_final_project.Room.Lifecycle.{exam_owned_by}
use network_final_project.Room.Grading.{submit_exam as submit_graded}
use network_final_project.Handlers.Exams.{owned_answers, submit_exam_request}
use network_final_project.Room.Practice.{submit_practice as practice_graded}
use network_final_project.Handlers.Practice.{submit_practice_request}
use network_final_project.Handlers.Fields.{IsInt, DataLaws, lookup_held, lookup-fields}
use network_final_project.Client.State.{ClientState, Question, ExamSession}
use network_final_project.Client.Window.Buttons.{
  selected, answer_data, exam_data, practice_data, submit_exam, submit_practice, pressed, data_of,
  typed, request_of,
}

-- An id as the tables give it, that an int holds.
abbrev pub IsId : ℤ → Type 0
IsId z = (0 < pos_part z) × IsInt z

abbrev pub AllIds : List Question → Type 0
AllIds [] = Unit
AllIds (q ∷ qs) = IsId q.question_id × AllIds qs

-- What is graded: for each question its id, and the option that is chosen or else the option A.
abbrev pub chosen : List Question → List (ℕ × String)
chosen qs = map (λ q. (pos_part q.question_id, selected q)) qs

selected_not_empty : (q : Question) → str_eq (selected q) "" ≡ false
unfolding selected
selected_not_empty q = elim (Bool-cases (str_eq q.answer "")) [
  | inl e ↦ ap (λ b. str_eq (if b then "A" else q.answer) "") e
  | inr e ↦ ap (λ b. str_eq (if b then "A" else q.answer) "") e ∙ e
]

module _ {J D : Type 0} (js : JsonApi J) (laws : JsonLaws js) (jd : JsonData J D)
    (data_laws : DataLaws js jd) where
  keep_lem :
      (q : Question) (rest : List (ℕ × String))
      → IsId q.question_id
      → keep js jd q.question_id (selected q) rest ≡ (pos_part q.question_id, selected q) ∷ rest
  keep_lem q rest h = ground (arith, selected_not_empty q)

  answer_id :
      (q : Question)
      → IsInt q.question_id
      → jd.value_int (answer_data js jd q) "question_id" minus_one ≡ ok q.question_id
  unfolding answer_data
  answer_id q h =
      data_laws.value_int_lem _ "question_id" minus_one q.question_id h
        (lookup-fields js jd laws _ "question_id")

  answer_option :
      (q : Question) → jd.value_text (answer_data js jd q) "selected_option" "" ≡ ok (selected q)
  unfolding answer_data
  answer_option q =
      data_laws.value_text_lem _ "selected_option" "" (selected q)
        (lookup-fields js jd laws _ "selected_option")

  read_answers-chosen :
      {S : Type 0} (qs : List Question) (s : S)
      → AllIds qs
      → read_answers js jd (map (answer_data js jd) qs) s ≡ (value (chosen qs), s)
  unfolding read_answers pure read ◌>>=◌
  read_answers-chosen [] s h = refl
  read_answers-chosen (q ∷ qs) s h = ground (
    arith,
    answer_id q h.0.1,
    answer_option q,
    read_answers-chosen qs s h.1,
    keep_lem q (chosen qs) h.0,
  )

  pub positive_lem :
      {S : Type 0} (z : ℤ) (text : String) (s : S)
      → IsId z
      → positive z text s ≡ (value (pos_part z), s)
  unfolding positive
  positive_lem z text s h = ground arith

  module _ (env : ℕ → Env) where
    owned_answers-chosen :
        (session : SessionInfo) (exam : ExamSession) (missing no_array : String) (db : Db D)
        → IsId exam.exam_id
        → AllIds exam.questions
        → owned_answers js jd env session (exam_data js jd exam) "final_answers" missing no_array db
          ≡ (
            if exam_owned_by (env 1) (pos_part exam.exam_id) session.user_id db
                then value (pos_part exam.exam_id, chosen exam.questions)
                else refused "FORBIDDEN" "exam not owned by user",
            db,
          )
    unfolding owned_answers exam_data read require look pure ◌>>=◌
    owned_answers-chosen session exam missing no_array db h ids =
        let d = exam_data js jd exam in
        let answers = map (answer_data js jd) exam.questions in
        let given_id : jd.value_int d "exam_id" minus_one ≡ ok exam.exam_id =
          data_laws.value_int_lem d "exam_id" minus_one exam.exam_id h.1
            (lookup-fields js jd laws _ "exam_id") in
        let (has_answers, the_answers) =
          lookup_held js jd d "final_answers" (jd.of_list answers)
            (lookup-fields js jd laws _ "final_answers") in
        ground (
          arith,
          given_id,
          positive_lem exam.exam_id missing db h,
          has_answers,
          the_answers,
          data_laws.is_array_lem answers,
          data_laws.elements_lem answers,
          read_answers-chosen exam.questions db ids,
        )

    -- When the JSON library behaves as documented, the user is logged in with the token of the window
    -- and the ids that the window shows are ids of the tables that an int holds: what Submit exam
    -- leaves in the server's store is, for the owner of the exam, what submit_exam leaves when it is
    -- given every question of the window once, in order, with the option that is chosen or else with
    -- the option A; for anyone else nothing is changed.
    pub submit_exam_request-exam_data :
        (fl : Floats D) (st : ClientState) (session : SessionInfo) (db db' : Db D)
        → validate (env 0) st.token db ≡ (ok session, db')
        → IsId st.exam.exam_id
        → AllIds st.exam.questions
        → (submit_exam_request js jd env fl (pressed js jd submit_exam st) db).1 ≡ (
            if exam_owned_by (env 1) (pos_part st.exam.exam_id) session.user_id db'
            then (submit_graded
                (env 2)
                fl
                (pos_part st.exam.exam_id)
                (chosen st.exam.questions)
                db').1
            else db')
    unfolding submit_exam_request call pure ◌>>=◌ data_of typed request_of
    submit_exam_request-exam_data fl st session db db' valid h ids = ground (
      arith,
      valid,
      owned_answers-chosen session st.exam "exam_id and final_answers required"
          "final_answers must be an array" db' h ids,
    )

    -- When the JSON library behaves as documented, the user is logged in with the token of the window
    -- and the ids that the window shows are ids of the tables that an int holds: what Submit practice
    -- leaves in the server's store is what submit_practice leaves for that user when it is given every
    -- question of the window once, in order, with the option that is chosen or else with the option A.
    pub submit_practice_request-practice_data :
        (fl : Floats D) (st : ClientState) (session : SessionInfo) (db db' : Db D)
        → validate (env 0) st.token db ≡ (ok session, db')
        → IsId st.practice.practice_id
        → AllIds st.practice.questions
        → (submit_practice_request js jd env fl (pressed js jd submit_practice st) db).1
          ≡ (practice_graded
              (env 1)
              fl
              (pos_part st.practice.practice_id)
              session.user_id
              (chosen st.practice.questions)
              db').1
    unfolding submit_practice_request practice_data call require read pure ◌>>=◌ data_of typed
        request_of
    submit_practice_request-practice_data fl st session db db' valid h ids =
        let d = practice_data js jd st.practice in
        let answers = map (answer_data js jd) st.practice.questions in
        let given_id : jd.value_int d "practice_id" minus_one ≡ ok st.practice.practice_id =
          data_laws.value_int_lem d "practice_id" minus_one st.practice.practice_id h.1
            (lookup-fields js jd laws _ "practice_id") in
        let (has_answers, the_answers) =
          lookup_held js jd d "final_answers" (jd.of_list answers)
            (lookup-fields js jd laws _ "final_answers") in
        ground (
          arith,
          valid,
          given_id,
          positive_lem st.practice.practice_id "practice_id and final_answers required" db' h,
          has_answers,
          the_answers,
          data_laws.is_array_lem answers,
          data_laws.elements_lem answers,
          read_answers-chosen st.practice.questions db' ids,
        )
