-- ===== src/Client/Window/Practice.antt =====
-- client/src/ui.cpp, server/src/server.cpp and server/src/main.cpp: from the button Start practice over the
-- server's answer to what the window shows.
use network_final_project.Base.{
  ℕ, ◌<◌, ◌^◌, ◌≡◌, refl, ◌∙◌, ap, String, true, some, List, [], ◌∷◌, map, arith,
}
use network_final_project.Base.Int.{ℤ, pos, scale}
use network_final_project.Base.Action.{ok}
use network_final_project.Codec.Json.{JsonApi, JsonLaws}
use network_final_project.Db.{Db, Floats, PaperQuestion}
use network_final_project.Db.Env.{Env}
use network_final_project.Auth.{SessionInfo, validate}
use network_final_project.Room.Practice.{PracticePaper, start_practice as practice_started}
use network_final_project.Handlers.{
  JsonData, value, ◌>>=◌ as ◌then_handle◌, pure as handlers_pure, minus_one, of_id, fields,
  question_json, call, read, read_texts,
}
use network_final_project.Handlers.Practice.{start_practice_request, read_filter}
use network_final_project.Handlers.Fields.{IsInt, scale-IsInt, DataLaws, lookup_held, lookup-fields}
use network_final_project.Server.{
  answer, complete, make_success, find_handler, register_handler, main_handlers,
}
use network_final_project.Client.State.{ClientState}
use network_final_project.Client.Window.{JsonView, show_practice, add_to_practice, handle_event}
use network_final_project.Client.Window.Buttons.{
  start_practice, pressed, action_of, data_of, typed, request_of, start_practice_data,
}
use network_final_project.Client.Window.Paper.{
  shown, AllRead, push_questions-question_json, add_all-add_to_practice,
}
use network_final_project.Server.Answers.{answer-value}

practice_handler :
    {J D : Type 0} (js : JsonApi J) (jd : JsonData J D) (fl : Floats D)
    → find_handler "START_PRACTICE" (main_handlers js jd fl) ≡ some (start_practice_request js jd)
unfolding find_handler main_handlers register_handler
practice_handler js jd fl = refl

module _ {J D : Type 0} (js : JsonApi J) (laws : JsonLaws js) (jd : JsonData J D)
    (data_laws : DataLaws js jd) where
  read_texts-of_string :
      {S : Type 0} (texts : List String) (s : S)
      → read_texts js jd (map js.of_string texts) s ≡ (value texts, s)
  unfolding read_texts read handlers_pure ◌then_handle◌
  read_texts-of_string [] s = refl
  read_texts-of_string (t ∷ texts) s =
      ground (arith, data_laws.get_text_lem t, read_texts-of_string texts s)

  read_filter-of_list :
      (env : ℕ → Env) (d : J) (key : String) (texts : List String) (db : Db D)
      → (js.contains d key ≡ true) × (js.get d key ≡ jd.of_list (map js.of_string texts))
      → read_filter js jd env d key db ≡ (value texts, db)
  unfolding read_filter
  read_filter-of_list env d key texts db held = ground (
    arith,
    held.0,
    held.1,
    data_laws.elements_lem (map js.of_string texts),
    read_texts-of_string texts db,
  )

-- The window with this paper, not yet answered.
abbrev pub with_practice :
    (PaperQuestion → List (String × String)) → PracticePaper → ClientState → ClientState
with_practice opts paper st = record st {
  practice = record {
    practice_id = pos paper.practice_id;
    questions = map (shown opts) paper.questions;
  };
  last_errors = "";
}

module _ {J D : Type 0} (js : JsonApi J) (laws : JsonLaws js) (jd : JsonData J D)
    (data_laws : DataLaws js jd) (jv : JsonView J)
    (opts : PaperQuestion → List (String × String)) where
  -- The data of the answer to START_PRACTICE.
  abbrev paper_data : PracticePaper → J
  paper_data paper = fields js jd (
      ("practice_id", of_id js jd paper.practice_id)
      ∷ ("start_time", js.of_unsigned paper.start_time)
      ∷ ("end_time", js.of_unsigned paper.end_time)
      ∷ ("questions", jd.of_list (map (question_json js jd) paper.questions))
      ∷ [])

  show_practice-paper_data :
      (paper : PracticePaper) (st : ClientState)
      → paper.practice_id < 2 ^ 31
      → AllRead js jd jv opts paper.questions
      → show_practice js jd jv (paper_data paper) st ≡ (ok tt, with_practice opts paper st)
  unfolding show_practice
  show_practice-paper_data paper st fits all =
      let d = paper_data paper in
      let qs = map (question_json js jd) paper.questions in
      let st' = record st {
        practice = record { practice_id = pos paper.practice_id; questions = [] };
      } in
      ground (
        arith,
        data_laws.value_int_lem d "practice_id" minus_one (pos paper.practice_id) fits
            (lookup-fields js jd laws _ "practice_id"),
        (lookup_held js jd d "questions" (jd.of_list qs)
            (lookup-fields js jd laws _ "questions")).1,
        data_laws.elements_lem qs,
        push_questions-question_json js laws jd data_laws jv opts add_to_practice paper.questions
            st' all,
        add_all-add_to_practice (map (shown opts) paper.questions) st',
      )

  module _ (env : ℕ → Env) where
    start_practice_request-pressed :
        (qcount minutes : ℤ) (st : ClientState) (session : SessionInfo) (paper : PracticePaper)
        (db db' db'' : Db D)
        → IsInt qcount
        → IsInt (scale 60 minutes)
        → validate (env 0) st.token db ≡ (ok session, db')
        → practice_started
            (env 1)
            session.user_id
            qcount
            (scale 60 minutes)
            ("EASY" ∷ "MEDIUM" ∷ [])
            ("Networking" ∷ [])
            db'
          ≡ (ok paper, db'')
        → start_practice_request js jd env (pressed js jd (start_practice qcount minutes) st) db
          ≡ (value (record { session_id = ""; payload = paper_data paper }), db'')
    unfolding start_practice_request read call handlers_pure ◌then_handle◌ data_of typed request_of
        start_practice_data
    start_practice_request-pressed qcount minutes st session paper db db' db'' h h' valid found =
        let d = start_practice_data js jd qcount minutes in
        ground (
          arith,
          valid,
          found,
          data_laws.value_int_lem d "question_count" (pos 10) qcount h
              (lookup-fields js jd laws _ "question_count"),
          data_laws.value_int_lem d "duration_minutes" (pos 30) minutes (scale-IsInt minutes h')
              (lookup-fields js jd laws _ "duration_minutes"),
          read_filter-of_list js laws jd data_laws env d "difficulty_filter"
              ("EASY" ∷ "MEDIUM" ∷ []) db'
              (lookup_held js jd d "difficulty_filter" _
                (lookup-fields js jd laws _ "difficulty_filter")),
          read_filter-of_list js laws jd data_laws env d "topic_filter" ("Networking" ∷ []) db'
              (lookup_held js jd d "topic_filter" _ (lookup-fields js jd laws _ "topic_filter")),
        )

  module _ (fl : Floats D) (env : ℕ → Env) (clock : ℕ → ℕ) where
    -- When the JSON library behaves as documented, the user is logged in with the token of the window,
    -- the numbers that stand in its fields, the seconds included, and the id of the practice are ints and the options of its
    -- questions are texts: Start practice asks for this many easy and medium questions on networking
    -- and 60 times this many seconds, and when the server answers with a practice, the window shows
    -- its id and each of its questions once, in order, with its text, its difficulty, its topic and its
    -- options and not yet answered; it shows no error, and the rest of its state is as before.
    pub handle_event-start_practice :
        (qcount minutes : ℤ) (st : ClientState) (session : SessionInfo) (paper : PracticePaper)
        (db db' db'' : Db D)
        → IsInt qcount
        → IsInt (scale 60 minutes)
        → validate (env 0) st.token db ≡ (ok session, db')
        → practice_started
            (env 1)
            session.user_id
            qcount
            (scale 60 minutes)
            ("EASY" ∷ "MEDIUM" ∷ [])
            ("Networking" ∷ [])
            db'
          ≡ (ok paper, db'')
        → paper.practice_id < 2 ^ 31
        → AllRead js jd jv opts paper.questions
        → handle_event js jd jv
            (answer js
              (main_handlers js jd fl)
              env
              clock
              (pressed js jd (start_practice qcount minutes) st)
              db).0
            st
          ≡ (ok tt, with_practice opts paper st)
    unfolding handle_event complete make_success typed request_of action_of
    handle_event-start_practice qcount minutes st session paper db db' db'' h h' valid found fits
          all =
        ap (λ a. handle_event js jd jv a.0 st)
          (answer-value js env clock (main_handlers js jd fl) (start_practice_request js jd)
            (pressed js jd (start_practice qcount minutes) st) db db'' _ (practice_handler js jd fl)
            (start_practice_request-pressed env qcount minutes st session paper db db' db'' h h'
              valid found))
        ∙ show_practice-paper_data paper st fits all
