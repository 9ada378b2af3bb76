-- ===== src/Client/Window/Shown.antt =====
-- client/src/ui.cpp, server/src/server.cpp and server/src/main.cpp: from the button Get paper over the
-- server's answer to what the window shows, and the same for Start practice.
use network_final_project.Base.{
  ℕ, ◌<◌, ◌^◌, ◌≡◌, refl, ◌∙◌, ap, String, some, List, [], ◌∷◌, map, arith,
}
use network_final_project.Base.Int.{ℤ, pos, pos_part}
use network_final_project.Base.Action.{ok}
use network_final_project.Codec.Json.{JsonApi, JsonLaws}
use network_final_project.Db.{Db, Floats, PaperQuestion}
use network_final_project.Db.Env.{Env}
use network_final_project.Auth.{SessionInfo, validate}
use network_final_project.Room.Paper.{ExamPaper, get_exam_paper}
use network_final_project.Handlers.{
  JsonData, value, ◌>>=◌ as ◌then_handle◌, pure as handlers_pure, minus_one, of_id, fields,
  question_json, call, read,
}
use network_final_project.Handlers.Exams.{exam_paper_request}
use network_final_project.Handlers.Fields.{DataLaws, lookup_held, lookup-fields}
use network_final_project.Server.{
  answer, complete, make_success, find_handler, register_handler, main_handlers,
}
use network_final_project.Server.Answers.{answer-value}
use network_final_project.Client.State.{ClientState}
use network_final_project.Client.Window.{JsonView, show_exam, add_to_exam, handle_event}
use network_final_project.Client.Window.Buttons.{
  get_paper, action_of, pressed, data_of, typed, request_of, room_data,
}
use network_final_project.Client.Window.Answers.{IsId, positive_lem}
use network_final_project.Client.Window.Paper.{
  shown, AllRead, push_questions-question_json, add_all-add_to_exam,
}

paper_handler :
    {J D : Type 0} (js : JsonApi J) (jd : JsonData J D) (fl : Floats D)
    → find_handler "GET_EXAM_PAPER" (main_handlers js jd fl) ≡ some (exam_paper_request js jd)
unfolding find_handler main_handlers register_handler
paper_handler js jd fl = refl

-- The window with this paper, not yet answered.
abbrev pub with_paper :
    (PaperQuestion → List (String × String)) → ExamPaper → ClientState → ClientState
with_paper opts paper st = record st {
  exam = record {
    room_id = pos paper.room_id;
    exam_id = pos paper.exam_id;
    questions = map (shown opts) paper.questions;
  };
  last_errors = "";
}

module _ {J D : Type 0} (js : JsonApi J) (laws : JsonLaws js) (jd : JsonData J D)
    (data_laws : DataLaws js jd) (jv : JsonView J)
    (opts : PaperQuestion → List (String × String)) where
  -- The data of the answer to GET_EXAM_PAPER.
  abbrev paper_data : ExamPaper → J
  paper_data paper = fields js jd (
      ("exam_id", of_id js jd paper.exam_id)
      ∷ ("room_id", of_id js jd paper.room_id)
      ∷ ("start_time", js.of_unsigned paper.start_time)
      ∷ ("end_time", js.of_unsigned paper.end_time)
      ∷ ("questions", jd.of_list (map (question_json js jd) paper.questions))
      ∷ [])

  show_exam-paper_data :
      (paper : ExamPaper) (st : ClientState)
      → paper.exam_id < 2 ^ 31
      → paper.room_id < 2 ^ 31
      → AllRead js jd jv opts paper.questions
      → show_exam js jd jv (paper_data paper) st ≡ (ok tt, with_paper opts paper st)
  unfolding show_exam
  show_exam-paper_data paper st fits_exam fits_room all =
      let d = paper_data paper in
      let qs = map (question_json js jd) paper.questions in
      let st' = record st {
        exam = record { room_id = pos paper.room_id; exam_id = pos paper.exam_id; questions = [] };
      } in
      ground (
        arith,
        data_laws.value_int_lem d "exam_id" minus_one (pos paper.exam_id) fits_exam
            (lookup-fields js jd laws _ "exam_id"),
        data_laws.value_int_lem d "room_id" minus_one (pos paper.room_id) fits_room
            (lookup-fields js jd laws _ "room_id"),
        (lookup_held js jd d "questions" (jd.of_list qs)
            (lookup-fields js jd laws _ "questions")).1,
        data_laws.elements_lem qs,
        push_questions-question_json js laws jd data_laws jv opts add_to_exam paper.questions st'
            all,
        add_all-add_to_exam (map (shown opts) paper.questions) st',
      )

  module _ (env : ℕ → Env) where
    exam_paper_request-pressed :
        (room_id : ℤ) (st : ClientState) (session : SessionInfo) (paper : ExamPaper)
        (db db' db'' : Db D)
        → IsId room_id
        → validate (env 0) st.token db ≡ (ok session, db')
        → get_exam_paper (env 1) (pos_part room_id) session.user_id db' ≡ (ok paper, db'')
        → exam_paper_request js jd env (pressed js jd (get_paper room_id) st) db
          ≡ (value (record { session_id = ""; payload = paper_data paper }), db'')
    unfolding exam_paper_request read call handlers_pure ◌then_handle◌ data_of typed request_of
        room_data
    exam_paper_request-pressed room_id st session paper db db' db'' h valid found = ground (
      arith,
      valid,
      found,
      data_laws.value_int_lem (room_data js jd room_id) "room_id" minus_one room_id h.1
          (lookup-fields js jd laws _ "room_id"),
      positive_lem js laws jd data_laws room_id "room_id required" db' h,
    )

  module _ (fl : Floats D) (env : ℕ → Env) (clock : ℕ → ℕ) where
    -- When the JSON library behaves as documented, the user is logged in with the token of the window,
    -- the ids of the paper are ints and the options of its questions are texts: when the server answers
    -- what Get paper sends with a paper, the window shows this paper's ids and each of its questions
    -- once, in order, with its text, its difficulty, its topic and its options and not yet answered; it
    -- shows no error, and the rest of its state is as before.
    pub handle_event-get_paper :
        (room_id : ℤ) (st : ClientState) (session : SessionInfo) (paper : ExamPaper)
        (db db' db'' : Db D)
        → IsId room_id
        → validate (env 0) st.token db ≡ (ok session, db')
        → get_exam_paper (env 1) (pos_part room_id) session.user_id db' ≡ (ok paper, db'')
        → paper.exam_id < 2 ^ 31
        → paper.room_id < 2 ^ 31
        → AllRead js jd jv opts paper.questions
        → handle_event js jd jv
            (answer js
              (main_handlers js jd fl)
              env
              clock
              (pressed js jd (get_paper room_id) st)
              db).0
            st
          ≡ (ok tt, with_paper opts paper st)
    unfolding handle_event complete make_success typed request_of action_of
    handle_event-get_paper room_id st session paper db db' db'' h valid found fits_exam fits_room
          all =
        ap (λ a. handle_event js jd jv a.0 st)
          (answer-value js env clock (main_handlers js jd fl) (exam_paper_request js jd)
            (pressed js jd (get_paper room_id) st) db db'' _ (paper_handler js jd fl)
            (exam_paper_request-pressed env room_id st session paper db db' db'' h valid found))
        ∙ show_exam-paper_data paper st fits_exam fits_room all
