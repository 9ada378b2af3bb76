-- ===== src/Client/Window/Round.antt =====
-- client/src/ui.cpp, server/src/server.cpp, server/src/main.cpp and server/src/room.cpp: an exam as one user
-- sees it, from Get paper over the choice of the options to Submit exam.
use network_final_project.Base.{
  ℕ, ◌<◌, ◌^◌, ◌≡◌, refl, ◌∙◌, ap, String, List, [], ◌∷◌, map, if◌then◌else◌, str_eq,
}
use network_final_project.Base.Int.{ℤ, pos, pos_part}
use network_final_project.Base.Action.{ok}
use network_final_project.Codec.Json.{JsonApi, JsonLaws}
use network_final_project.Db.{Db, Floats, PaperQuestion}
use network_final_project.Db.Env.{Env}
use network_final_project.Auth.{SessionInfo, validate}
use network_final_project.Room.Lifecycle.{exam_owned_by}
use network_final_project.Room.Paper.{ExamPaper, get_exam_paper}
use network_final_project.Room.Grading.{submit_exam as submit_graded}
use network_final_project.Handlers.{JsonData}
use network_final_project.Handlers.Exams.{submit_exam_request}
use network_final_project.Handlers.Fields.{DataLaws}
use network_final_project.Server.{answer, main_handlers}
use network_final_project.Client.State.{Question, ClientState}
use network_final_project.Client.Window.{JsonView, handle_event}
use network_final_project.Client.Window.Buttons.{choose, selected, get_paper, submit_exam, pressed}
use network_final_project.Client.Window.Answers.{
  IsId, AllIds, chosen, submit_exam_request-exam_data,
}
use network_final_project.Client.Window.Paper.{shown, AllRead}
use network_final_project.Client.Window.Shown.{with_paper, handle_event-get_paper}

-- The window after its radio buttons, by what is chosen for each question, "" if nothing is.
unfoldable pub answered : (ℕ → String) → ClientState → ClientState
answered picks st = record st {
  exam = record st.exam {
    questions = map (λ q. choose (picks (pos_part q.question_id)) q) st.exam.questions;
  };
}

-- What is graded then: each question of the paper with the option that was chosen, or else A.
abbrev pub answers_of : (ℕ → String) → List PaperQuestion → List (ℕ × String)
answers_of picks qs =
    map (λ q. (q.question_id, if str_eq (picks q.question_id) "" then "A" else picks q.question_id))
      qs

abbrev pub AllPositive : List PaperQuestion → Type 0
AllPositive [] = Unit
AllPositive (q ∷ qs) = (0 < q.question_id) × AllPositive qs

module _ (opts : PaperQuestion → List (String × String)) (picks : ℕ → String) where
  abbrev picked : List PaperQuestion → List Question
  picked qs = map (λ q. choose (picks (pos_part q.question_id)) q) (map (shown opts) qs)

  chosen-answers_of : (qs : List PaperQuestion) → chosen (picked qs) ≡ answers_of picks qs
  unfolding selected choose
  chosen-answers_of [] = refl
  chosen-answers_of (q ∷ qs) =
      ap (◌∷◌ (q.question_id, if str_eq (picks q.question_id) "" then "A" else picks q.question_id))
        (chosen-answers_of qs)

  picked-AllIds :
      {J D : Type 0} (js : JsonApi J) (jd : JsonData J D) (jv : JsonView J)
      (qs : List PaperQuestion)
      → AllRead js jd jv opts qs
      → AllPositive qs
      → AllIds (picked qs)
  unfolding choose
  picked-AllIds js jd jv [] all positive = tt
  picked-AllIds js jd jv (q ∷ qs) all positive =
      ((positive.0, all.0), picked-AllIds js jd jv qs all.2 positive.1)

module _ {J D : Type 0} (js : JsonApi J) (laws : JsonLaws js) (jd : JsonData J D)
    (data_laws : DataLaws js jd) (jv : JsonView J) (opts : PaperQuestion → List (String × String))
    (fl : Floats D) (env : ℕ → Env) (clock : ℕ → ℕ) where
  -- When the JSON library behaves as documented, the session is valid at both requests, the ids are
  -- positive and ints and the options of the questions are texts: if the server answers Get paper
  -- with a paper, and the user then chooses options and presses Submit exam, what is left in the
  -- store is, for the owner of the exam, what submit_exam leaves when it is given each question of
  -- this paper once, in its order, with the option that was chosen for it or else with the option A;
  -- for anyone else nothing changes. In between the store may have changed.
  pub exam_round :
      (room_id : ℤ) (st : ClientState) (session session' : SessionInfo) (paper : ExamPaper)
      (db db' db'' later later' : Db D) (picks : ℕ → String) (env' : ℕ → Env)
      → IsId room_id
      → validate (env 0) st.token db ≡ (ok session, db')
      → get_exam_paper (env 1) (pos_part room_id) session.user_id db' ≡ (ok paper, db'')
      → IsId (pos paper.exam_id)
      → paper.room_id < 2 ^ 31
      → AllRead js jd jv opts paper.questions
      → AllPositive paper.questions
      → validate (env' 0) st.token later ≡ (ok session', later')
      → let (resp, after) =
          answer js (main_handlers js jd fl) env clock (pressed js jd (get_paper room_id) st) db in
        let st' = answered picks (handle_event js jd jv resp st).1 in
        (submit_exam_request js jd env' fl (pressed js jd submit_exam st') later).1 ≡ (
          if exam_owned_by (env' 1) paper.exam_id session'.user_id later'
          then (submit_graded (env' 2) fl paper.exam_id (answers_of picks paper.questions) later').1
          else later')
  unfolding answered
  exam_round room_id st session session' paper db db' db'' later later' picks env' h valid found
        fits_exam fits_room all positive valid' =
      let st' = answered picks (with_paper opts paper st) in
      let event =
        handle_event-get_paper js laws jd data_laws jv opts fl env clock room_id st session paper db
          db' db'' h valid found fits_exam.1 fits_room all in
      ap
        (λ s.
          (submit_exam_request js jd env' fl (pressed js jd submit_exam (answered picks s.1))
            later).1)
        event
      ∙ submit_exam_request-exam_data js laws jd data_laws env' fl st' session' later later' valid'
          fits_exam (picked-AllIds opts picks js jd jv paper.questions all positive)
      ∙ ap
          (λ rows.
            if exam_owned_by (env' 1) paper.exam_id session'.user_id later'
            then (submit_graded (env' 2) fl paper.exam_id rows later').1
            else later')
          (chosen-answers_of opts picks paper.questions)
