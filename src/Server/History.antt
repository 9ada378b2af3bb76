-- ===== src/Server/History.antt =====
-- server/src/server.cpp: the messages that a server answers one after another, whoever sent them.
use network_final_project.Base.{
  ℕ, ◌≡◌, ◌∙◌, sym, ap, inl, inr, List, [], ◌∷◌, some, false, first, arith, Option-cases,
}
use network_final_project.Codec.Json.{JsonApi}
use network_final_project.Codec.Message.{Message}
use network_final_project.Db.{Db, Floats, ExamRow}
use network_final_project.Db.Env.{Env}
use network_final_project.Auth.{validate}
use network_final_project.Room.Paper.{has_exam_id}
use network_final_project.Room.Grading.{is_open}
use network_final_project.Room.Calls.{run}
use network_final_project.Room.Calls.Results.{outcome, outcome_in, run-outcome}
use network_final_project.Handlers.{JsonData}
use network_final_project.Handlers.Access.{Acts, stays, calls}
use network_final_project.Server.{answer, main_handlers}
use network_final_project.Server.Guard.{Served, unknown, opens, refuses, serves, answer-Served}
use network_final_project.Server.Accounts.{validate-IsAccounts}

-- A message with what its services find and the time that its worker reads.
abbrev pub Request : Type 0 → Type 0
Request J = (ℕ → Env) × (ℕ → ℕ) × Message J

module _ {J D : Type 0} (js : JsonApi J) (jd : JsonData J D) (fl : Floats D) where
  unfoldable pub serve : List (Request J) → Db D → Db D
  serve [] db = db
  serve ((env, clock, msg) ∷ rest) db =
      serve rest (answer js (main_handlers js jd fl) env clock msg db).1

module _ {D : Type 0} (fl : Floats D) (eid : ℕ) (e : ExamRow D) (closed : is_open e ≡ false) where
  -- One call is a history of calls.
  Acts-outcome :
      (env : ℕ → Env) (uid : ℕ) (db db' : Db D)
      → first (has_exam_id eid) db.exams ≡ some e
      → Acts fl env uid db db'
      → outcome_in eid db'.exams ≡ outcome (some e)
  Acts-outcome env uid db db' found (stays same) =
      ap (λ d. outcome_in eid d.exams) same ∙ ap outcome found
  Acts-outcome env uid db db' found (calls c n permitted stepped) =
      ap (λ d. outcome_in eid d.exams) stepped
      ∙ unfold run in run-outcome fl eid ((env n, c) ∷ []) db e found closed

  Served-outcome :
      {J : Type 0} (env : ℕ → Env) (msg : Message J) (db : Db D) (done : Message J × Db D)
      → first (has_exam_id eid) db.exams ≡ some e
      → Served fl env msg db done
      → outcome_in eid done.1.exams ≡ outcome (some e)
  Served-outcome env msg db done found served =
      let kept : outcome_in eid db.exams ≡ outcome (some e) = ap outcome found in
      let validated : (validate (env 0) msg.session_id db).1.exams ≡ db.exams =
        ap (λ d. d.exams) (validate-IsAccounts (env 0) db msg.session_id) in
      elim served [
        | unknown private refused code same ↦ ap (λ d. outcome_in eid d.exams) same ∙ kept
        | opens public same ↦ ap (λ d. outcome_in eid d.exams) same ∙ kept
        | refuses text refusal status code message same ↦
            ap (λ d. outcome_in eid d.exams) same ∙ ap (outcome_in eid) validated ∙ kept
        | serves s accepted acts ↦
            Acts-outcome env s.user_id _ _ (ap (first (has_exam_id eid)) validated ∙ found) acts
      ]

module _ {J D : Type 0} (js : JsonApi J) (jd : JsonData J D) (fl : Floats D) (eid : ℕ) where
  -- Once an exam was submitted, no sequence of messages, whoever sends them, changes its score, its
  -- number of right answers or the time of its submission.
  pub serve-outcome :
      (h : List (Request J)) (db : Db D) (e : ExamRow D)
      → first (has_exam_id eid) db.exams ≡ some e
      → is_open e ≡ false
      → outcome_in eid (serve js jd fl h db).exams ≡ outcome (some e)
  unfolding serve
  serve-outcome [] db e found closed = ap outcome found
  serve-outcome ((env, clock, msg) ∷ h) db e found closed =
      let next = answer js (main_handlers js jd fl) env clock msg db in
      let same =
        Served-outcome fl eid e closed env msg db next found
          (answer-Served js jd fl env clock msg db) in
      elim (Option-cases (first (has_exam_id eid) next.1.exams)) [
        | inl gone ↦ ground (arith, same)
        | inr (e', kept) ↦
            let agree : outcome (some e') ≡ outcome (some e) = sym (ap outcome kept) ∙ same in
            serve-outcome h next.1 e' kept (ground (arith, agree)) ∙ agree
      ]
