-- ===== src/Handlers/Access/Exams.antt =====
-- server/src/main.cpp: what the handlers of exams may change.
use network_final_project.Base.{ℕ, ◌≡◌, refl, String, true, List, [], ◌∷◌, arith}
use mathlib.Core.Path.{subst}
use network_final_project.Codec.Json.{JsonApi}
use network_final_project.Codec.Message.{Message}
use network_final_project.Db.{Db, Floats}
use network_final_project.Db.Env.{Env}
use network_final_project.Auth.{SessionInfo}
use network_final_project.Room.Lifecycle.{exam_owned_by}
use network_final_project.Room.Timer.{get_timer_status}
use network_final_project.Room.Calls.{takes_paper, saves, submits, step}
use network_final_project.Handlers.{
  JsonData, value, Handling, ◌>>=◌, pure, read, look, require, positive, read_answers,
}
use network_final_project.Handlers.Exams.{
  exam_paper_request, catch_all, given_exam, timer_call, timer_block, timer_request, owned_answers,
  submit_answer_request, submit_exam_request,
}
use network_final_project.Handlers.Access.{
  Acts, Acts-pure, Acts-read, Acts-positive, Acts-quiet, Acts-call, pure-same, Verdict, rejects,
  admits, authorised-Verdict,
}

module _ {J D : Type 0} (js : JsonApi J) (jd : JsonData J D) (env : ℕ → Env) where
  pub read_answers-same : (rows : List J) (db : Db D) → (read_answers js jd rows db).1 ≡ db
  unfolding read_answers read pure ◌>>=◌
  read_answers-same [] db = refl
  read_answers-same (a ∷ rows) db = ground (arith, read_answers-same rows db)

  owned_answers-same :
      (session : SessionInfo) (d : J) (key missing no_array : String) (db : Db D)
      → (owned_answers js jd env session d key missing no_array db).1 ≡ db
  unfolding owned_answers read pure positive require look ◌>>=◌
  owned_answers-same session d key missing no_array db =
      ground (arith, read_answers-same (jd.elements (js.get d key)) db)

  -- Only the owner of the exam gets as far as the answers.
  owned_answers-owned :
      (session : SessionInfo) (d : J) (key missing no_array : String) (db : Db D)
      (found : ℕ × List (ℕ × String))
      → (owned_answers js jd env session d key missing no_array db).0 ≡ value found
      → exam_owned_by (env 1) found.0 session.user_id db ≡ true
  unfolding owned_answers read pure positive require look ◌>>=◌
  owned_answers-owned session d key missing no_array db found e = ground arith

  given_exam-same : (d : J) (db : Db D) → (given_exam js jd env d db).1 ≡ db
  unfolding read pure
  given_exam-same d db = ground arith

  timer_call-same : (eid : ℕ) (db : Db D) → (timer_call js jd env eid db).1 ≡ db
  unfolding get_timer_status
  timer_call-same eid db = ground arith

module _ {J D : Type 0} (js : JsonApi J) (jd : JsonData J D) (fl : Floats D) (env : ℕ → Env)
    (req : Message J) (db : Db D) where
  pub exam_paper_request-Verdict :
      Verdict fl env req.session_id db (exam_paper_request js jd env req db)
  unfolding exam_paper_request
  exam_paper_request-Verdict = authorised-Verdict env req db _ λ s db'. Acts-read _ _ λ given.
      Acts-positive _ _ _ λ rid.
        Acts-call _ _ _ (takes_paper rid s.user_id) 1 (ground arith) (unfold step in refl)
          (λ a d. pure-same _ d)

  -- Only what a handler throws is answered differently.
  catch_all-Verdict :
      {A : Type 0} (m : Handling (Db D) A)
      → Verdict fl env req.session_id db (m db)
      → Verdict fl env req.session_id db (catch_all js jd env m db)
  catch_all-Verdict m (rejects e refusal outcome) = rejects e refusal (ground arith)
  catch_all-Verdict m (admits s accepted acts) =
      admits s accepted (subst (Acts fl env s.user_id _) (ground arith) acts)

  timer_block-Verdict : Verdict fl env req.session_id db (timer_block js jd env req db)
  unfolding timer_block
  timer_block-Verdict = authorised-Verdict env req db _ λ s db'.
      Acts-quiet _ _ (given_exam-same js jd env req.payload db') λ given e.
        Acts-positive _ _ _
          λ eid. Acts-quiet _ _ (timer_call-same js jd env eid db') λ timer e'. Acts-pure _

  pub timer_request-Verdict : Verdict fl env req.session_id db (timer_request js jd env req db)
  unfolding timer_request
  timer_request-Verdict = catch_all-Verdict (timer_block js jd env req) timer_block-Verdict

  pub submit_answer_request-Verdict :
      Verdict fl env req.session_id db (submit_answer_request js jd env req db)
  unfolding submit_answer_request
  submit_answer_request-Verdict = authorised-Verdict env req db _ λ s db'.
      Acts-quiet _ _ (owned_answers-same js jd env s req.payload _ _ _ db') λ found e.
        Acts-call _ _ _ (saves found.0 found.1) 2
          (owned_answers-owned js jd env s req.payload _ _ _ db' found e) (unfold step in refl)
          (λ a d. pure-same _ d)

  pub submit_exam_request-Verdict :
      Verdict fl env req.session_id db (submit_exam_request js jd env fl req db)
  unfolding submit_exam_request
  submit_exam_request-Verdict = authorised-Verdict env req db _ λ s db'.
      Acts-quiet _ _ (owned_answers-same js jd env s req.payload _ _ _ db') λ found e.
        Acts-call _ _ _ (submits found.0 found.1) 2
          (owned_answers-owned js jd env s req.payload _ _ _ db' found e) (unfold step in refl)
          (λ a d. pure-same _ d)
