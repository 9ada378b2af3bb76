-- ===== src/Handlers/Exams.antt =====
-- server/src/main.cpp: the handlers of exams.
use network_final_project.Base.{ℕ, String, List, [], ◌∷◌, map, str_eq, if◌then◌else◌, length}
use network_final_project.Base.Int.{ℤ}
use network_final_project.Base.Action.{ok, err}
use network_final_project.Codec.Json.{JsonApi}
use network_final_project.Codec.Message.{Message}
use network_final_project.Db.{Db, Floats}
use network_final_project.Db.Env.{Env}
use network_final_project.Auth.{SessionInfo}
use network_final_project.Room.Lifecycle.{exam_owned_by}
use network_final_project.Room.Paper.{get_exam_paper}
use network_final_project.Room.Grading.{submit_answers, submit_exam}
use network_final_project.Room.Timer.{TimerStatus, get_timer_status, to_i32}
use network_final_project.Handlers.{
  JsonData, value, refused, thrown, Handling, ◌>>=◌, ◌>>◌, pure, call, read, look, require,
  positive, Reply, of_id, replies, minus_one, question_json, read_answers, authorised,
}

module _ {J D : Type 0} (js : JsonApi J) (jd : JsonData J D) (env : ℕ → Env) where
  unfoldable pub exam_paper_request : Message J → Handling (Db D) (Reply J)
  exam_paper_request req = do
    session ← authorised env req
    given ← read (jd.value_int req.payload "room_id" minus_one)
    room_id ← positive given "room_id required"
    paper ← call "EXAM_FAILED" (get_exam_paper (env 1) room_id session.user_id)
    pure (
        replies js jd (
          ("exam_id", of_id js jd paper.exam_id)
          ∷ ("room_id", of_id js jd paper.room_id)
          ∷ ("start_time", js.of_unsigned paper.start_time)
          ∷ ("end_time", js.of_unsigned paper.end_time)
          ∷ ("questions", jd.of_list (map (question_json js jd) paper.questions))
          ∷ []))

  -- `catch (const std::exception&)` around the whole of GET_TIMER_STATUS.
  abbrev pub catch_all : {A : Type 0} → Handling (Db D) A → Handling (Db D) A
  catch_all m db =
      let (r, db') = m db in
      elim r [
        | value a ↦ (value a, db')
        | refused code text ↦ (refused code text, db')
        | thrown text ↦ (refused "INTERNAL_ERROR" "internal server error", db')
      ]

  -- An exam_id that is missing or no integer stays -1.
  abbrev pub given_exam : J → Handling (Db D) ℤ
  given_exam d =
      if js.contains d "exam_id"
      then (if jd.is_integer (js.get d "exam_id")
          then read (jd.get_int (js.get d "exam_id"))
          else pure minus_one)
      else pure minus_one

  -- `timer_error.empty() ? "exam not found" : timer_error`
  abbrev pub timer_call : ℕ → Handling (Db D) TimerStatus
  timer_call exam_id db =
      let (r, db') = get_timer_status (env 1) exam_id db in
      elim r [
        | ok timer ↦ (value timer, db')
        | err e ↦ (refused "TIMER_FAILED" (if str_eq e "" then "exam not found" else e), db')
      ]

  -- What stands in the `try` block.
  unfoldable pub timer_block : Message J → Handling (Db D) (Reply J)
  timer_block req = do
    session ← authorised env req
    given ← given_exam req.payload
    exam_id ← positive given "exam_id required and must be positive integer"
    timer ← timer_call exam_id
    pure (
        replies js jd (
          ("started_at", of_id js jd timer.started_at)
          ∷ ("duration_sec", jd.of_int (to_i32 timer.duration_sec))
          ∷ ("remaining_sec", jd.of_int timer.remaining_sec)
          ∷ ("server_time", of_id js jd timer.server_time)
          ∷ []))

  unfoldable pub timer_request : Message J → Handling (Db D) (Reply J)
  unfolding timer_block
  timer_request req = catch_all (timer_block req)

  -- The checks of SUBMIT_ANSWER and SUBMIT_EXAM up to the list of answers, which stands under `key`.
  unfoldable pub owned_answers :
      SessionInfo → J → String → String → String → Handling (Db D) (ℕ × List (ℕ × String))
  owned_answers session d key missing no_array = do
    given ← read (jd.value_int d "exam_id" minus_one)
    exam_id ← positive given missing
    require (js.contains d key) "INVALID_REQUEST" missing
    require (jd.is_array (js.get d key)) "INVALID_REQUEST" no_array
    owned ← look (exam_owned_by (env 1) exam_id session.user_id)
    require owned "FORBIDDEN" "exam not owned by user"
    answers ← read_answers js jd (jd.elements (js.get d key))
    pure (exam_id, answers)

  unfoldable pub submit_answer_request : Message J → Handling (Db D) (Reply J)
  submit_answer_request req = do
    session ← authorised env req
    (exam_id, answers) ←
        owned_answers session req.payload "answers" "exam_id and answers required"
          "answers must be an array"
    call "SUBMIT_FAILED" (submit_answers (env 2) exam_id answers)
    pure (replies js jd (("saved_count", of_id js jd (length answers)) ∷ []))

  unfoldable pub submit_exam_request : Floats D → Message J → Handling (Db D) (Reply J)
  submit_exam_request fl req = do
    session ← authorised env req
    (exam_id, answers) ←
        owned_answers session req.payload "final_answers" "exam_id and final_answers required"
          "final_answers must be an array"
    g ← call "SUBMIT_FAILED" (submit_exam (env 2) fl exam_id answers)
    pure (
        replies js jd (
          ("exam_id", of_id js jd exam_id)
          ∷ ("correct_answers", of_id js jd g.correct)
          ∷ ("total_questions", of_id js jd g.total)
          ∷ ("score", jd.of_double g.score)
          ∷ []))
