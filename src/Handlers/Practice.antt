-- ===== src/Handlers/Practice.antt =====
-- server/src/main.cpp: the handlers of practice and of a user's history.
use network_final_project.Base.{ℕ, String, none, some, List, [], ◌∷◌, ◌++◌, map, if◌then◌else◌}
use network_final_project.Base.Int.{ℤ, pos, negsuc, scale}
use network_final_project.Base.Action.{Action, ◌>>◌ as ◌then_do◌, pure as return}
use network_final_project.Codec.Json.{JsonApi}
use network_final_project.Codec.Message.{Message}
use network_final_project.Db.{Db, Floats, PracticeSettings}
use network_final_project.Db.Env.{Env, opened}
use network_final_project.Room.Practice.{start_practice, submit_practice}
use network_final_project.Room.Reports.History.{
  HistoryExam, HistoryPractice, UserHistory, get_user_history,
}
use network_final_project.Handlers.{
  JsonData, Handling, ◌>>=◌, ◌>>◌, pure, call, read, require, positive, Reply, fields, of_id,
  replies, minus_one, question_json, read_answers, read_texts, authorised,
}

module _ {J D : Type 0} (js : JsonApi J) (jd : JsonData J D) (env : ℕ → Env) where
  -- A filter that is missing does not restrict.
  unfoldable pub read_filter : J → String → Handling (Db D) (List String)
  read_filter d key =
      if js.contains d key then read_texts js jd (jd.elements (js.get d key)) else pure []

  unfoldable pub start_practice_request : Message J → Handling (Db D) (Reply J)
  unfolding read_filter
  start_practice_request req = do
    session ← authorised env req
    let d = req.payload
    qcount ← read (jd.value_int d "question_count" (pos 10))
    minutes ← read (jd.value_int d "duration_minutes" (pos 30))
    diffs ← read_filter d "difficulty_filter"
    topics ← read_filter d "topic_filter"
    paper ←
        call "PRACTICE_FAILED"
          (start_practice (env 1) session.user_id qcount (scale 60 minutes) diffs topics)
    pure (
        replies js jd (
          ("practice_id", of_id js jd paper.practice_id)
          ∷ ("start_time", js.of_unsigned paper.start_time)
          ∷ ("end_time", js.of_unsigned paper.end_time)
          ∷ ("questions", jd.of_list (map (question_json js jd) paper.questions))
          ∷ []))

  unfoldable pub submit_practice_request : Floats D → Message J → Handling (Db D) (Reply J)
  submit_practice_request fl req = do
    session ← authorised env req
    let d = req.payload
    given ← read (jd.value_int d "practice_id" minus_one)
    pid ← positive given "practice_id and final_answers required"
    require (js.contains d "final_answers") "INVALID_REQUEST"
        "practice_id and final_answers required"
    require (jd.is_array (js.get d "final_answers")) "INVALID_REQUEST"
        "final_answers must be an array"
    answers ← read_answers js jd (jd.elements (js.get d "final_answers"))
    g ← call "SUBMIT_FAILED" (submit_practice (env 1) fl pid session.user_id answers)
    pure (
        replies js jd (
          ("practice_id", of_id js jd pid)
          ∷ ("correct_answers", of_id js jd g.correct)
          ∷ ("total_questions", of_id js jd g.total)
          ∷ ("score", jd.of_double g.score)
          ∷ []))

  unfoldable pub history_exam_json : HistoryExam D → J
  history_exam_json e = fields js jd (
      (("exam_id", of_id js jd e.exam_id)
        ∷ ("room_id", of_id js jd e.room_id)
        ∷ ("score", jd.of_double e.score)
        ∷ ("correct", of_id js jd e.correct)
        ∷ ("total", of_id js jd e.total)
        ∷ ("submitted_at", js.of_unsigned e.submitted_at)
        ∷ [])
      ++ elim e.room_name [ none ↦ [] | some rn ↦ ("room_name", js.of_string rn) ∷ [] ])

  unfoldable pub settings_json : PracticeSettings → J
  settings_json s = fields js jd (
      ("question_count", jd.of_int s.question_count)
      ∷ ("duration_sec", jd.of_int s.duration_sec)
      ∷ ("difficulties", jd.of_list (map js.of_string s.difficulties))
      ∷ ("topics", jd.of_list (map js.of_string s.topics))
      ∷ [])

  unfoldable pub history_practice_json : HistoryPractice D → J
  unfolding settings_json
  history_practice_json p = fields js jd (
      ("practice_id", of_id js jd p.practice_id)
      ∷ ("score", jd.of_double p.score)
      ∷ ("correct", of_id js jd p.correct)
      ∷ ("total", of_id js jd p.total)
      ∷ ("submitted_at", js.of_unsigned p.submitted_at)
      ∷ ("settings", settings_json p.settings)
      ∷ [])

  -- `get_user_history` at an int: no row has a negative user_id.
  abbrev pub history_of : Floats D → ℤ → Action (Db D) (UserHistory D)
  history_of fl (pos uid) = get_user_history fl (env 1) uid
  history_of fl (negsuc n) =
      opened (env 1) then_do return (record { exams = []; practices = []; avg_score = fl.of_int 0 })

  -- The history of whatever user the request names.
  unfoldable pub user_history_request : Floats D → Message J → Handling (Db D) (Reply J)
  user_history_request fl req = do
    session ← authorised env req
    let d = req.payload
    target_user ←
        if js.contains d "user_id"
        then read (jd.value_int d "user_id" (pos session.user_id))
        else pure (pos session.user_id)
    hist ← call "HISTORY_FAILED" (history_of fl target_user)
    pure (
        replies js jd (
          ("exams", jd.of_list (map history_exam_json hist.exams))
          ∷ ("practices", jd.of_list (map history_practice_json hist.practices))
          ∷ ("average_score", jd.of_double hist.avg_score)
          ∷ []))
