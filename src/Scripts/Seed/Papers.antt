-- ===== src/Scripts/Seed/Papers.antt =====
-- scripts/seed.cpp and server/src/room.cpp: papers that are drawn from the questions of a run.
use network_final_project.Base.{
  ℕ, zero, suc, ◌+◌, ◌≤◌, ◌<◌, ◌≡◌, refl, ◌∙◌, ap, String, none, some, List, [], ◌++◌, arith,
  length, length-map, length-take_enough, length-append, take, select,
}
use network_final_project.Base.Int.{pos}
use network_final_project.Base.Action.{ok}
use network_final_project.Db.{Db, RoomRow, QuestionRow}
use network_final_project.Db.Env.{Env, select_by_difficulty}
use network_final_project.Room.{RoomSettings, find_room}
use network_final_project.Room.Questions.{
  of_difficulty, paper_question, fetch, fetch_levels, fill_missing, trim, pick_questions,
}
use network_final_project.Room.Paper.{ExamPaper, get_exam_paper, paper_settings}
use network_final_project.Room.Paper.Draws.{get_exam_paper-drawn, draw_paper-ok}
use network_final_project.Scripts.Seed.Questions.{bank}
use network_final_project.Scripts.Seed.{SeedEnv, users, seed}
use network_final_project.Scripts.Seed.Rows.{
  IsUp, question_rows, insert_questions-question_rows, bank-are_difficulties,
}
use network_final_project.Scripts.Seed.Again.{filled, with_users, seed_up, insert_users-questions}

-- The numbers of questions of each difficulty.
bank_counts :
    (env : SeedEnv)
    → (length (select (of_difficulty "EASY") (question_rows env 0 bank)) ≡ 21)
      × (length (select (of_difficulty "MEDIUM") (question_rows env 0 bank)) ≡ 25)
      × (length (select (of_difficulty "HARD") (question_rows env 0 bank)) ≡ 9)
unfolding bank
bank_counts env = (refl, refl, refl)

-- `ORDER BY RANDOM()` loses no row and adds none.
abbrev pub KeepsRows : Env → Type 0
KeepsRows env = (n : ℕ) (qs : List QuestionRow) → length (env.random_order n qs) ≡ length qs

length-fetch :
    (env : Env)
    → KeepsRows env
    → env.prepare select_by_difficulty ≡ none
    → (n k : ℕ) (bank : List QuestionRow) (d : String) → k ≤ length (select (of_difficulty d) bank)
    → length (fetch env n bank d (pos k)) ≡ k
unfolding fetch
length-fetch env keeps up n zero bank d h = refl
length-fetch env keeps up n (suc k) bank d h =
    let drawn = env.random_order n (select (of_difficulty d) bank) in
    ground (
      arith,
      up,
      length-map paper_question (take (suc k) drawn),
      length-take_enough (suc k) drawn (omega (arith, keeps n (select (of_difficulty d) bank))),
    )

module _ {D : Type 0} (env : SeedEnv) (up : IsUp env) (env' : Env) (keeps : KeepsRows env')
    (up' : env'.prepare select_by_difficulty ≡ none) where
  filled-questions :
      (db : Db D) → db.questions ≡ [] → (filled env db).questions ≡ question_rows env 0 bank
  filled-questions db none_yet =
      let same = insert_users-questions env 0 (users env) db in
      ground (
        arith,
        none_yet,
        same,
        insert_questions-question_rows env up 0 bank (with_users env db) bank-are_difficulties,
      )

  pick_questions_full :
      (s : RoomSettings) (e m h : ℕ) (db : Db D)
      → db.questions ≡ question_rows env 0 bank
      → s.total_questions ≡ pos (e + m + h)
      → s.easy ≡ pos e
      → s.medium ≡ pos m
      → s.hard ≡ pos h
      → e ≤ 21
      → m ≤ 25
      → h ≤ 9
      → length (pick_questions env' s db) ≡ e + m + h
  unfolding pick_questions fetch_levels fill_missing trim
  pick_questions_full s e m h db same total easy medium hard fits_e fits_m fits_h =
      let rows = question_rows env 0 bank in
      let (all_e, all_m, all_h) = bank_counts env in
      let es = fetch env' 0 rows "EASY" (pos e) in
      let ms = fetch env' 1 rows "MEDIUM" (pos m) in
      let hs = fetch env' 2 rows "HARD" (pos h) in
      ground (
        arith,
        length-fetch env' keeps up' 0 e rows "EASY" (omega (arith, all_e)),
        length-fetch env' keeps up' 1 m rows "MEDIUM" (omega (arith, all_m)),
        length-fetch env' keeps up' 2 h rows "HARD" (omega (arith, all_h)),
        length-append es ms,
        length-append (es ++ ms) hs,
      )

  -- When the server and SQLite accept the calls of a run on a database without questions and each random
  -- order keeps its rows: every paper that the server then draws, for a room that asks for up to 21
  -- easy, 25 medium and 9 hard questions and for as many as these in total, has the whole of that
  -- number.
  pub get_exam_paper-seed :
      (e m h room_id user_id : ℕ) (room : RoomRow) (paper : ExamPaper) (empty_db db db' : Db D)
      → empty_db.questions ≡ []
      → db.questions ≡ (seed env empty_db).1.questions
      → find_room room_id db ≡ some room
      → room.total_questions ≡ pos (e + m + h)
      → room.easy_count ≡ pos e
      → room.medium_count ≡ pos m
      → room.hard_count ≡ pos h
      → 0 < e + m + h
      → e ≤ 21
      → m ≤ 25
      → h ≤ 9
      → get_exam_paper env' room_id user_id db ≡ (ok paper, db')
      → length paper.questions ≡ e + m + h
  unfolding paper_settings
  get_exam_paper-seed e m h room_id user_id room paper empty_db db db' none_yet bank_of found total
        easy medium hard some_question fits_e fits_m fits_h drawn =
      let (eid, exam_db, picked, same) =
        get_exam_paper-drawn env' room_id user_id room db db' paper found drawn in
      let (picks, one) =
        draw_paper-ok env' eid (paper_settings room) exam_db paper.questions picked in
      let rows =
        same
        ∙ bank_of
        ∙ ap (λ r. r.1.questions) (seed_up env up empty_db)
        ∙ filled-questions empty_db none_yet in
      ap length picks
      ∙ pick_questions_full (paper_settings room) e m h exam_db rows (ground arith) (ground arith)
          (ground arith) (ground arith) fits_e fits_m fits_h
