-- ===== src/Room/Paper/Draws.antt =====
-- server/src/room.cpp: what get_exam_paper leaves behind, and how many questions it draws.
use network_final_project.Base.{
  ℕ, zero, suc, ◌≤◌, ◌≡◌, ap, String, true, List, [], ◌∷◌, some, arith, length, take, inl, inr,
  Option-cases, none,
}
use network_final_project.Base.Int.{pos_part, is_positive}
use network_final_project.Base.Action.{Action, ok, err, Result-cases}
use network_final_project.Db.{RoomRow, Db, PaperQuestion}
use network_final_project.Db.Env.{Env, rollback_all}
use network_final_project.Room.{RoomSettings, find_room, to_u64}
use network_final_project.Auth.{add_u64}
use network_final_project.Room.Questions.{pick_questions, trim}
use network_final_project.Room.Paper.{
  ExamPaper, ensure_exam, insert_exam_row, save_exam_questions, draw_paper, in_transaction,
  get_exam_paper, paper_settings,
}

module _ {D : Type 0} (env : Env) where
  in_transaction-err :
      {A : Type 0} (body : Action (Db D) A) (db : Db D) (e : String)
      → ((body db).0 ≡ err e → (body db).1 ≡ db)
      → (in_transaction env body db).0 ≡ err e
      → (in_transaction env body db).1 ≡ db
  unfolding in_transaction
  in_transaction-err body db e back h = ground arith

  draw_paper-err :
      (eid : ℕ) (s : RoomSettings) (db : Db D) (e : String)
      → env.exec rollback_all ≡ none
      → (draw_paper env eid s db).0 ≡ err e
      → (draw_paper env eid s db).1 ≡ db
  unfolding draw_paper
  draw_paper-err eid s db e back h =
      ground (arith, Result-cases (save_exam_questions env eid (pick_questions env s db) db).0)

  in_transaction-ok :
      {A : Type 0} (body : Action (Db D) A) (db : Db D) (a : A)
      → (in_transaction env body db).0 ≡ ok a
      → (body db).0 ≡ ok a
  unfolding in_transaction
  in_transaction-ok body db a h = ground arith

  ensure_exam-papers :
      (rid uid start end_time : ℕ) (db : Db D)
      → (ensure_exam env rid uid start end_time db).1.exam_questions ≡ db.exam_questions
  unfolding ensure_exam insert_exam_row
  ensure_exam-papers rid uid start end_time db = ground arith

  ensure_exam-questions :
      (rid uid start end_time : ℕ) (db : Db D)
      → (ensure_exam env rid uid start end_time db).1.questions ≡ db.questions
  unfolding ensure_exam insert_exam_row
  ensure_exam-questions rid uid start end_time db = ground arith

  pub draw_paper-ok :
      (eid : ℕ) (s : RoomSettings) (db : Db D) (qs : List PaperQuestion)
      → (draw_paper env eid s db).0 ≡ ok qs
      → (qs ≡ pick_questions env s db) × (1 ≤ length qs)
  unfolding draw_paper
  draw_paper-ok eid s db qs h = ground arith

  -- When SQLite accepts a ROLLBACK, a call that returns a failure, from whatever point, leaves no part
  -- of a paper behind.
  pub get_exam_paper_atomic :
      (rid uid : ℕ) (db db' : Db D) (e : String)
      → get_exam_paper env rid uid db ≡ (err e, db')
      → env.exec rollback_all ≡ none
      → db'.exam_questions ≡ db.exam_questions
  unfolding get_exam_paper
  get_exam_paper_atomic rid uid db db' e h back = elim (Option-cases (find_room rid db)) [
    | inl none_found ↦ ground arith
    | inr (room, found) ↦
        let start = env.clock 0 in
        let end_time = add_u64 start (to_u64 room.duration_sec) in
        let (r, exam_db) = ensure_exam env rid uid start end_time db in
        elim (Result-cases r) [
          | inl (e₁, failed) ↦ ground (arith, ensure_exam-papers rid uid start end_time db)
          | inr (eid, made) ↦
              let body = draw_paper env eid (paper_settings room) in
              elim (Result-cases (in_transaction env body exam_db).0) [
                | inl (e₂, failed) ↦ ground (
                  arith,
                  ensure_exam-papers rid uid start end_time db,
                  in_transaction-err body exam_db e₂
                      (draw_paper-err eid (paper_settings room) exam_db e₂ back) failed,
                )
                | inr (qs, drawn) ↦ ground arith
              ]
        ]
  ]

length-take_le : (n : ℕ) (xs : List PaperQuestion) → length (take n xs) ≤ n
length-take_le zero xs = omega arith
length-take_le (suc n) [] = omega arith
length-take_le (suc n) (x ∷ xs) = omega (arith, length-take_le n xs)

trim-length :
    (env : Env) (s : RoomSettings) (qs : List PaperQuestion)
    → is_positive s.total_questions ≡ true
    → length (trim env s qs) ≤ pos_part s.total_questions
unfolding trim
trim-length env s qs h =
    ground (arith, length-take_le (pos_part s.total_questions) (env.shuffle qs))

paper_settings-positive : (r : RoomRow) → is_positive (paper_settings r).total_questions ≡ true
unfolding paper_settings
paper_settings-positive r = ground arith

pick_questions-length :
    {D : Type 0} (env : Env) (s : RoomSettings) (db : Db D)
    → is_positive s.total_questions ≡ true
    → length (pick_questions env s db) ≤ pos_part s.total_questions
unfolding pick_questions
pick_questions-length env s db h = trim-length env s _ h

pub get_exam_paper-drawn :
    {D : Type 0} (env : Env) (rid uid : ℕ) (room : RoomRow) (db db' : Db D) (paper : ExamPaper)
    → find_room rid db ≡ some room
    → get_exam_paper env rid uid db ≡ (ok paper, db')
    → (eid : ℕ) × (exam_db : Db D) × ((draw_paper env eid (paper_settings room) exam_db).0
        ≡ ok paper.questions)
      × (exam_db.questions ≡ db.questions)
unfolding get_exam_paper
get_exam_paper-drawn env rid uid room db db' paper found h =
    let start = env.clock 0 in
    let end_time = add_u64 start (to_u64 room.duration_sec) in
    let (r, exam_db) = ensure_exam env rid uid start end_time db in
    elim (Result-cases r) [
      | inl (e₁, failed) ↦ absurd (ground arith)
      | inr (eid, made) ↦
          let body = draw_paper env eid (paper_settings room) in
          elim (Result-cases (in_transaction env body exam_db).0) [
            | inl (e₂, failed) ↦ absurd (ground arith)
            | inr (qs, drawn) ↦ (
              eid,
              exam_db,
              ground (arith, in_transaction-ok env body exam_db qs drawn),
              ensure_exam-questions env rid uid start end_time db,
            )
          ]
    ]

-- A paper has at least one question, and no more than the total of the room's settings, or 10 where
-- the settings ask for none, whatever the random orders are.
pub get_exam_paper-length :
    {D : Type 0} (env : Env) (rid uid : ℕ) (room : RoomRow) (db db' : Db D) (paper : ExamPaper)
    → find_room rid db ≡ some room
    → get_exam_paper env rid uid db ≡ (ok paper, db')
    → (1 ≤ length paper.questions)
      × (length paper.questions ≤ pos_part (paper_settings room).total_questions)
get_exam_paper-length env rid uid room db db' paper found h =
    let (eid, exam_db, drawn, same) = get_exam_paper-drawn env rid uid room db db' paper found h in
    let (picked, some_question) =
      draw_paper-ok env eid (paper_settings room) exam_db paper.questions drawn in
    (
      some_question,
      omega (
        arith,
        ap length picked,
        pick_questions-length env (paper_settings room) exam_db (paper_settings-positive room),
      ),
    )
