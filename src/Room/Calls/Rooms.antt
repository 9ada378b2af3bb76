-- ===== src/Room/Calls/Rooms.antt =====
-- server/src/room.cpp: the methods on papers, answers and practice, and the table `rooms`.
use network_final_project.Base.{
  ℕ, suc, ◌≡◌, refl, String, List, [], ◌∷◌, ◌++◌, arith, length, inl, inr, Option-cases, map,
  select,
}
use network_final_project.Base.Int.{ℤ}
use network_final_project.Base.Action.{Action, Result-cases}
use network_final_project.Db.{Db, Floats, PaperQuestion}
use network_final_project.Db.Env.{Env}
use network_final_project.Room.{RoomSettings, find_room, to_u64}
use network_final_project.Room.Questions.{pick_questions}
use network_final_project.Auth.{add_u64}
use network_final_project.Room.Paper.{
  paper_settings, insert_exam_row, set_total, save_from, save_exam_questions, draw_paper,
  in_transaction, ensure_exam, get_exam_paper,
}
use network_final_project.Room.Grading.{
  is_expired, save_answers, submit_answers, submit_exam, close_exam, submit_expired, submit_all,
  auto_submit_expired_exams, upsert, new_answer,
}
use network_final_project.Room.Practice.{start_practice, submit_practice}

-- The table `rooms` and its next key are as before.
abbrev pub SameRooms : {D : Type 0} → Db D → Db D → Type 0
SameRooms db db' = (db'.rooms ≡ db.rooms) × (db'.next_room ≡ db.next_room)

module _ {D : Type 0} (env : Env) where
  save_from-rooms :
      (eid i : ℕ) (qs : List PaperQuestion) (db : Db D) → SameRooms db (save_from env eid i qs db).1
  unfolding save_from
  save_from-rooms eid i [] db = (refl, refl)
  save_from-rooms eid i (q ∷ qs) db = ground (
    arith,
    save_from-rooms eid (suc i) qs (record db {
      exam_questions =
          db.exam_questions
          ++ record { exam_id = eid; question_id = q.question_id; question_order = suc i } ∷ [];
    }),
  )

  save_exam_questions-rooms :
      (eid : ℕ) (qs : List PaperQuestion) (db : Db D)
      → SameRooms db (save_exam_questions env eid qs db).1
  unfolding save_exam_questions
  save_exam_questions-rooms eid qs db = ground (arith, save_from-rooms eid 0 qs db)

  set_total-rooms : (eid n : ℕ) (db : Db D) → SameRooms db (set_total env eid n db)
  unfolding set_total
  set_total-rooms eid n db = ground arith

  draw_paper-rooms :
      (eid : ℕ) (settings : RoomSettings) (db : Db D)
      → SameRooms db (draw_paper env eid settings db).1
  unfolding draw_paper
  draw_paper-rooms eid settings db =
      let qs = pick_questions env settings db in
      let db' = (save_exam_questions env eid qs db).1 in
      ground (arith, save_exam_questions-rooms eid qs db, set_total-rooms eid (length qs) db')

  ensure_exam-rooms :
      (rid uid start end_time : ℕ) (db : Db D)
      → SameRooms db (ensure_exam env rid uid start end_time db).1
  unfolding ensure_exam insert_exam_row
  ensure_exam-rooms rid uid start end_time db = ground arith

  in_transaction-rooms :
      {A : Type 0} (body : Action (Db D) A) (db : Db D)
      → SameRooms db (body db).1
      → SameRooms db (in_transaction env body db).1
  unfolding in_transaction
  in_transaction-rooms body db h = ground arith

  pub get_exam_paper-rooms :
      (rid uid : ℕ) (db : Db D) → SameRooms db (get_exam_paper env rid uid db).1
  unfolding get_exam_paper
  get_exam_paper-rooms rid uid db = elim (Option-cases (find_room rid db)) [
    | inl missing ↦ ground arith
    | inr (room, found) ↦
        let start = env.clock 0 in
        let end_time = add_u64 start (to_u64 room.duration_sec) in
        let (r, db') = ensure_exam env rid uid start end_time db in
        let settings = paper_settings room in
        let kept = ensure_exam-rooms rid uid start end_time db in
        elim (Result-cases r) [
          | inl (e, failed) ↦ ground (arith, kept)
          | inr (eid, made) ↦ ground (
            arith,
            kept,
            in_transaction-rooms (draw_paper env eid settings) db'
                (draw_paper-rooms eid settings db'),
          )
        ]
  ]

  save_answers-rooms :
      (eid i : ℕ) (answers : List (ℕ × String)) (db : Db D)
      → SameRooms db (save_answers env eid i answers db).1
  unfolding save_answers
  save_answers-rooms eid i [] db = (refl, refl)
  save_answers-rooms eid i (a ∷ rest) db = ground (
    arith,
    save_answers-rooms eid (suc i) rest
        (record db { answers = upsert (new_answer env eid i a) db.answers }),
  )

  pub submit_answers-rooms :
      (eid : ℕ) (answers : List (ℕ × String)) (db : Db D)
      → SameRooms db (submit_answers env eid answers db).1
  unfolding submit_answers
  submit_answers-rooms eid answers db = ground (arith, save_answers-rooms eid 0 answers db)

  pub start_practice-rooms :
      (uid : ℕ) (count duration : ℤ) (difficulties topics : List String) (db : Db D)
      → SameRooms db (start_practice env uid count duration difficulties topics db).1
  unfolding start_practice
  start_practice-rooms uid count duration difficulties topics db = ground arith

module _ {D : Type 0} (env : Env) (fl : Floats D) where
  pub submit_exam-rooms :
      (eid : ℕ) (answers : List (ℕ × String)) (db : Db D)
      → SameRooms db (submit_exam env fl eid answers db).1
  unfolding submit_exam close_exam
  submit_exam-rooms eid answers db = ground (arith, submit_answers-rooms env eid answers db)

  pub submit_practice-rooms :
      (pid uid : ℕ) (answers : List (ℕ × String)) (db : Db D)
      → SameRooms db (submit_practice env fl pid uid answers db).1
  unfolding submit_practice
  submit_practice-rooms pid uid answers db = ground arith

  submit_all-rooms :
      (i n : ℕ) (eids : List ℕ) (db : Db D) → SameRooms db (submit_all env fl i eids (n, db)).1
  unfolding submit_all
  submit_all-rooms i n [] db = (refl, refl)
  submit_all-rooms i n (eid ∷ eids) db =
      let (n', db') = submit_expired env fl i eid (n, db) in
      let kept : SameRooms db db' = unfold submit_expired in ground arith in
      ground (arith, submit_all-rooms (suc i) n' eids db', kept)

  pub auto_submit_expired_exams-rooms :
      (db : Db D) → SameRooms db (auto_submit_expired_exams env fl db).1
  unfolding auto_submit_expired_exams
  auto_submit_expired_exams-rooms db =
      ground
        (arith, submit_all-rooms 0 0 (map (λ e. e.id) (select (is_expired env fl) db.exams)) db)
