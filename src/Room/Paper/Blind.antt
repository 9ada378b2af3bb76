-- ===== src/Room/Paper/Blind.antt =====
-- server/src/room.cpp: get_exam_paper and the column correct_option.
use network_final_project.Base.{
  ℕ, zero, suc, ◌-◌, ◌≡◌, refl, ◌∙◌, sym, ap, String, Bool, List, [], ◌∷◌, ◌++◌, map, arith, take,
  select, length, none, some, first, Option-cases, inl, inr, ◌==◌,
}
use network_final_project.Base.Int.{ℤ, pos_part}
use network_final_project.Base.Action.{Action, Result-cases}
use network_final_project.Db.{Db, QuestionRow, PaperQuestion, ExamQuestionRow}
use network_final_project.Db.Env.{Env}
use network_final_project.Room.{RoomSettings, find_room, to_u64, order_by}
use network_final_project.Room.Lifecycle.{is_participant}
use network_final_project.Auth.{add_u64}
use network_final_project.Room.Questions.{
  paper_question, of_difficulty, not_picked, fetch, fetch_levels, fill_missing, trim,
  pick_questions,
}
use network_final_project.Room.Paper.{
  rows_of_exam, join_questions, load_exam_questions, save_from, save_exam_questions,
  insert_exam_row, ensure_exam, set_total, paper_settings, draw_paper, in_transaction,
  get_exam_paper,
}

abbrev pub hide : QuestionRow → QuestionRow
hide q = record q { correct_option = "" }

-- The database with its right answers blanked out.
abbrev pub hidden : {D : Type 0} → Db D → Db D
hidden db = record db { questions = map hide db.questions }

paper_question-hide :
    (qs : List QuestionRow) → map paper_question (map hide qs) ≡ map paper_question qs
unfolding paper_question
paper_question-hide [] = refl
paper_question-hide (q ∷ qs) = ap (◌∷◌ (paper_question q)) (paper_question-hide qs)

take-hide : (n : ℕ) (qs : List QuestionRow) → take n (map hide qs) ≡ map hide (take n qs)
take-hide zero qs = refl
take-hide (suc n) [] = refl
take-hide (suc n) (q ∷ qs) = ap (◌∷◌ (hide q)) (take-hide n qs)

select-hide :
    (p : QuestionRow → Bool) (qs : List QuestionRow)
    → ((q : QuestionRow) → p (hide q) ≡ p q)
    → select p (map hide qs) ≡ map hide (select p qs)
select-hide p [] h = refl
select-hide p (q ∷ qs) h = ground (arith, h q, select-hide p qs h)

join_questions-hide :
    (bank : List QuestionRow) (rows : List ExamQuestionRow)
    → join_questions (map hide bank) rows ≡ join_questions bank rows
unfolding join_questions paper_question
join_questions-hide bank [] = refl
join_questions-hide bank (r ∷ rows) =
    ground (arith, join_questions-hide bank rows, first-hide r.question_id bank)
  where
    first-hide :
        (k : ℕ) (qs : List QuestionRow)
        → first (λ q. q.id == k) (map hide qs)
          ≡ (elim (first (λ q. q.id == k) qs) [ none ↦ none | some q ↦ some (hide q) ])
    first-hide k [] = refl
    first-hide k (q ∷ qs) = ground (arith, first-hide k qs)

module _ (env : Env)
    (blind : (n : ℕ) (qs : List QuestionRow)
      → env.random_order n (map hide qs) ≡ map hide (env.random_order n qs)) where
  -- The first rows of a query in a random order.
  drawn-hide :
      (n k : ℕ) (p : QuestionRow → Bool) (bank : List QuestionRow)
      → ((q : QuestionRow) → p (hide q) ≡ p q)
      → map paper_question (take k (env.random_order n (select p (map hide bank))))
        ≡ map paper_question (take k (env.random_order n (select p bank)))
  drawn-hide n k p bank h =
      ap (λ qs. map paper_question (take k (env.random_order n qs))) (select-hide p bank h)
      ∙ ap (λ qs. map paper_question (take k qs)) (blind n (select p bank))
      ∙ ap (map paper_question) (take-hide k (env.random_order n (select p bank)))
      ∙ paper_question-hide (take k (env.random_order n (select p bank)))

  fetch-hide :
      (n : ℕ) (bank : List QuestionRow) (d : String) (count : ℤ)
      → fetch env n (map hide bank) d count ≡ fetch env n bank d count
  unfolding fetch
  fetch-hide n bank d count =
      ground (arith, drawn-hide n (pos_part count) (of_difficulty d) bank (λ q. refl))

  pick_questions-hide :
      {D : Type 0} (s : RoomSettings) (db : Db D)
      → pick_questions env s (hidden db) ≡ pick_questions env s db
  unfolding pick_questions fetch_levels fill_missing
  pick_questions-hide s db =
      let levels : fetch_levels env (map hide db.questions) s ≡ fetch_levels env db.questions s =
        ground (
          arith,
          fetch-hide 0 db.questions "EASY" s.easy,
          fetch-hide 1 db.questions "MEDIUM" s.medium,
          fetch-hide 2 db.questions "HARD" s.hard,
        ) in
      let qs = fetch_levels env db.questions s in
      ap (λ ls. trim env s (fill_missing env (map hide db.questions) s ls)) levels
      ∙ ap (trim env s) (
          ground (
            arith,
            drawn-hide 3 (pos_part s.total_questions - length qs) (not_picked qs) db.questions
                (λ q. refl),
          ))

  load_exam_questions-hide :
      {D : Type 0} (eid : ℕ) (db : Db D)
      → load_exam_questions env eid (hidden db) ≡ load_exam_questions env eid db
  unfolding load_exam_questions
  load_exam_questions-hide eid db = ground (
    arith,
    join_questions-hide db.questions
        (order_by (λ r. r.question_order) (rows_of_exam eid db.exam_questions)),
  )

  -- The step is the same on the blanked database, and leaves it blanked.
  abbrev IsBlind : {D A : Type 0} → Action (Db D) A → Type 0
  IsBlind {D = D} m = (db : Db D) → m (hidden db) ≡ ((m db).0, hidden (m db).1)

  module _ {D : Type 0} where
    save_from-IsBlind :
        (eid i : ℕ) (qs : List PaperQuestion) → IsBlind (save_from {D = D} env eid i qs)
    unfolding save_from
    save_from-IsBlind eid i [] db = refl
    save_from-IsBlind eid i (q ∷ qs) db = ground (
      arith,
      save_from-IsBlind eid (suc i) qs (record db {
        exam_questions =
            db.exam_questions
            ++ record { exam_id = eid; question_id = q.question_id; question_order = suc i } ∷ [];
      }),
    )

    ensure_exam-IsBlind :
        (rid uid start end_time : ℕ) → IsBlind (ensure_exam {D = D} env rid uid start end_time)
    unfolding ensure_exam insert_exam_row
    ensure_exam-IsBlind rid uid start end_time db = ground arith

    draw_paper-IsBlind : (eid : ℕ) (s : RoomSettings) → IsBlind (draw_paper {D = D} env eid s)
    unfolding draw_paper save_exam_questions set_total
    draw_paper-IsBlind eid s db = ground (
      arith,
      load_exam_questions-hide eid db,
      pick_questions-hide s db,
      save_from-IsBlind eid 0 (pick_questions env s db) db,
    )

    in_transaction-IsBlind :
        {A : Type 0} (m : Action (Db D) A) → IsBlind m → IsBlind (in_transaction env m)
    unfolding in_transaction
    in_transaction-IsBlind m h db = ground (arith, h db)

    get_exam_paper-IsBlind : (rid uid : ℕ) → IsBlind (get_exam_paper {D = D} env rid uid)
    unfolding get_exam_paper is_participant
    get_exam_paper-IsBlind rid uid db = elim (Option-cases (find_room rid db)) [
      | inl absent ↦ ground arith
      | inr (room, found) ↦
          let start = env.clock 0 in
          let end_time = add_u64 start (to_u64 room.duration_sec) in
          let (r, exam_db) = ensure_exam env rid uid start end_time db in
          elim (Result-cases r) [
            | inl (e, failed) ↦ ground (arith, ensure_exam-IsBlind rid uid start end_time db)
            | inr (eid, made) ↦ ground (
              arith,
              ensure_exam-IsBlind rid uid start end_time db,
              in_transaction-IsBlind (draw_paper env eid (paper_settings room))
                  (draw_paper-IsBlind eid (paper_settings room)) exam_db,
            )
          ]
    ]

    -- When a query in a random order does not look at the right answers: on two databases that
    -- differ in nothing but the column correct_option, get_exam_paper answers the same, be it a paper
    -- or an error.
    pub get_exam_paper_blind :
        (rid uid : ℕ) (db db' : Db D)
        → hidden db ≡ hidden db'
        → (get_exam_paper env rid uid db).0 ≡ (get_exam_paper env rid uid db').0
    get_exam_paper_blind rid uid db db' same =
        sym (ap (λ p. p.0) (get_exam_paper-IsBlind rid uid db))
        ∙ ap (λ d. (get_exam_paper env rid uid d).0) same
        ∙ ap (λ p. p.0) (get_exam_paper-IsBlind rid uid db')
