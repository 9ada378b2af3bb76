-- ===== src/Room/Grading/Upsert.antt =====
-- server/src/room.cpp: what the statement of submit_answers stores in the table `answers`.
use network_final_project.Base.{
  ℕ, ◌≡◌, refl, inl, inr, String, Bool, true, false, List, [], ◌∷◌, ◌++◌, Option, none, some, arith,
  first, any, update, if◌then◌else◌, ◌==◌, ◌&&◌, Bool-cases, c_str,
}
use network_final_project.Base.Rows.{any-append}
use network_final_project.Db.{AnswerRow}
use network_final_project.Room.Grading.{answers_question, upsert}

-- The option that is stored for a question of an exam.
abbrev pub selected_of : Option AnswerRow → Option String
selected_of none = none
selected_of (some a) = some a.selected_option

abbrev pub stored : ℕ → ℕ → List AnswerRow → Option String
stored eid qid rows = selected_of (first (answers_question eid qid) rows)

-- The option that a list of answers leaves for a question: the last one sent, up to its first NUL, or
-- what was there.
abbrev pub answered : Option String → ℕ → List (ℕ × String) → Option String
answered before qid [] = before
answered before qid ((k, selected) ∷ rest) =
    answered (if k == qid then some (c_str selected) else before) qid rest

-- One row for each question of each exam.
abbrev pub IsUnique : List AnswerRow → Type 0
IsUnique [] = Unit
IsUnique (a ∷ rows) = (any (answers_question a.exam_id a.question_id) rows ≡ false) × IsUnique rows

update-stored_ne :
    (a : AnswerRow) (eid qid : ℕ) (rows : List AnswerRow)
    → (a.exam_id == eid && a.question_id == qid) ≡ false
    → stored eid qid (
        update
          (answers_question a.exam_id a.question_id)
          (λ r. record r { selected_option = a.selected_option; updated_at = a.updated_at })
          rows)
      ≡ stored eid qid rows
update-stored_ne a eid qid [] h = refl
update-stored_ne a eid qid (r ∷ rows) h = ground (arith, update-stored_ne a eid qid rows)

update-stored :
    (a : AnswerRow) (eid qid : ℕ) (rows : List AnswerRow)
    → any (answers_question a.exam_id a.question_id) rows ≡ true
    → stored eid qid (
        update
          (answers_question a.exam_id a.question_id)
          (λ r. record r { selected_option = a.selected_option; updated_at = a.updated_at })
          rows)
      ≡ (if (a.exam_id == eid && a.question_id == qid)
          then some a.selected_option
          else stored eid qid rows)
update-stored a eid qid [] h = cc
update-stored a eid qid (r ∷ rows) h =
    ground (arith, update-stored a eid qid rows, update-stored_ne a eid qid rows)

append-stored :
    (a : AnswerRow) (eid qid : ℕ) (rows : List AnswerRow)
    → any (answers_question a.exam_id a.question_id) rows ≡ false
    → stored eid qid (rows ++ a ∷ []) ≡ (
        if (a.exam_id == eid && a.question_id == qid)
        then some a.selected_option
        else stored eid qid rows)
append-stored a eid qid [] h = ground arith
append-stored a eid qid (r ∷ rows) h = ground (arith, append-stored a eid qid rows)

pub upsert-stored :
    (a : AnswerRow) (eid qid : ℕ) (rows : List AnswerRow)
    → stored eid qid (upsert a rows) ≡ (
        if (a.exam_id == eid && a.question_id == qid)
        then some a.selected_option
        else stored eid qid rows)
unfolding upsert
upsert-stored a eid qid rows =
    elim (Bool-cases (any (answers_question a.exam_id a.question_id) rows)) [
      | inl old ↦ rw old (update-stored a eid qid rows old)
      | inr new ↦ rw new (append-stored a eid qid rows new)
    ]

update-any :
    (p q : AnswerRow → Bool) (f : AnswerRow → AnswerRow) (rows : List AnswerRow)
    → ((r : AnswerRow) → p (f r) ≡ p r)
    → any p (update q f rows) ≡ any p rows
update-any p q f [] keep = refl
update-any p q f (r ∷ rows) keep = ground (arith, keep r, update-any p q f rows keep)

update-IsUnique :
    (q : AnswerRow → Bool) (selected : String) (now : ℕ) (rows : List AnswerRow)
    → IsUnique rows
    → IsUnique (update q (λ r. record r { selected_option = selected; updated_at = now }) rows)
update-IsUnique q selected now [] v = tt
update-IsUnique q selected now (r ∷ rows) v =
    let f = λ (r : AnswerRow). record r { selected_option = selected; updated_at = now } in
    ground (
      arith,
      update-any (answers_question r.exam_id r.question_id) q
          (λ r. record r { selected_option = selected; updated_at = now }) rows (λ x. refl),
      update-IsUnique q selected now rows v.1,
    )

append-IsUnique :
    (a : AnswerRow) (rows : List AnswerRow)
    → IsUnique rows
    → any (answers_question a.exam_id a.question_id) rows ≡ false
    → IsUnique (rows ++ a ∷ [])
append-IsUnique a [] v h = (refl, tt)
append-IsUnique a (r ∷ rows) v h = ground (
  arith,
  any-append (answers_question r.exam_id r.question_id) rows a,
  append-IsUnique a rows v.1,
)

pub upsert-IsUnique :
    (a : AnswerRow) (rows : List AnswerRow) → IsUnique rows → IsUnique (upsert a rows)
unfolding upsert
upsert-IsUnique a rows v = ground (
  arith,
  update-IsUnique (answers_question a.exam_id a.question_id) a.selected_option a.updated_at rows v,
  append-IsUnique a rows v,
)
