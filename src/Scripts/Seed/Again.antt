-- ===== src/Scripts/Seed/Again.antt =====
-- scripts/seed.cpp: a run that fails, and a second run.
use network_final_project.Base.{
  Bool-cases, inl, inr, ℕ, suc, ◌≡◌, refl, ◌∙◌, ap, sym, Bool, String, true, false, List, [], ◌∷◌,
  arith, length, length-append, ◌==◌, if◌then◌else◌,
}
use network_final_project.Base.Action.{Result-cases, ok, err}
use network_final_project.Db.{Db}
use network_final_project.Scripts.Seed.Questions.{SeedQuestion, bank}
use network_final_project.Scripts.Seed.Rows.{
  IsUp, insert_users_lem, insert_questions-question_rows, bank-are_difficulties, length-bank,
  length-question_rows, question_rows,
}
use network_final_project.Scripts.Seed.{
  UserSeed, SeedEnv, users, insert_or_ignore, insert_users, seed_users, insert_question,
  insert_questions, seed_questions, fill, transaction, seed, seed_main, no_rows,
}

pub no_rows_of : {A : Type 0} (xs : List A) → (length xs == 0) ≡ true → xs ≡ []
no_rows_of [] h = refl
no_rows_of (x ∷ xs) h = absurd (ground arith)

module _ {D : Type 0} (env : SeedEnv) where
  -- A run that throws, at whatever point, leaves every table as it was.
  pub seed_atomic : (db db' : Db D) (e : String) → seed env db ≡ (err e, db') → db' ≡ db
  unfolding seed transaction
  seed_atomic db db' e h = ground (arith, Result-cases (fill env db).0)

  abbrev pub with_users : Db D → Db D
  with_users db = if length db.users == 0 then insert_users env 0 (users env) db else db

  -- What a run leaves where every call succeeds.
  abbrev pub filled : Db D → Db D
  filled db =
      if length db.questions == 0
      then insert_questions env 0 bank (with_users db)
      else with_users db

  pub insert_users-questions :
      (n : ℕ) (us : List UserSeed) (db : Db D) → (insert_users env n us db).questions ≡ db.questions
  unfolding insert_users insert_or_ignore
  insert_users-questions n [] db = refl
  insert_users-questions n (u ∷ us) db =
      insert_users-questions (suc n) us (insert_or_ignore env n u db) ∙ ground arith

  pub insert_questions-users :
      (n : ℕ) (qs : List SeedQuestion) (db : Db D) → (insert_questions env n qs db).users ≡ db.users
  unfolding insert_questions insert_question
  insert_questions-users n [] db = refl
  insert_questions-users n (q ∷ qs) db =
      insert_questions-users (suc n) qs (insert_question env n q db) ∙ ground arith

  fill_up : IsUp env → (db : Db D) → fill env db ≡ (ok tt, filled db)
  unfolding fill seed_users seed_questions
  fill_up up db = ground (
    arith,
    up.prepare_users_up,
    up.prepare_questions_up,
    up.counts_users_up,
    up.counts_questions_up,
    insert_users-questions 0 (users env) db,
  )

  pub seed_up : IsUp env → (db : Db D) → seed env db ≡ (ok tt, filled db)
  unfolding seed transaction
  seed_up up db = ground (
    arith,
    up.opens_up,
    up.reads_schema_up,
    up.schema_up,
    up.begin_immediate_up,
    up.commit_up,
    fill_up up db,
  )

  with_users-some : IsUp env → (db : Db D) → (length (with_users db).users == 0) ≡ false
  with_users-some up db = elim (Bool-cases (length db.users == 0)) [
    | inl e ↦
        ground (arith, e, no_rows_of db.users e, insert_users_lem env up db (no_rows_of db.users e))
    | inr e ↦ ground (arith, e)
  ]

  filled-some :
      IsUp env
      → (db : Db D)
      → ((length (filled db).users == 0) ≡ false) × ((length (filled db).questions == 0) ≡ false)
  filled-some up db = elim (Bool-cases (length db.questions == 0)) [
    | inl e ↦ (
      ground (arith, e, insert_questions-users 0 bank (with_users db), with_users-some up db),
      ground (
        arith,
        e,
        no_rows_of db.questions e,
        insert_questions-question_rows env up 0 bank (with_users db) bank-are_difficulties,
        length-question_rows env (length (with_users db).questions) bank,
        length-append (with_users db).questions
            (question_rows env (length (with_users db).questions) bank),
        length-bank,
        insert_users-questions 0 (users env) db,
      ),
    )
    | inr e ↦ (
      ground (arith, e, with_users-some up db),
      ground (arith, e, insert_users-questions 0 (users env) db),
    )
  ]

seed_main_up :
    {D : Type 0} (env : SeedEnv)
    → IsUp env
    → (reset : Bool) (db : Db D)
    → seed_main env reset db ≡ (ok tt, filled env (if reset then no_rows else db))
unfolding seed_main
seed_main_up {D = D} env up true db =
    ground (arith, up.removes_up, up.makes_directory_up, seed_up env up (no_rows {D = D}))
seed_main_up env up false db = ground (arith, up.makes_directory_up, seed_up env up db)

-- When SQLite and the file system accept the calls of both runs, a second run without --reset changes
-- nothing, whatever stood in the database before the first one, with --reset or without it.
pub seed_twice :
    {D : Type 0} (env env' : SeedEnv)
    → IsUp env
    → IsUp env'
    → (reset : Bool) (db : Db D)
    → let seeded = (seed_main env reset db).1 in seed_main env' false seeded ≡ (ok tt, seeded)
seed_twice env env' up up' reset db =
    let start = if reset then no_rows else db in
    ap (λ r. seed_main env' false r.1) (seed_main_up env up reset db)
    ∙ seed_main_up env' up' false (filled env start)
    ∙ ground (arith, filled-some env up start)
    ∙ ap (λ r. (ok tt, r.1)) (sym (seed_main_up env up reset db))
