-- ===== src/Scripts/Seed/Rows.antt =====
-- scripts/seed.cpp: the rows that its INSERT statements leave.
use network_final_project.Base.{
  ℕ, suc, ◌≡◌, refl, sym, ap, Bool, true, false, none, List, [], ◌∷◌, ◌++◌, ◌&&◌, any, arith,
  length, length-append,
}
use mathlib.Core.List.{append-nil, append_assoc}
use network_final_project.Db.{Db, UserRow, QuestionRow}
use network_final_project.Auth.{has_username, is_role}
use network_final_project.Scripts.Seed.Questions.{SeedQuestion, bank}
use network_final_project.Scripts.Seed.{
  UserSeed, SeedEnv, teacher, student1, student2, users, is_difficulty, insert_or_ignore,
  insert_users, insert_question, insert_questions,
}

-- SQLite and the file system accept every call.
pub record IsUp (env : SeedEnv) : Type 0 where
  pub removes_up : env.removes ≡ none
  pub makes_directory_up : env.makes_directory ≡ none
  pub opens_up : env.opens ≡ none
  pub reads_schema_up : env.reads_schema ≡ none
  pub schema_up : env.schema ≡ none
  pub begin_immediate_up : env.begin_immediate ≡ none
  pub prepare_users_up : env.prepare_users ≡ none
  pub prepare_questions_up : env.prepare_questions ≡ none
  pub commit_up : env.commit ≡ none
  pub counts_users_up : env.counts_users ≡ true
  pub counts_questions_up : env.counts_questions ≡ true
  pub steps_user_up : (n : ℕ) → env.steps_user n ≡ true
  pub steps_question_up : (n : ℕ) → env.steps_question n ≡ true

abbrev pub are_difficulties : List SeedQuestion → Bool
are_difficulties [] = true
are_difficulties (q ∷ qs) = is_difficulty q.difficulty && are_difficulties qs

pub length-bank : length bank ≡ 55
unfolding bank
length-bank = refl

pub bank-are_difficulties : are_difficulties bank ≡ true
unfolding bank
bank-are_difficulties = refl

module _ (env : SeedEnv) where
  -- The account of a seed.
  abbrev pub user_row : ℕ → UserSeed → UserRow
  user_row uid u = record {
    id = uid;
    username = u.username;
    pass_hash = u.pass_hash;
    role = u.role;
    full_name = u.full_name;
    email = u.email;
    created_at = env.now;
  }

  abbrev pub question_row : ℕ → SeedQuestion → QuestionRow
  question_row qid q = record {
    id = qid;
    text = q.text;
    options_json = env.options_text q.options;
    correct_option = q.correct;
    difficulty = q.difficulty;
    topic = q.topic;
  }

  -- The rows of these questions after so many others.
  abbrev pub question_rows : ℕ → List SeedQuestion → List QuestionRow
  question_rows k [] = []
  question_rows k (q ∷ qs) = question_row (suc k) q ∷ question_rows (suc k) qs

module _ {D : Type 0} (env : SeedEnv) (up : IsUp env) where
  abbrev with_user : Db D → UserSeed → Db D
  with_user db u = record db {
    users = db.users ++ user_row env db.next_user u ∷ [];
    next_user = suc db.next_user;
  }

  insert_or_ignore_new :
      (n : ℕ) (u : UserSeed) (db : Db D)
      → is_role u.role ≡ true
      → any (has_username u.username) db.users ≡ false
      → insert_or_ignore env n u db ≡ with_user db u
  unfolding insert_or_ignore
  insert_or_ignore_new n u db role new = ground (arith, up.steps_user_up n)

  pub insert_users_lem :
      (db : Db D)
      → db.users ≡ []
      → insert_users env 0 (users env) db
        ≡ with_user (with_user (with_user db (teacher env)) (student1 env)) (student2 env)
  unfolding insert_users users teacher student1 student2
  insert_users_lem db none_yet =
      let db1 = with_user db (teacher env) in
      let db2 = with_user db1 (student1 env) in
      ground (
        arith,
        insert_or_ignore_new 0 (teacher env) db refl (ap (any (has_username "teacher")) none_yet),
        insert_or_ignore_new 1 (student1 env) db1 refl (ground (arith, none_yet)),
        insert_or_ignore_new 2 (student2 env) db2 refl (ground (arith, none_yet)),
      )

  insert_question_good :
      (n : ℕ) (q : SeedQuestion) (db : Db D)
      → is_difficulty q.difficulty ≡ true
      → insert_question env n q db ≡ record db {
        questions = db.questions ++ question_row env (suc (length db.questions)) q ∷ [];
      }
  unfolding insert_question
  insert_question_good n q db good = ground (arith, up.steps_question_up n)

  pub insert_questions-question_rows :
      (n : ℕ) (qs : List SeedQuestion) (db : Db D)
      → are_difficulties qs ≡ true
      → (insert_questions env n qs db).questions
        ≡ db.questions ++ question_rows env (length db.questions) qs
  unfolding insert_questions
  insert_questions-question_rows n [] db good = sym (append-nil db.questions)
  insert_questions-question_rows n (q ∷ qs) db good =
      let row = question_row env (suc (length db.questions)) q in
      let db' = record db { questions = db.questions ++ row ∷ [] } in
      ground (
        arith,
        insert_question_good n q db,
        insert_questions-question_rows (suc n) qs db',
        length-append db.questions (row ∷ []),
        append_assoc db.questions (row ∷ []) (question_rows env (suc (length db.questions)) qs),
      )

pub length-question_rows :
    (env : SeedEnv) (k : ℕ) (qs : List SeedQuestion) → length (question_rows env k qs) ≡ length qs
length-question_rows env k [] = refl
length-question_rows env k (q ∷ qs) = ap suc (length-question_rows env (suc k) qs)
