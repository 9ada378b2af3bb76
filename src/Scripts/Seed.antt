-- ===== src/Scripts/Seed.antt =====
-- scripts/seed.cpp: a run of the program on a database. What SQLite and the file system answer is a
-- parameter, where `none` is a success and `some e` a failure with the text e.
pub mod Questions
pub mod Rows
pub mod Again
pub mod Accounts
pub mod Papers
use Prim.Native.String.{◌++◌ as ◌joined◌}
use network_final_project.Base.{
  ℕ, zero, suc, ◌==◌, String, Bool, true, false, not, ◌&&◌, ◌||◌, Option, none, some, List, [], ◌∷◌,
  ◌++◌, str_eq, if◌then◌else◌, any, length,
}
use network_final_project.Base.Action.{Action, ok, err, pure, ◌>>=◌, ◌>>◌, modify}
use network_final_project.Crypto.{hash_password, quiz_salt}
use network_final_project.Db.{Db, UserRow, QuestionRow}
use network_final_project.Db.Env.{or_errmsg}
use network_final_project.Auth.{has_username, is_role}
use network_final_project.Scripts.Seed.Questions.{SeedQuestion, bank}

pub record UserSeed : Type 0 where
  pub username : String
  pub pass_hash : String
  pub role : String
  pub full_name : String
  pub email : String

-- What a run gets from outside.
pub record SeedEnv : Type 0 where
  pub removes : Option String
  pub makes_directory : Option String
  pub opens : Option String
  pub reads_schema : Option String
  pub schema : Option String
  pub begin_immediate : Option String
  pub prepare_users : Option String
  pub prepare_questions : Option String
  pub commit : Option String
  -- Whether SQLite can count a table, and whether it takes the n-th INSERT if no constraint
  -- forbids it.
  pub counts_users : Bool
  pub counts_questions : Bool
  pub steps_user : ℕ → Bool
  pub steps_question : ℕ → Bool
  -- `strftime('%s','now')`, `std::hash`, and `dump` of an object of texts.
  pub now : ℕ
  pub hash : String → ℕ
  pub options_text : List (String × String) → String

-- `check_sql(rc, db, ctx)`, and the other calls whose failure is thrown.
abbrev pub check_sql : {S : Type 0} → Option String → String → Action S (Unit {0})
check_sql none ctx s = (ok tt, s)
check_sql (some e) ctx s = (err (ctx joined ": " joined e), s)

abbrev pub is_difficulty : String → Bool
is_difficulty d = str_eq d "EASY" || (str_eq d "MEDIUM" || str_eq d "HARD")

module _ (env : SeedEnv) where
  -- The elements of the vector `users` of main.
  unfoldable pub teacher : UserSeed
  teacher = record {
    username = "teacher";
    pass_hash = hash_password env.hash "teacher123" quiz_salt;
    role = "ADMIN";
    full_name = "Teacher Account";
    email = "teacher@example.com";
  }

  unfoldable pub student1 : UserSeed
  student1 = record {
    username = "student1";
    pass_hash = hash_password env.hash "student123" quiz_salt;
    role = "STUDENT";
    full_name = "Student One";
    email = "s1@example.com";
  }

  unfoldable pub student2 : UserSeed
  student2 = record {
    username = "student2";
    pass_hash = hash_password env.hash "student123" quiz_salt;
    role = "STUDENT";
    full_name = "Student Two";
    email = "s2@example.com";
  }

  unfoldable pub users : List UserSeed
  users = teacher ∷ student1 ∷ student2 ∷ []

-- The tables of a file that did not exist.
abbrev pub no_rows : {D : Type 0} → Db D
no_rows = record {
  users = [];
  next_user = 1;
  sessions = [];
  questions = [];
  rooms = [];
  next_room = 1;
  participants = [];
  exams = [];
  next_exam = 1;
  answers = [];
  exam_questions = [];
  practice_runs = [];
  next_practice = 1;
}

-- `count_table(db, …).value_or(-1) == 0`
abbrev pub is_counted_empty : {A : Type 0} → Bool → List A → Bool
is_counted_empty counts rows = counts && length rows == 0

module _ {D : Type 0} (env : SeedEnv) where
  -- `INSERT OR IGNORE`, whose verdict the source ignores.
  unfoldable pub insert_or_ignore : ℕ → UserSeed → Db D → Db D
  insert_or_ignore n u db =
      if (env.steps_user n && is_role u.role) && not (any (has_username u.username) db.users)
      then record db {
        users =
            db.users
            ++ record {
              id = db.next_user;
              username = u.username;
              pass_hash = u.pass_hash;
              role = u.role;
              full_name = u.full_name;
              email = u.email;
              created_at = env.now;
            }
              ∷ [];
        next_user = suc db.next_user;
      }
      else db

  unfoldable pub insert_users : ℕ → List UserSeed → Db D → Db D
  insert_users n [] db = db
  insert_users n (u ∷ others) db = insert_users (suc n) others (insert_or_ignore n u db)

  unfoldable pub seed_users : List UserSeed → Action (Db D) (Unit {0})
  seed_users us = do check_sql env.prepare_users "prepare users"; modify (insert_users 0 us)

  -- A question that SQLite does not take is skipped. No statement of the program deletes a question, so
  -- that the next key is one above the number of the rows.
  unfoldable pub insert_question : ℕ → SeedQuestion → Db D → Db D
  insert_question n q db =
      if env.steps_question n && is_difficulty q.difficulty
      then record db {
        questions =
            db.questions
            ++ record {
              id = suc (length db.questions);
              text = q.text;
              options_json = env.options_text q.options;
              correct_option = q.correct;
              difficulty = q.difficulty;
              topic = q.topic;
            }
              ∷ [];
      }
      else db

  unfoldable pub insert_questions : ℕ → List SeedQuestion → Db D → Db D
  insert_questions n [] db = db
  insert_questions n (q ∷ others) db = insert_questions (suc n) others (insert_question n q db)

  unfoldable pub seed_questions : List SeedQuestion → Action (Db D) (Unit {0})
  seed_questions qs = do
    check_sql env.prepare_questions "prepare questions"
    modify (insert_questions 0 qs)

  -- What stands between BEGIN and COMMIT.
  unfoldable pub fill : Action (Db D) (Unit {0})
  fill db =
      let no_users = is_counted_empty env.counts_users db.users in
      let no_questions = is_counted_empty env.counts_questions db.questions in
      ((if no_users then seed_users (users env) else pure tt)
          >> (if no_questions then seed_questions bank else pure tt))
        db

  -- What is not committed is lost: an exception ends the program.
  unfoldable pub transaction : Action (Db D) (Unit {0}) → Action (Db D) (Unit {0})
  transaction body db =
      let (r, db') =
        (check_sql env.begin_immediate "begin tx" >> body >> check_sql env.commit "commit tx") db in
      elim r [ ok a ↦ (ok a, db') | err e ↦ (err e, db) ]

  -- main after the schema is there: no statement of it changes a table that exists.
  unfoldable pub seed : Action (Db D) (Unit {0})
  seed = do
    check_sql env.opens "Cannot open db"
    check_sql env.reads_schema "Cannot open schema file"
    check_sql env.schema "Schema exec failed"
    transaction fill

  -- The run with `--reset` or without it, when the file is there.
  unfoldable pub seed_main : Bool → Action (Db D) (Unit {0})
  seed_main reset = do
    (if reset then or_errmsg env.removes >> modify (λ db. no_rows) else pure tt)
    or_errmsg env.makes_directory
    seed
