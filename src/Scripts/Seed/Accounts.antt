-- ===== src/Scripts/Seed/Accounts.antt =====
-- scripts/seed.cpp and server/src/auth.cpp: logins to the accounts that a run makes.
use network_final_project.Base.{
  ℕ, suc, ◌≡◌, refl, ◌∙◌, ap, sym, some, first, String, false, List, [], ◌∷◌, arith, any, eq_refl,
  c_str,
}
use network_final_project.Base.Action.{ok}
use network_final_project.Crypto.{hash_password, verify_password, quiz_salt}
use network_final_project.Db.{Db, UserRow}
use network_final_project.Db.Env.{Env, IsUp as ServerIsUp, select_user, insert_session}
use network_final_project.Auth.{SessionInfo, has_token, has_username, login, random_token, add_u64}
use network_final_project.Scripts.Seed.Questions.{SeedQuestion, bank}
use network_final_project.Scripts.Seed.{
  SeedEnv, teacher, student1, student2, insert_question, insert_questions, seed,
}
use network_final_project.Scripts.Seed.Rows.{IsUp, insert_users_lem, user_row}
use network_final_project.Scripts.Seed.Again.{filled, with_users, seed_up, insert_questions-users}

-- The session of a login to the account with this id, name and role.
abbrev pub session_of : Env → ℕ → ℕ → String → String → SessionInfo
session_of env ttl uid username role = record {
  user_id = uid;
  username = username;
  role = role;
  token = random_token env;
  expires_at = add_u64 (env.clock 0) ttl;
}

login_of_row :
    {D : Type 0} (env : Env)
    → ServerIsUp env
    → (username password : String) (ttl : ℕ) (u : UserRow) (db : Db D)
    → any (has_token (random_token env)) db.sessions ≡ false
    → first (has_username (c_str username)) db.users ≡ some u
    → u.pass_hash ≡ hash_password env.hash password quiz_salt
    → (login env username password ttl db).0 ≡ ok (session_of env ttl u.id username u.role)
unfolding login verify_password
login_of_row env up username password ttl u db free found stored = ground (
  arith,
  up.opened_up,
  up.prepared select_user,
  up.prepared insert_session,
  up.stepped insert_session 0,
  eq_refl (hash_password env.hash password quiz_salt),
)

hash_same :
    (env : SeedEnv) (env' : Env) (password : String)
    → env'.hash ≡ env.hash
    → hash_password env.hash password quiz_salt ≡ hash_password env'.hash password quiz_salt
hash_same env env' password same =
    ap (λ (h : String → ℕ). hash_password h password quiz_salt) (sym same)

module _ {D : Type 0} (env : SeedEnv) where
  insert_questions-sessions :
      (n : ℕ) (qs : List SeedQuestion) (db : Db D)
      → (insert_questions env n qs db).sessions ≡ db.sessions
  unfolding insert_questions insert_question
  insert_questions-sessions n [] db = refl
  insert_questions-sessions n (q ∷ qs) db =
      insert_questions-sessions (suc n) qs (insert_question env n q db) ∙ ground arith

  filled-users :
      IsUp env
      → (db : Db D) → db.users ≡ []
      → ((filled env db).users
          ≡ user_row env db.next_user (teacher env)
            ∷ user_row env (suc db.next_user) (student1 env)
            ∷ user_row env (suc (suc db.next_user)) (student2 env)
            ∷ [])
        × ((filled env db).sessions ≡ db.sessions)
  filled-users up db none_yet =
      let made = insert_users_lem env up db none_yet in
      (
        ground (arith, none_yet, made, insert_questions-users env 0 bank (with_users env db)),
        ground (arith, none_yet, made, insert_questions-sessions 0 bank (with_users env db)),
      )

  -- When SQLite and the file system accept the calls and no token is drawn twice: after a run on a
  -- database without accounts, the teacher can log in with the documented password as an ADMIN and
  -- both students with theirs as STUDENTs, under three ids in a row.
  pub login-seed :
      IsUp env
      → (env' : Env) → ServerIsUp env'
      → env'.hash ≡ env.hash
      → (ttl : ℕ) (db : Db D) → db.users ≡ []
      → any (has_token (random_token env')) db.sessions ≡ false
      → let seeded = (seed env db).1 in
        let k = db.next_user in
        ((login env' "teacher" "teacher123" ttl seeded).0
          ≡ ok (session_of env' ttl k "teacher" "ADMIN"))
        × ((login env' "student1" "student123" ttl seeded).0
            ≡ ok (session_of env' ttl (suc k) "student1" "STUDENT"))
        × ((login env' "student2" "student123" ttl seeded).0
            ≡ ok (session_of env' ttl (suc (suc k)) "student2" "STUDENT"))
  unfolding teacher student1 student2
  login-seed up env' up' same ttl db none_yet fresh =
      let (made, sessions) = filled-users up db none_yet in
      let after = (seed env db).1 in
      let done : after ≡ filled env db = ap (λ r. r.1) (seed_up env up db) in
      let free : any (has_token (random_token env')) after.sessions ≡ false =
        ground (arith, done, sessions, fresh) in
      let k = db.next_user in
      (
        login_of_row env' up' "teacher" "teacher123" ttl (user_row env k (teacher env)) after free
            (ground (arith, done, made)) (hash_same env env' "teacher123" same),
        login_of_row env' up' "student1" "student123" ttl (user_row env (suc k) (student1 env))
            after free (ground (arith, done, made)) (hash_same env env' "student123" same),
        login_of_row env' up' "student2" "student123" ttl
            (user_row env (suc (suc k)) (student2 env)) after free (ground (arith, done, made))
            (hash_same env env' "student123" same),
      )
