-- ===== src/Auth/Accounts.antt =====
-- server/src/auth.cpp: the table `users`, and the login to an account that was registered.
use network_final_project.Base.{
  ℕ, suc, ◌≤◌, ◌<◌, ◌≡◌, refl, String, true, false, some, List, [], ◌∷◌, ◌++◌, ap, arith, first,
  any, c_str, eq_iff, eq_refl,
}
use network_final_project.Base.Rows.{any-append, first-append_new}
use network_final_project.Base.Action.{ok, err}
use network_final_project.Crypto.{quiz_salt, verify_password, hash_password}
use network_final_project.Db.{Db, UserRow}
use network_final_project.Db.Env.{IsUp, Env, select_user, insert_session}
use network_final_project.Auth.{
  has_username, has_id, has_token, register_user, login, random_token, add_u64,
}

-- Ids are below the next key, and no two rows share an id or a username.
abbrev pub IsKeyed : ℕ → List UserRow → Type 0
IsKeyed n [] = Unit
IsKeyed n (u ∷ us) =
    (u.id < n)
    × (any (has_id u.id) us ≡ false)
    × (any (has_username u.username) us ≡ false)
    × IsKeyed n us

abbrev pub IsValid : {D : Type 0} → Db D → Type 0
IsValid db = IsKeyed db.next_user db.users

any_id_above : (n k : ℕ) (us : List UserRow) → IsKeyed n us → n ≤ k → any (has_id k) us ≡ false
any_id_above n k [] v h = refl
any_id_above n k (u ∷ us) v h = ground (arith, any_id_above n k us v.3)

IsKeyed-append :
    (n : ℕ) (us : List UserRow) (u : UserRow)
    → IsKeyed n us
    → u.id ≡ n
    → any (has_username u.username) us ≡ false
    → IsKeyed (suc n) (us ++ u ∷ [])
IsKeyed-append n [] u v e h = (omega arith, refl, refl, tt)
IsKeyed-append n (x ∷ us) u v e h = ground (
  arith,
  any-append (has_id x.id) us u,
  any-append (has_username x.username) us u,
  eq_iff u.username x.username,
  eq_iff x.username u.username,
  IsKeyed-append n us u v.3 e,
)

-- Where ids are below the next key and no two accounts share an id or a username, the same holds
-- after a call of register_user, refused or not.
pub register_user-IsValid :
    {D : Type 0} (env : Env) (username password full_name email role : String) (db : Db D)
    → IsValid db
    → IsValid (register_user env username password full_name email role db).1
unfolding register_user
register_user-IsValid env username password full_name email role db v = ground (
  arith,
  IsKeyed-append db.next_user db.users
      (record {
        id = db.next_user;
        username = c_str username;
        pass_hash = hash_password env.hash password quiz_salt;
        role = c_str role;
        full_name = c_str full_name;
        email = c_str email;
        created_at = env.clock 0;
      })
      v refl,
)

pub first_id_of_username :
    (name : String) (n : ℕ) (us : List UserRow) (u : UserRow)
    → IsKeyed n us
    → first (has_username name) us ≡ some u
    → (first (has_id u.id) us ≡ some u) × (any (has_id u.id) us ≡ true)
first_id_of_username name n [] u v e = cc
first_id_of_username name n (x ∷ us) u v e = ground (arith, first_id_of_username name n us u v.3)

-- A registration that fails leaves the database as it was.
pub register_user_atomic :
    {D : Type 0} (env : Env) (username password full_name email role error : String) (db db' : Db D)
    → register_user env username password full_name email role db ≡ (err error, db')
    → db' ≡ db
unfolding register_user
register_user_atomic env username password full_name email role error db db' h = ground arith

abbrev new_user : Env → ℕ → String → String → String → String → String → UserRow
new_user env uid username password full_name email role = record {
  id = uid;
  username = c_str username;
  pass_hash = hash_password env.hash password quiz_salt;
  role = c_str role;
  full_name = c_str full_name;
  email = c_str email;
  created_at = env.clock 0;
}

register_user-eq-ok :
    {D : Type 0} (env : Env) (username password full_name email role : String) (uid : ℕ)
    (db db' : Db D)
    → register_user env username password full_name email role db ≡ (ok uid, db')
    → (any (has_username (c_str username)) db.users ≡ false)
      × (db'.users ≡ db.users ++ new_user env uid username password full_name email role ∷ [])
      × (db'.sessions ≡ db.sessions)
unfolding register_user
register_user-eq-ok env username password full_name email role uid db db' h = ground arith

-- Whoever was registered can log in with the same password, under the id that was returned, as
-- long as the new token is not in use and SQLite accepts the calls. The role is the one that was
-- given, up to its first NUL.
pub login-register_user :
    {D : Type 0} (env env' : Env) (username password full_name email role : String) (ttl uid : ℕ)
    (db db' : Db D)
    → register_user env username password full_name email role db ≡ (ok uid, db')
    → IsUp env'
    → env'.hash ≡ env.hash
    → any (has_token (random_token env')) db.sessions ≡ false
    → (login env' username password ttl db').0
      ≡ ok (record {
        user_id = uid;
        username = username;
        role = c_str role;
        token = random_token env';
        expires_at = add_u64 (env'.clock 0) ttl;
      })
unfolding register_user login verify_password
login-register_user env env' username password full_name email role ttl uid db db' h up same free =
    let row = new_user env uid username password full_name email role in
    let (fresh, users, sessions) =
      register_user-eq-ok env username password full_name email role uid db db' h in
    ground (
      arith,
      up.prepared select_user,
      up.prepared insert_session,
      up.stepped insert_session 0,
      fresh,
      users,
      sessions,
      first-append_new (has_username (c_str username)) db.users row fresh
          (eq_refl (c_str username)),
      eq_refl (hash_password env'.hash password quiz_salt),
      ap (λ (h : String → ℕ). hash_password h password quiz_salt) same,
    )
