-- ===== src/Handlers/Access.antt =====
-- server/src/main.cpp: what a handler that needs a session may change.
pub mod Rooms
pub mod Exams
pub mod Practice
use network_final_project.Base.{
  ℕ, zero, suc, ◌≡◌, refl, ◌∙◌, sym, ap, ◌⊎◌, inl, inr, String, Bool, true, false, List, [], ◌∷◌,
  Option, none, some, arith, ◌==◌, Bool-cases,
}
use network_final_project.Base.Int.{ℤ, pos, negsuc}
use network_final_project.Base.Action.{Action, Result, ok, err, Result-cases}
use mathlib.Core.Path.{subst}
use network_final_project.Handlers.Rules.{
  after_read, after_require, after_positive, after_quiet, after_call,
}
use network_final_project.Codec.Json.{JsonApi}
use network_final_project.Codec.Message.{Message}
use network_final_project.Db.{Db, Floats}
use network_final_project.Db.Env.{Env}
use network_final_project.Auth.{SessionInfo, validate}
use network_final_project.Room.Lifecycle.{exam_owned_by}
use network_final_project.Room.Calls.{
  Call, creates, joins, starts, deletes, finishes, takes_paper, saves, submits, practises,
  submits_practice, expires, step,
}
use network_final_project.Handlers.{
  JsonData, Flow, value, refused, thrown, Handling, ◌>>=◌, ◌>>◌, pure, call, call_or, read, look,
  require, positive, Reply, authorised,
}

module _ {D : Type 0} where
  -- Whose call it is. The answers of an exam are its owner's.
  abbrev pub permits : Env → ℕ → Db D → Call → Bool
  permits env uid db (creates u name description pass settings) = u == uid
  permits env uid db (joins rid u pass) = u == uid
  permits env uid db (starts rid u) = u == uid
  permits env uid db (deletes rid u) = u == uid
  permits env uid db (finishes rid u) = u == uid
  permits env uid db (takes_paper rid u) = u == uid
  permits env uid db (saves eid answers) = exam_owned_by env eid uid db
  permits env uid db (submits eid answers) = exam_owned_by env eid uid db
  permits env uid db (practises u count duration difficulties topics) = u == uid
  permits env uid db (submits_practice pid u answers) = u == uid
  permits env uid db expires = false

-- The database stays as it is, or takes one step that the user may make.
pub data Acts {D : Type 0} (fl : Floats D) (env : ℕ → Env) (uid : ℕ) (db db' : Db D) : Type 0 where
  stays : db' ≡ db → Acts fl env uid db db'
  calls :
      (c : Call) (n : ℕ)
      → permits (env 1) uid db c ≡ true
      → db' ≡ step fl (env n) c db
      → Acts fl env uid db db'

-- The rules of Handlers/Rules for what a user may do.
module _ {D : Type 0} {fl : Floats D} {env : ℕ → Env} {uid : ℕ} {db : Db D} where
  pub Acts-pure : {A : Type 0} (a : A) → Acts fl env uid db (pure a db).1
  unfolding pure
  Acts-pure a = stays refl

  pub Acts-read :
      {A B : Type 0} (r : Result A) (k : A → Handling (Db D) B)
      → ((a : A) → Acts fl env uid db (k a db).1)
      → Acts fl env uid db ((read r >>= k) db).1
  Acts-read = after_read (Acts fl env uid db) (stays refl)

  pub Acts-require :
      {B : Type 0} (b : Bool) (code text : String) (k : Unit {0} → Handling (Db D) B)
      → (b ≡ true → Acts fl env uid db (k tt db).1)
      → Acts fl env uid db ((require b code text >>= k) db).1
  Acts-require = after_require (Acts fl env uid db) (stays refl)

  pub Acts-positive :
      {B : Type 0} (z : ℤ) (text : String) (k : ℕ → Handling (Db D) B)
      → ((n : ℕ) → Acts fl env uid db (k n db).1)
      → Acts fl env uid db ((positive z text >>= k) db).1
  Acts-positive = after_positive (Acts fl env uid db) (stays refl)

  pub Acts-quiet :
      {A B : Type 0} (m : Handling (Db D) A) (k : A → Handling (Db D) B)
      → (m db).1 ≡ db
      → ((a : A) → (m db).0 ≡ value a → Acts fl env uid db (k a db).1)
      → Acts fl env uid db ((m >>= k) db).1
  Acts-quiet = after_quiet (Acts fl env uid db) (stays refl)

  pub Acts-call :
      {A B : Type 0} (code : String) (m : Action (Db D) A) (k : A → Handling (Db D) B) (c : Call)
      (n : ℕ)
      → permits (env 1) uid db c ≡ true
      → (m db).1 ≡ step fl (env n) c db
      → ((a : A) (db' : Db D) → (k a db').1 ≡ db')
      → Acts fl env uid db ((call code m >>= k) db).1
  Acts-call code m k c n permitted stepped =
      after_call (Acts fl env uid db) code m k (calls c n permitted stepped)

-- What follows a call and only makes the reply.
pub pure-same : {S A : Type 0} (a : A) (s : S) → (pure a s).1 ≡ s
unfolding pure
pure-same a s = refl

-- A session that is refused ends the request; one that is accepted acts for its user.
pub data Verdict {D A : Type 0} (fl : Floats D) (env : ℕ → Env) (token : String) (db : Db D)
    (outcome : Flow A × Db D) : Type 0 where
  rejects :
      (e : String)
      → (validate (env 0) token db).0 ≡ err e
      → outcome ≡ (refused "UNAUTHORIZED" e, (validate (env 0) token db).1)
      → Verdict fl env token db outcome
  admits :
      (s : SessionInfo)
      → (validate (env 0) token db).0 ≡ ok s
      → Acts fl env s.user_id (validate (env 0) token db).1 outcome.1
      → Verdict fl env token db outcome

pub authorised-Verdict :
    {J D A : Type 0} {fl : Floats D} (env : ℕ → Env) (req : Message J) (db : Db D)
    (rest : SessionInfo → Handling (Db D) A)
    → ((s : SessionInfo) (db' : Db D) → Acts fl env s.user_id db' (rest s db').1)
    → Verdict fl env req.session_id db ((authorised env req >>= rest) db)
unfolding call ◌>>=◌
authorised-Verdict env req db rest h = elim (Result-cases (validate (env 0) req.session_id db).0) [
  | inl (e, refusal) ↦ rejects e refusal (ground arith)
  | inr (s, accepted) ↦ admits s accepted (
      subst (Acts _ env s.user_id (validate (env 0) req.session_id db).1) (ground arith)
        (h s (validate (env 0) req.session_id db).1))
]
