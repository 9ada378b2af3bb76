-- ===== src/Handlers.antt =====
-- server/src/main.cpp: what the request handlers share. A handler reads the request, calls the two
-- services, and ends with data for a SUCCESS response, with an error code and a text, or with an
-- exception. `env n` is what the n-th call of a service finds in one request.
pub mod Account
pub mod Rooms
pub mod Exams
pub mod Practice
pub mod Rules
pub mod Access
pub mod Replies
pub mod Fields
use network_final_project.Base.{
  ℕ, zero, suc, ◌≡◌, String, Bool, true, false, not, Option, none, some, List, [], ◌∷◌, str_eq,
  if◌then◌else◌,
}
use network_final_project.Base.Int.{ℤ, pos, negsuc, is_positive}
use network_final_project.Base.Action.{Action, Result, ok, err}
use network_final_project.Codec.Json.{JsonApi}
use network_final_project.Codec.Message.{Message}
use network_final_project.Db.{Db, PaperQuestion}
use network_final_project.Db.Env.{Env}
use network_final_project.Auth.{SessionInfo, validate}

-- What the handlers call of nlohmann::json besides JsonApi. A `Result` is a call that may throw,
-- with the text of `what()`.
pub record JsonData (J D : Type 0) : Type 0 where
  -- `j.value(key, default)`, for an int, a text and a JSON value.
  pub value_int : J → String → ℤ → Result ℤ
  pub value_text : J → String → String → Result String
  pub value_json : J → String → J → Result J
  pub is_array : J → Bool
  pub is_number : J → Bool
  pub is_integer : J → Bool
  -- What a range-based `for` goes through, and `get` of an int and of a text.
  pub elements : J → List J
  pub get_int : J → Result ℤ
  pub get_text : J → Result String
  pub of_int : ℤ → J
  pub of_double : D → J
  pub of_list : List J → J
  -- `nlohmann::json::parse` of the text of an `options_json` column, which the seed data writes.
  pub of_column : String → J

-- How a handler ends, or a part of one.
pub data Flow (A : Type 0) : Type 0 where
  value : A → Flow A
  refused : String → String → Flow A
  thrown : String → Flow A

abbrev pub Handling : Type 0 → Type 0 → Type 0
Handling S A = S → Flow A × S

infixl 5 ◌>>=◌ ◌>>◌
unfoldable pub ◌>>=◌ : {S A B : Type 0} → Handling S A → (A → Handling S B) → Handling S B
◌>>=◌ m f s =
    let (r, s') = m s in
    elim r [
      | value a ↦ f a s'
      | refused code text ↦ (refused code text, s')
      | thrown text ↦ (thrown text, s')
    ]

abbrev pub ◌>>◌ : {S A B : Type 0} → Handling S A → Handling S B → Handling S B
m >> k = m >>= λ _. k

module _ {S : Type 0} where
  unfoldable pub pure : {A : Type 0} → A → Handling S A
  pure a s = (value a, s)

  -- `if (!x) { resp.error_code = code; resp.error_message = error; return resp; }`
  unfoldable pub call : {A : Type 0} → String → Action S A → Handling S A
  call code m s =
      let (r, s') = m s in elim r [ ok a ↦ (value a, s') | err error ↦ (refused code error, s') ]

  -- A call whose error is ignored: it leaves `a`.
  unfoldable pub call_or : {A : Type 0} → A → Action S A → Handling S A
  call_or a m s = let (r, s') = m s in elim r [ ok b ↦ (value b, s') | err error ↦ (value a, s') ]

  -- A read of the request's JSON.
  unfoldable pub read : {A : Type 0} → Result A → Handling S A
  read (ok a) s = (value a, s)
  read (err text) s = (thrown text, s)

  unfoldable pub look : {A : Type 0} → (S → A) → Handling S A
  look f s = (value (f s), s)

  -- `if (!b) { resp.error_code = code; resp.error_message = text; return resp; }`
  unfoldable pub require : Bool → String → String → Handling S (Unit {0})
  require true code text s = (value tt, s)
  require false code text s = (refused code text, s)

  -- `if (id <= 0) { resp.error_code = "INVALID_REQUEST"; … }`
  unfoldable pub positive : ℤ → String → Handling S ℕ
  positive (pos (suc n)) text s = (value (suc n), s)
  positive _ text s = (refused "INVALID_REQUEST" text, s)

-- What a handler puts into a SUCCESS response.
pub record Reply (J : Type 0) : Type 0 where
  pub session_id : String
  pub payload : J

-- The default -1 of an id.
abbrev pub minus_one : ℤ
minus_one = negsuc 0

module _ {J D : Type 0} (js : JsonApi J) (jd : JsonData J D) where
  abbrev pub put_all : J → List (String × J) → J
  put_all j [] = j
  put_all j ((key, v) ∷ rest) = put_all (js.put j key v) rest

  -- `{{"key", v}, …}`
  unfoldable pub fields : List (String × J) → J
  fields rows = put_all js.object rows

  abbrev pub of_id : ℕ → J
  of_id n = jd.of_int (pos n)

  abbrev pub replies : List (String × J) → Reply J
  replies rows = record { session_id = ""; payload = fields rows }

  -- The object of a question in a paper.
  unfoldable pub question_json : PaperQuestion → J
  question_json q = fields (
      ("question_id", of_id q.question_id)
      ∷ ("question_text", js.of_string q.question_text)
      ∷ ("options", jd.of_column q.options)
      ∷ ("topic", js.of_string q.topic)
      ∷ ("difficulty", js.of_string q.difficulty)
      ∷ [])

  -- `for (auto& a : …) { …; if (qid > 0 && !sel.empty()) answers.push_back({qid, sel}); }`
  abbrev pub keep : ℤ → String → List (ℕ × String) → List (ℕ × String)
  keep (pos (suc n)) selected rest = if str_eq selected "" then rest else (suc n, selected) ∷ rest
  keep _ selected rest = rest

  unfoldable pub read_answers : {S : Type 0} → List J → Handling S (List (ℕ × String))
  read_answers [] = pure []
  read_answers (a ∷ others) = do
    qid ← read (jd.value_int a "question_id" minus_one)
    selected ← read (jd.value_text a "selected_option" "")
    rest ← read_answers others
    pure (keep qid selected rest)

  unfoldable pub read_texts : {S : Type 0} → List J → Handling S (List String)
  read_texts [] = pure []
  read_texts (a ∷ others) = do
    first_text ← read (jd.get_text a)
    rest ← read_texts others
    pure (first_text ∷ rest)

-- `auto session = auth.validate(req.session_id, &error);`
abbrev pub authorised : {J D : Type 0} → (ℕ → Env) → Message J → Handling (Db D) SessionInfo
authorised env req = call "UNAUTHORIZED" (validate (env 0) req.session_id)
