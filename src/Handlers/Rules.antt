-- ===== src/Handlers/Rules.antt =====
-- server/src/main.cpp: what a part of a handler leaves behind, one rule for each kind of part. `P` is
-- any property of the store that holds before the part.
use network_final_project.Base.{
  ℕ, zero, suc, ◌≡◌, refl, ◌∙◌, sym, ap, ◌⊎◌, inl, inr, String, Bool, true, false, arith,
}
use network_final_project.Base.Int.{ℤ, pos, negsuc}
use network_final_project.Base.Action.{Action, Result, ok, err, Result-cases}
use mathlib.Core.Path.{subst}
use network_final_project.Handlers.{
  Flow, value, refused, thrown, Handling, ◌>>=◌, call, read, require, positive,
}

pub Flow-cases :
    {A : Type 0} (r : Flow A)
    → ((a : A) × (r ≡ value a))
      ⊎ (((code : String) × (text : String) × (r ≡ refused code text))
          ⊎ ((text : String) × (r ≡ thrown text)))
Flow-cases (value a) = inl (a, refl)
Flow-cases (refused code text) = inr (inl (code, text, refl))
Flow-cases (thrown text) = inr (inr (text, refl))

module _ {S : Type 0} (P : S → Type 0) {s : S} (before : P s) where
  pub after_read :
      {A B : Type 0} (r : Result A) (k : A → Handling S B)
      → ((a : A) → P (k a s).1)
      → P ((read r >>= k) s).1
  unfolding read ◌>>=◌
  after_read (ok a) k h = h a
  after_read (err e) k h = before

  pub after_require :
      {B : Type 0} (b : Bool) (code text : String) (k : Unit {0} → Handling S B)
      → (b ≡ true → P (k tt s).1)
      → P ((require b code text >>= k) s).1
  unfolding require ◌>>=◌
  after_require true code text k h = h refl
  after_require false code text k h = before

  pub after_positive :
      {B : Type 0} (z : ℤ) (text : String) (k : ℕ → Handling S B)
      → ((n : ℕ) → P (k n s).1)
      → P ((positive z text >>= k) s).1
  unfolding positive ◌>>=◌
  after_positive (pos zero) text k h = before
  after_positive (pos (suc n)) text k h = h (suc n)
  after_positive (negsuc n) text k h = before

  -- A part that changes nothing, such as a query.
  pub after_quiet :
      {A B : Type 0} (m : Handling S A) (k : A → Handling S B)
      → (m s).1 ≡ s
      → ((a : A) → (m s).0 ≡ value a → P (k a s).1)
      → P ((m >>= k) s).1
  unfolding ◌>>=◌
  after_quiet m k same h = elim (Flow-cases (m s).0) [
    | inl (a, e) ↦ subst P (ap (λ s'. (k a s').1) (sym same) ∙ ground arith) (h a e)
    | inr stopped ↦ subst P (ground arith) before
  ]

-- A call of a service, after which the handler only makes its reply.
pub after_call :
    {S A B : Type 0} (P : S → Type 0) {s : S} (code : String) (m : Action S A)
    (k : A → Handling S B)
    → P (m s).1
    → ((a : A) (s' : S) → (k a s').1 ≡ s')
    → P ((call code m >>= k) s).1
unfolding call ◌>>=◌
after_call P {s = s} code m k after h = elim (Result-cases (m s).0) [
  | inl (error, e) ↦ subst P (ground arith) after
  | inr (a, e) ↦ subst P (ground (arith, h a (m s).1)) after
]
