-- ===== src/Base/Rows.antt =====
-- Laws of the table operations of Base.Lists: what a lookup finds after an INSERT, an UPDATE or a
-- DELETE.
use mathlib.Core.Path.{◌≡◌, refl}
use mathlib.Core.Bool.{Bool, true, false}
use mathlib.Core.Option.{none, some}
use mathlib.Core.List.{List, [], ◌∷◌, ◌++◌}
use native.Mathlib.Omega.{arith}
use network_final_project.Base.Tests.{if◌then◌else◌}
use network_final_project.Base.Lists.{first, any, update, delete}

module _ {ℓ} {A : Type ℓ} where
  pub any-append :
      (p : A → Bool) (xs : List A) (x : A)
      → any p xs ≡ false
      → p x ≡ false
      → any p (xs ++ x ∷ []) ≡ false
  any-append p [] x a b = ground arith
  any-append p (y ∷ ys) x a b = ground (arith, any-append p ys x)

  pub first-append_new :
      (p : A → Bool) (xs : List A) (x : A)
      → any p xs ≡ false
      → p x ≡ true
      → first p (xs ++ x ∷ []) ≡ some x
  first-append_new p [] x a b = ground arith
  first-append_new p (y ∷ ys) x a b = ground (arith, first-append_new p ys x)

  pub first-append_some :
      (p : A → Bool) (xs ys : List A) (x : A) → first p xs ≡ some x → first p (xs ++ ys) ≡ some x
  first-append_some p [] ys x e = cc
  first-append_some p (y ∷ xs) ys x e = ground (arith, first-append_some p xs ys x)

  pub first_holds : (p : A → Bool) (xs : List A) (x : A) → first p xs ≡ some x → p x ≡ true
  first_holds p [] x e = cc
  first_holds p (y ∷ xs) x e = ground (arith, first_holds p xs x)

  pub any_of_first : (p : A → Bool) (xs : List A) (x : A) → first p xs ≡ some x → any p xs ≡ true
  any_of_first p [] x e = cc
  any_of_first p (y ∷ xs) x e = ground (arith, any_of_first p xs x)

  pub first_of_any-false : (p : A → Bool) (xs : List A) → any p xs ≡ false → first p xs ≡ none
  first_of_any-false p [] e = refl
  first_of_any-false p (y ∷ xs) e = ground (arith, first_of_any-false p xs)

  -- An UPDATE that keeps what is looked up by.
  pub first-update :
      (p q : A → Bool) (f : A → A) (xs : List A)
      → ((x : A) → p (f x) ≡ p x)
      → first p (update q f xs)
        ≡ (elim (first p xs) [ none ↦ none | some x ↦ some (if q x then f x else x) ])
  first-update p q f [] keep = refl
  first-update p q f (x ∷ xs) keep = ground (arith, keep x, first-update p q f xs keep)

  pub first-delete_self : (p : A → Bool) (xs : List A) → first p (delete p xs) ≡ none
  first-delete_self p [] = refl
  first-delete_self p (x ∷ xs) = ground (arith, first-delete_self p xs)

  -- A DELETE of other rows.
  pub first-delete_other :
      (p q : A → Bool) (xs : List A)
      → ((x : A) → p x ≡ true → q x ≡ false)
      → first p (delete q xs) ≡ first p xs
  first-delete_other p q [] apart = refl
  first-delete_other p q (x ∷ xs) apart = ground (arith, apart x, first-delete_other p q xs apart)
