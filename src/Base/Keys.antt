-- ===== src/Base/Keys.antt =====
-- A table with a key: the one row that has it.
use Prim.Native.Nat.{◌≤◌}
use mathlib.Core.Path.{◌≡◌, refl}
use mathlib.Core.Logic.{inl, inr}
use mathlib.Core.Bool.{Bool, true, false}
use mathlib.Core.Option.{some}
use mathlib.Core.List.{List, [], ◌∷◌}
use native.Mathlib.Omega.{arith}
use authorization_document.Base.Tests.{Bool-cases}
use authorization_document.Base.Lists.{find, count, update_where}
use authorization_document.Base.Queries.{count_le, count_found}

module _ {ℓ} {A : Type ℓ} (p r : A → Bool) (sub : (x : A) → r x ≡ true → p x ≡ true) where
  -- A filter that passes one row passes the row with the key.
  pub found_passes :
      (xs : List A) {x : A} → find p xs ≡ some x → count p xs ≤ 1 → 1 ≤ count r xs → r x ≡ true
  unfolding find count
  found_passes [] h u c = ground arith
  found_passes (y ∷ xs) {x} h u c = elim (Bool-cases (p y)) [
    | inl e ↦ ground (arith, count_le r p sub xs)
    | inr e ↦ ground (arith, sub y, found_passes xs {x = x})
  ]

  -- A filter that does not pass the row with the key passes none.
  pub found_fails :
      (xs : List A) {x : A} → find p xs ≡ some x → count p xs ≤ 1 → r x ≡ false → count r xs ≡ 0
  unfolding find count
  found_fails [] h u f = ground arith
  found_fails (y ∷ xs) {x} h u f = elim (Bool-cases (p y)) [
    | inl e ↦ ground (arith, count_le r p sub xs)
    | inr e ↦ ground (arith, sub y, found_fails xs {x = x})
  ]

  -- A filter that passes the row with the key passes that row alone.
  pub found_counts :
      (xs : List A) {x : A} → find p xs ≡ some x → count p xs ≤ 1 → r x ≡ true → count r xs ≡ 1
  found_counts xs {x} h u t = omega (arith, count_le r p sub xs, count_found p r xs {x = x} h t, u)

module _ {ℓ} {A : Type ℓ} where
  -- A row that some query finds is found by its key.
  pub find_key :
      (p r : A → Bool) (xs : List A) {x : A}
      → find p xs ≡ some x
      → r x ≡ true
      → count r xs ≤ 1
      → find r xs ≡ some x
  unfolding find count
  find_key p r [] h t u = ground arith
  find_key p r (y ∷ xs) {x} h t u = elim (Bool-cases (p y)) [
    | inl e ↦ ground arith
    | inr e ↦ ground (arith, count_found p r xs {x = x}, find_key p r xs {x = x})
  ]

  pub count-update_where :
      (p q : A → Bool) (f : A → A)
      → ((x : A) → p (f x) ≡ p x)
      → (xs : List A) → count p (update_where q f xs) ≡ count p xs
  unfolding count update_where
  count-update_where p q f keep [] = refl
  count-update_where p q f keep (x ∷ xs) = ground (arith, keep x, count-update_where p q f keep xs)
