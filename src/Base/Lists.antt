-- ===== src/Base/Lists.antt =====
-- A table as the list of its rows: the queries that the code sends to it.
use Prim.Native.Nat.{ℕ, suc, ◌+◌}
use mathlib.Core.Path.{◌≡◌, refl, subst}
use mathlib.Core.Logic.{inl, inr}
use mathlib.Core.Bool.{Bool, true, false, ◌||◌}
use mathlib.Core.Option.{Option, none, some}
use mathlib.Core.List.{List, [], ◌∷◌}
use native.Mathlib.Omega.{arith}
use authorization_document.Base.Tests.{ltb, if◌then◌else◌, Bool-cases}

module _ {ℓ} {A : Type ℓ} where
  abbrev pub length : List A → ℕ
  length [] = 0
  length (x ∷ xs) = suc (length xs)

  -- `findFirst`, `findUnique`: the first row that the filter accepts.
  unfoldable pub find : (A → Bool) → List A → Option A
  find p [] = none
  find p (x ∷ xs) = if p x then some x else find p xs

  -- `count`, and the `count` that an `updateMany` reports.
  unfoldable pub count : (A → Bool) → List A → ℕ
  count p [] = 0
  count p (x ∷ xs) = if p x then suc (count p xs) else count p xs

  -- `updateMany`: every row that the filter accepts is changed.
  unfoldable pub update_where : (A → Bool) → (A → A) → List A → List A
  update_where p f [] = []
  update_where p f (x ∷ xs) = (if p x then f x else x) ∷ update_where p f xs

  -- `findFirst` with `orderBy: { version: 'desc' }`: a row with the greatest number.
  abbrev later : (A → ℕ) → A → Option A → A
  later number x none = x
  later number x (some y) = if ltb (number x) (number y) then y else x

  unfoldable pub find_latest : (A → ℕ) → (A → Bool) → List A → Option A
  find_latest number p [] = none
  find_latest number p (x ∷ xs) =
      if p x then some (later number x (find_latest number p xs)) else find_latest number p xs

  unfoldable pub any : (A → Bool) → List A → Bool
  any p [] = false
  any p (x ∷ xs) = p x || any p xs

  unfoldable pub filter : (A → Bool) → List A → List A
  filter p [] = []
  filter p (x ∷ xs) = if p x then x ∷ filter p xs else filter p xs

  abbrev pub All {κ} : (A → Type κ) → List A → Type κ
  All P [] = Unit
  All P (x ∷ xs) = P x × All P xs

  -- The greatest number of a row that the filter accepts, `_max`, with `?? 0`.
  unfoldable pub greatest : (A → ℕ) → (A → Bool) → List A → ℕ
  greatest number p [] = 0
  greatest number p (x ∷ xs) =
      let rest = greatest number p xs in
      if p x then (if ltb rest (number x) then number x else rest) else rest

  unfoldable pub sum_of : (A → ℕ) → (A → Bool) → List A → ℕ
  sum_of size p [] = 0
  sum_of size p (x ∷ xs) = (if p x then size x else 0) + sum_of size p xs

module _ {ℓ} {A : Type ℓ} where
  pub find_sound : (p : A → Bool) (xs : List A) {x : A} → find p xs ≡ some x → p x ≡ true
  unfolding find
  find_sound p [] h = ground arith
  find_sound p (y ∷ xs) {x} h = ground (arith, find_sound p xs {x = x})

  pub find-none-count : (p : A → Bool) (xs : List A) → find p xs ≡ none → count p xs ≡ 0
  unfolding find count
  find-none-count p [] h = refl
  find-none-count p (y ∷ xs) h = ground (arith, find-none-count p xs)

  pub find-All {κ} :
      (P : A → Type κ) (p : A → Bool) (xs : List A) {x : A} → find p xs ≡ some x → All P xs → P x
  unfolding find
  find-All P p [] h a = ground arith
  find-All P p (y ∷ xs) {x} h a = elim (Bool-cases (p y)) [
    | inl e ↦ let q : some y ≡ some x = rw e at h in subst P (cc) a.0
    | inr e ↦ find-All P p xs (rw e at h) a.1
  ]
