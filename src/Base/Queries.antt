-- ===== src/Base/Queries.antt =====
-- What a write to a table does to later queries.
use Prim.Native.Nat.{◌≤◌, ◌<◌, ℕ}
use mathlib.Core.Path.{◌≡◌, refl}
use mathlib.Core.Logic.{inl, inr}
use mathlib.Core.Bool.{Bool, true, false, not}
use mathlib.Core.Option.{none, some}
use mathlib.Core.List.{List, [], ◌∷◌}
use native.Mathlib.Omega.{arith}
use authorization_document.Base.Tests.{if◌then◌else◌, Bool-cases, Option-cases}
use authorization_document.Base.Lists.{find_latest, find, count, update_where, any, All, sum_of}

module _ {ℓ} {A : Type ℓ} (q : A → Bool) (f : A → A) where
  pub found_updated :
      (p : A → Bool)
      → ((x : A) → p (f x) ≡ p x)
      → (xs : List A) {y : A} → find p (update_where q f xs) ≡ some y
      → (x : A) × (find p xs ≡ some x) × (y ≡ (if q x then f x else x))
  unfolding find update_where
  found_updated p keep [] h = ground arith
  found_updated p keep (x ∷ xs) {y} h = elim (Bool-cases (p x)) [
    | inl e ↦ (x, rw e, ground (arith, keep x))
    | inr e ↦
        let (z, found, same) = found_updated p keep xs {y = y} (ground (arith, keep x)) in
        (z, rw e found, same)
  ]

  pub find_updated :
      (p : A → Bool)
      → ((x : A) → p (f x) ≡ p x)
      → (xs : List A) {x : A} → find p xs ≡ some x
      → find p (update_where q f xs) ≡ some (if q x then f x else x)
  unfolding find update_where
  find_updated p keep [] h = ground arith
  find_updated p keep (y ∷ xs) {x} h = ground (arith, keep y, find_updated p keep xs {x = x})

  module _ (r : A → Bool) where
    pub count-update_where_le :
        ((x : A) → r (f x) ≡ true → r x ≡ true)
        → (xs : List A) → count r (update_where q f xs) ≤ count r xs
    unfolding count update_where
    count-update_where_le keep [] = omega arith
    count-update_where_le keep (x ∷ xs) = ground (arith, keep x, count-update_where_le keep xs)

    pub count-update_where_zero :
        ((x : A) → r x ≡ true → q x ≡ true)
        → ((x : A) → r (f x) ≡ false)
        → (xs : List A) → count r (update_where q f xs) ≡ 0
    unfolding count update_where
    count-update_where_zero all clear [] = refl
    count-update_where_zero all clear (x ∷ xs) =
        ground (arith, all x, clear x, count-update_where_zero all clear xs)

    pub count-update_where_lt :
        ((x : A) → r (f x) ≡ false)
        → (xs : List A) {a : A} → find r xs ≡ some a
        → q a ≡ true
        → count r (update_where q f xs) < count r xs
    unfolding count update_where find
    count-update_where_lt clear [] h t = ground arith
    count-update_where_lt clear (x ∷ xs) {a} h t = elim (Bool-cases (r x)) [
      | inl e ↦ ground (arith, clear x, count-update_where_le (λ y k. cc (clear y)) xs)
      | inr e ↦ ground (arith, clear x, count-update_where_lt clear xs {a = a})
    ]

module _ {ℓ} {A : Type ℓ} where
  pub count_found :
      (p r : A → Bool) (xs : List A) {x : A} → find p xs ≡ some x → r x ≡ true → 1 ≤ count r xs
  unfolding find count
  count_found p r [] h t = ground arith
  count_found p r (y ∷ xs) {x} h t = ground (arith, count_found p r xs {x = x})

  pub count_le :
      (p r : A → Bool)
      → ((x : A) → p x ≡ true → r x ≡ true)
      → (xs : List A) → count p xs ≤ count r xs
  unfolding count
  count_le p r imp [] = omega arith
  count_le p r imp (x ∷ xs) = ground (arith, imp x, count_le p r imp xs)

module _ {ℓ} {A : Type ℓ} where
  pub any-find : (p : A → Bool) (xs : List A) → any p xs ≡ true → (x : A) × (find p xs ≡ some x)
  unfolding any find
  any-find p [] h = ground arith
  any-find p (x ∷ xs) h = elim (Bool-cases (p x)) [
    | inl e ↦ (x, rw e)
    | inr e ↦ let (y, f) = any-find p xs (rw e at h) in (y, rw e f)
  ]

  pub not_any-find : (p : A → Bool) (xs : List A) → any p xs ≡ false → find p xs ≡ none
  unfolding any find
  not_any-find p [] h = refl
  not_any-find p (x ∷ xs) h = ground (arith, not_any-find p xs)

  pub any-false_found :
      (p q : A → Bool) (xs : List A) {x : A} → any q xs ≡ false → find p xs ≡ some x → q x ≡ false
  unfolding any find
  any-false_found p q [] h f = ground arith
  any-false_found p q (y ∷ xs) {x} h f = ground (arith, any-false_found p q xs {x = x})

  pub not-any-All :
      (t : A → Bool) (xs : List A) → any (λ x. not (t x)) xs ≡ false → All (λ x. t x ≡ true) xs
  unfolding any
  not-any-All t [] h = tt
  not-any-All t (x ∷ xs) h = (ground arith, not-any-All t xs (ground arith))

  pub All-map {κ κ'} :
      (P : A → Type κ) (Q : A → Type κ')
      → ((x : A) → P x → Q x)
      → (xs : List A) → All P xs
      → All Q xs
  All-map P Q f [] h = tt
  All-map P Q f (x ∷ xs) h = (f x h.0, All-map P Q f xs h.1)

  -- Replacing the rows that `q` accepts by a row `r`: what a query finds afterwards.
  pub find_replaced :
      (p q : A → Bool) (r : A)
      → ((x : A) → q x ≡ true → p x ≡ p r)
      → (xs : List A) → any q xs ≡ true
      → p r ≡ true
      → ((x : A) → p x ≡ true → q x ≡ true)
      → find p (update_where q (λ _. r) xs) ≡ some r
  unfolding any find update_where
  find_replaced p q r same [] h t only = ground arith
  find_replaced p q r same (x ∷ xs) h t only =
      ground (arith, same x, only x, find_replaced p q r same xs)

  pub find_replaced_other :
      (p q : A → Bool) (r : A)
      → ((x : A) → q x ≡ true → p x ≡ p r)
      → p r ≡ false
      → (xs : List A) → find p (update_where q (λ _. r) xs) ≡ find p xs
  unfolding find update_where
  find_replaced_other p q r same t [] = refl
  find_replaced_other p q r same t (x ∷ xs) =
      ground (arith, same x, find_replaced_other p q r same t xs)

module _ {ℓ} {A : Type ℓ} where
  pub find_latest_sound :
      (number : A → ℕ) (p : A → Bool) (xs : List A) {x : A}
      → find_latest number p xs ≡ some x
      → p x ≡ true
  unfolding find_latest
  find_latest_sound number p [] h = ground arith
  find_latest_sound number p (y ∷ xs) {x} h = elim (Option-cases (find_latest number p xs)) [
    | inl e ↦ ground arith
    | inr (z, e) ↦ ground (arith, find_latest_sound number p xs {x = z})
  ]

module _ {ℓ} {A : Type ℓ} where
  pub any-cong : (p q : A → Bool) → ((x : A) → p x ≡ q x) → (xs : List A) → any p xs ≡ any q xs
  unfolding any
  any-cong p q same [] = refl
  any-cong p q same (x ∷ xs) = ground (arith, same x, any-cong p q same xs)

  pub any-update_where :
      (q : A → Bool) (f : A → A) (p : A → Bool)
      → ((x : A) → p (f x) ≡ p x)
      → (xs : List A) → any p (update_where q f xs) ≡ any p xs
  unfolding any update_where
  any-update_where q f p keep [] = refl
  any-update_where q f p keep (x ∷ xs) = ground (arith, keep x, any-update_where q f p keep xs)

  pub All-update_where {κ} :
      (P : A → Type κ) (q : A → Bool) (f : A → A)
      → ((x : A) → P x → P (f x))
      → (xs : List A) → All P xs
      → All P (update_where q f xs)
  unfolding update_where
  All-update_where P q f keep [] h = tt
  All-update_where P q f keep (x ∷ xs) h = (
    elim (Bool-cases (q x)) [ inl e ↦ rw e (keep x h.0) | inr e ↦ rw e h.0 ],
    All-update_where P q f keep xs h.1,
  )

  pub sum_of-cong :
      (size : A → ℕ) (p q : A → Bool) (xs : List A)
      → All (λ x. p x ≡ q x) xs
      → sum_of size p xs ≡ sum_of size q xs
  unfolding sum_of
  sum_of-cong size p q [] h = refl
  sum_of-cong size p q (x ∷ xs) h = rw (h.0, sum_of-cong size p q xs h.1)

  pub All-always {κ} : (P : A → Type κ) → ((x : A) → P x) → (xs : List A) → All P xs
  All-always P h [] = tt
  All-always P h (x ∷ xs) = (h x, All-always P h xs)

module _ {ℓ} {A : Type ℓ} where
  pub any-false-le :
      (p q : A → Bool)
      → ((x : A) → p x ≡ true → q x ≡ true)
      → (xs : List A) → any q xs ≡ false
      → any p xs ≡ false
  unfolding any
  any-false-le p q le [] h = refl
  any-false-le p q le (x ∷ xs) h = ground (arith, le x, any-false-le p q le xs)

  -- A row that passes after an update passed before it.
  pub any-update_where_le :
      (q : A → Bool) (f : A → A) (p : A → Bool)
      → ((x : A) → p (f x) ≡ true → p x ≡ true)
      → (xs : List A) → any p (update_where q f xs) ≡ true
      → any p xs ≡ true
  unfolding any update_where
  any-update_where_le q f p keep [] h = h
  any-update_where_le q f p keep (x ∷ xs) h =
      ground (arith, keep x, any-update_where_le q f p keep xs)

  pub sum_of_le :
      (size : A → ℕ) (p q : A → Bool)
      → ((x : A) → p x ≡ true → q x ≡ true)
      → (xs : List A) → sum_of size p xs ≤ sum_of size q xs
  unfolding sum_of
  sum_of_le size p q le [] = omega arith
  sum_of_le size p q le (x ∷ xs) = ground (arith, le x, sum_of_le size p q le xs)
