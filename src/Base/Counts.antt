-- ===== src/Base/Counts.antt =====
-- How many rows of a table pass, and what they add up to, after an update.
use Prim.Native.Nat.{ℕ, ◌≤◌}
use mathlib.Core.Path.{◌≡◌, refl}
use mathlib.Core.Bool.{Bool, true, false, ◌&&◌}
use mathlib.Core.List.{List, [], ◌∷◌}
use native.Mathlib.Omega.{arith}
use authorization_document.Base.Tests.{if◌then◌else◌, ◌==◌, ==_refl}
use authorization_document.Base.Lists.{count, update_where, any, All, sum_of, filter}
use authorization_document.Base.Queries.{All-map}

module _ {ℓ} {A : Type ℓ} where
  pub count-cong :
      (p q : A → Bool) (xs : List A) → All (λ x. p x ≡ q x) xs → count p xs ≡ count q xs
  unfolding count
  count-cong p q [] h = refl
  count-cong p q (x ∷ xs) h = rw (h.0, count-cong p q xs h.1)

  -- Rows that pass after an update are among those that passed a filter before it.
  pub count_updated_le :
      (p t q : A → Bool) (f : A → A)
      → ((x : A) → p (if q x then f x else x) ≡ true → t x ≡ true)
      → (xs : List A) → count p (update_where q f xs) ≤ count t xs
  unfolding count update_where
  count_updated_le p t q f keep [] = omega arith
  count_updated_le p t q f keep (x ∷ xs) = ground (arith, keep x, count_updated_le p t q f keep xs)

  pub sum_updated_le :
      (size : A → ℕ) (p t q : A → Bool) (f : A → A)
      → ((x : A) → size (if q x then f x else x) ≡ size x)
      → ((x : A) → p (if q x then f x else x) ≡ true → t x ≡ true)
      → (xs : List A) → sum_of size p (update_where q f xs) ≤ sum_of size t xs
  unfolding sum_of update_where
  sum_updated_le size p t q f same keep [] = omega arith
  sum_updated_le size p t q f same keep (x ∷ xs) =
      ground (arith, same x, keep x, sum_updated_le size p t q f same keep xs)

  pub count-filter :
      (p t : A → Bool) (xs : List A) → count (λ x. p x && t x) xs ≡ count t (filter p xs)
  unfolding count filter
  count-filter p t [] = refl
  count-filter p t (x ∷ xs) = ground (arith, count-filter p t xs)

  pub count-none : (t : A → Bool) (xs : List A) → All (λ x. t x ≡ false) xs → count t xs ≡ 0
  unfolding count
  count-none t [] h = refl
  count-none t (x ∷ xs) h = ground (arith, h.0, count-none t xs h.1)

  -- Every row of a list has its key among the keys of the list.
  pub keys_among : (key : A → ℕ) (xs : List A) → All (λ x. any (λ r. key r == key x) xs ≡ true) xs
  unfolding any
  keys_among key [] = tt
  keys_among key (x ∷ xs) =
      (rw (==_refl (key x)) refl, All-map _ _ (λ y h. ground (arith, h)) xs (keys_among key xs))
