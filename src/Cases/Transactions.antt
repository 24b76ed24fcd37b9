-- ===== src/Cases/Transactions.antt =====
-- `serializableTransaction` of apps/api/src/database/repositories/transaction.ts, and
-- `withCatalogRetry` of catalog-version.repository.ts, which is the same loop.
use authorization_document.Base.{
  ℕ, refl, inl, inr, ok, err, zero, suc, Failure, ◌≤◌, Result, ◌≡◌, ◌+◌, ◌-◌, ◌<◌, ◌⊎◌, arith,
}

-- What one attempt comes to: `retryable` is an error that `isRetryableWriteConflict` accepts.
pub data Attempt {ℓ} (A : Type ℓ) : Type ℓ where
  committed : A → Attempt A
  retryable : Failure → Attempt A
  fatal : Failure → Attempt A

compare_cases : (a b : ℕ) → a ≤ b → (a ≡ b) ⊎ (a < b)
compare_cases a b h = ground arith

module _ {ℓ} {A : Type ℓ} where
  -- The loop from `attempt` on with `left` attempts after it.
  unfoldable pub attempt_from : (ℕ → Attempt A) → ℕ → ℕ → Result A
  attempt_from work attempt zero = elim (work attempt) [
    | committed a ↦ ok a
    | retryable e ↦ err e
    | fatal e ↦ err e
  ]
  attempt_from work attempt (suc left) = elim (work attempt) [
    | committed a ↦ ok a
    | retryable e ↦ attempt_from work (attempt + 1) left
    | fatal e ↦ err e
  ]

  -- `maxAttempts` is at least 1: 4 for the services and 3 for the catalog.
  unfoldable pub serializable_transaction : ℕ → (ℕ → Attempt A) → Result A
  unfolding attempt_from
  serializable_transaction max_attempts work = attempt_from work 1 (max_attempts - 1)

  reaches :
      (work : ℕ → Attempt A) (attempt left last : ℕ) (a : A)
      → attempt ≤ last
      → last ≤ attempt + left
      → ((k : ℕ) → attempt ≤ k → k < last → (e : Failure) × (work k ≡ retryable e))
      → work last ≡ committed a
      → attempt_from work attempt left ≡ ok a
  unfolding attempt_from
  reaches work attempt zero last a low high conflicts done =
      let same : last ≡ attempt = omega arith in rw (rw same at done, attempt_from) refl
  reaches work attempt (suc left) last a low high conflicts done =
      elim (compare_cases attempt last low) [
        | inl same ↦ rw (rw (← same) at done, attempt_from) refl
        | inr lt ↦
            let (e, c) = conflicts attempt (omega arith) lt in
            rw (c, attempt_from)
              (reaches work (attempt + 1) left last a (omega arith) (omega arith)
                (λ k h l. conflicts k (omega arith) l) done)
      ]

  -- A transaction that meets write conflicts until one attempt, within the limit, commits, returns
  -- what that attempt returned.
  pub serializable_transaction-eq-ok :
      (max_attempts : ℕ) (work : ℕ → Attempt A) (last : ℕ) (a : A)
      → 1 ≤ last
      → last ≤ max_attempts
      → ((k : ℕ) → 1 ≤ k → k < last → (e : Failure) × (work k ≡ retryable e))
      → work last ≡ committed a
      → serializable_transaction max_attempts work ≡ ok a
  unfolding serializable_transaction
  serializable_transaction-eq-ok max_attempts work last a low high conflicts done =
      reaches work 1 (max_attempts - 1) last a low (omega arith) conflicts done
