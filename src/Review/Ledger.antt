-- ===== src/Review/Ledger.antt =====
-- What `reviewItem` keeps: approvals during a second review, and the ledger of review versions.
use authorization_document.Review.Items.{
  review_item, version_of, upsert_review, is_review_of, locked_case, is_rereview, is_approved,
  is_included,
}
use authorization_document.Model.Db.{Db}
use authorization_document.Model.Rows.{Key, Review, Case}
use authorization_document.Model.Status.{pending_rereview, approve, ReviewDecision, is_reject}
use authorization_document.Base.{
  some, false, ◌∷◌, inl, inr, ok, find, Option, List, Text, ◌≡◌, count, if◌then◌else◌, Bool-cases,
  any, find_replaced, ◌&&◌, arith, find_replaced_other, ◌+◌, from_option, require, is_blank, not,
  >>=-eq-ok, ℕ, true, refl, ==_refl,
}

-- The current review of each item has as its version the number of the item's history entries.
abbrev pub IsLedger : Db → Type 0
IsLedger db =
    (case_id requirement : Key)
    → version_of (find (is_review_of case_id requirement) db.reviews)
      ≡ count (is_review_of case_id requirement) db.review_history

-- A query for one item's review after `upsert`.
pub find-upsert_review :
    (case_id requirement : Key) (r : Review) (rows : List Review)
    → find (is_review_of case_id requirement) (upsert_review r rows) ≡ (
        if is_review_of case_id requirement r
        then some r
        else find (is_review_of case_id requirement) rows)
unfolding upsert_review find
find-upsert_review case_id requirement r rows =
    elim (Bool-cases (any (is_review_of r.case_id r.requirement_version) rows)) [
      | inr e ↦ rw e
      | inl e ↦ rw e (elim (Bool-cases (is_review_of case_id requirement r)) [
        | inl t ↦ rw t (
            find_replaced (is_review_of case_id requirement)
              (is_review_of r.case_id r.requirement_version) r (λ x k. ground arith) rows e t
              (λ x k. ground arith))
        | inr t ↦ rw t (
            find_replaced_other (is_review_of case_id requirement)
              (is_review_of r.case_id r.requirement_version) r (λ x k. ground arith) t rows)
      ])
    ]

module _ (case_id requirement : Key) (decision : ReviewDecision) (reason : Option Text)
    (reviewer : Key) (db db' : Db) (review : Review)
    (done : review_item case_id requirement decision reason reviewer db ≡ ok (review, db')) where
  -- The tables after a review that goes through.
  pub review_item-eq-ok :
      (item : Case) × (locked_case case_id reviewer db ≡ some item)
      × ((is_rereview item.status
            && is_approved (find (is_review_of case_id requirement) db.reviews))
          ≡ false)
      × (review.case_id ≡ case_id)
      × (review.requirement_version ≡ requirement)
      × (review.version ≡ version_of (find (is_review_of case_id requirement) db.reviews) + 1)
      × (db'.reviews ≡ upsert_review review db.reviews)
      × (db'.review_history ≡ review ∷ db.review_history)
  unfolding review_item
  review_item-eq-ok =
      let (u, given, h₁) =
        >>=-eq-ok (require (not (is_reject decision && is_blank reason)) _) _ done in
      let (item, e, h₂) = >>=-eq-ok (from_option _ (locked_case case_id reviewer db)) _ h₁ in
      let (w, inside, h₃) = >>=-eq-ok (require (is_included case_id requirement db) _) _ h₂ in
      let (z, free, h₄) =
        >>=-eq-ok
          (require
            (not (
              is_rereview item.status
              && is_approved (find (is_review_of case_id requirement) db.reviews)))
            _)
          _ h₃ in
      (
        item,
        ground arith,
        ground arith,
        ground arith,
        ground arith,
        ground arith,
        ground arith,
        ground arith,
      )

  -- Whether a row of reviews is of the item that is reviewed here, as a number.
  abbrev adds : Key → Key → ℕ
  adds c q = if is_review_of c q review then 1 else 0

  -- A review adds one version and one history entry, for its item alone, and is then the review of
  -- that item: of every item of every case, the version of the current review and the number of
  -- history entries grow by one where it is the item that is reviewed, and stay as they are
  -- elsewhere. So a ledger, in which the two agree for every item, stays one.
  pub review_item-IsLedger :
      IsLedger db
      → IsLedger db'
        × (find (is_review_of case_id requirement) db'.reviews ≡ some review)
        × (is_review_of case_id requirement review ≡ true)
        × ((c q : Key)
            → (version_of (find (is_review_of c q) db'.reviews)
                ≡ adds c q + version_of (find (is_review_of c q) db.reviews))
              × (count (is_review_of c q) db'.review_history
                  ≡ adds c q + count (is_review_of c q) db.review_history))
  unfolding count
  review_item-IsLedger ledger =
      let (item, e, free, same_case, same_item, version, reviews, history) = review_item-eq-ok in
      let mine : is_review_of case_id requirement review ≡ true =
        rw (same_case, same_item, ==_refl case_id, ==_refl requirement) refl in
      (
        λ c q. omega (arith, versions c q, entries c q, ledger c q),
        rw (reviews, find-upsert_review case_id requirement review db.reviews, mine) refl,
        mine,
        λ c q. (versions c q, entries c q),
      )
    where
      versions :
          (c q : Key)
          → version_of (find (is_review_of c q) db'.reviews)
            ≡ adds c q + version_of (find (is_review_of c q) db.reviews)
      versions c q =
          let (item, e, free, same_case, same_item, version, reviews, history) =
            review_item-eq-ok in
          rw (reviews, find-upsert_review c q review db.reviews)
            (elim (Bool-cases (is_review_of c q review)) [
              | inl t ↦
                  let case_eq : c ≡ case_id = ground arith in
                  let item_eq : q ≡ requirement = ground arith in
                  let next : review.version ≡ version_of (find (is_review_of c q) db.reviews) + 1 =
                    rw (case_eq, item_eq) version in
                  rw t (omega (arith, next))
              | inr t ↦ rw t (omega arith)
            ])

      entries :
          (c q : Key)
          → count (is_review_of c q) db'.review_history
            ≡ adds c q + count (is_review_of c q) db.review_history
      entries c q =
          let (item, e, free, same_case, same_item, version, reviews, history) =
            review_item-eq-ok in
          rw history (elim (Bool-cases (is_review_of c q review)) [
            | inl t ↦ rw t (omega arith)
            | inr t ↦ rw t (omega arith)
          ])

  -- During a second review (`PENDING_REREVIEW`) no approved item changes: each keeps the very
  -- review that approved it.
  pub review_item-keeps_approved :
      (c : Case) (r : Key) (v : Review)
      → db.cases case_id ≡ some c
      → c.status ≡ pending_rereview
      → find (is_review_of case_id r) db.reviews ≡ some v
      → v.decision ≡ approve
      → find (is_review_of case_id r) db'.reviews ≡ some v
  review_item-keeps_approved c r v e s f a =
      let (item, locked, free, same_case, same_item, version, reviews, history) =
        review_item-eq-ok in
      rw (reviews, find-upsert_review case_id r review db.reviews)
        (elim (Bool-cases (is_review_of case_id r review)) [
          | inl t ↦
              let item_eq : requirement ≡ r = ground arith in
              let there : find (is_review_of case_id requirement) db.reviews ≡ some v =
                rw item_eq f in
              let same : c ≡ item = ground arith in absurd (ground (arith, there))
          | inr t ↦ rw t f
        ])
