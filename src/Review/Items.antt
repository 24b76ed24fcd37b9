-- ===== src/Review/Items.antt =====
-- `reviewItem` of apps/api/src/review/review.service.ts.
use authorization_document.Links.Operations.{trim_reason}
use authorization_document.Base.{
  ℕ, Option, Bool, is_blank, ◌==◌, any, some, false, List, ◌&&◌, not, if◌then◌else◌, Text, same_id,
  update_where, Result, ◌∷◌, ◌>>=◌, ◌>>◌, none, ok, require, bad_request, reason_required,
  from_option, conflict, review_assignment_changed, requirement_not_in_case, find,
  approved_item_locked, ◌+◌,
}
use authorization_document.Model.Status.{
  CaseStatus, same_status, ReviewDecision, pending_rereview, is_reject, is_reviewable,
}
use authorization_document.Model.Rows.{Key, Review, Case, requirement_reviewed}
use authorization_document.Model.Db.{Db, matching, audit_user}

abbrev pub is_review_of : Key → Key → Review → Bool
is_review_of case_id requirement r = r.case_id == case_id && r.requirement_version == requirement

-- The row that a transaction of the case's reviewer locks.
abbrev pub locked_case : Key → Key → Db → Option Case
locked_case id reviewer db =
    matching (λ c. same_id c.reviewer (some reviewer) && is_reviewable c.status) (db.cases id)

-- `caseSnapshotRequirement.findFirst`: in any snapshot of the case.
abbrev pub is_included : Key → Key → Db → Bool
is_included case_id requirement db =
    any
      (λ s. s.case_id == case_id && any (λ r. r.requirement_version == requirement) s.requirements)
      db.snapshots

abbrev pub version_of : Option Review → ℕ
version_of none = 0
version_of (some r) = r.version

abbrev pub is_approved : Option Review → Bool
is_approved none = false
is_approved (some r) = not (is_reject r.decision)

abbrev pub is_rereview : CaseStatus → Bool
is_rereview s = same_status s pending_rereview

-- `requirementReview.upsert`
unfoldable pub upsert_review : Review → List Review → List Review
upsert_review r rows =
    if any (is_review_of r.case_id r.requirement_version) rows
    then update_where (is_review_of r.case_id r.requirement_version) (λ _. r) rows
    else r ∷ rows

unfoldable pub review_item :
    Key → Key → ReviewDecision → Option Text → Key → Db → Result (Review × Db)
unfolding is_blank upsert_review
review_item case_id requirement decision reason reviewer db = do
  require (not (is_reject decision && is_blank reason)) (bad_request reason_required)
  item ← from_option (conflict review_assignment_changed) (locked_case case_id reviewer db)
  require (is_included case_id requirement db) (bad_request requirement_not_in_case)
  let current = find (is_review_of case_id requirement) db.reviews
  require (not (is_rereview item.status && is_approved current)) (bad_request approved_item_locked)
  let review : Review = record {
    case_id = case_id;
    requirement_version = requirement;
    decision = decision;
    reason = trim_reason reason;
    reviewer = reviewer;
    version = version_of current + 1;
  }
  ok (
    review,
    audit_user reviewer requirement_reviewed case_id (record db {
      reviews = upsert_review review db.reviews;
      review_history = review ∷ db.review_history;
    }),
  )
