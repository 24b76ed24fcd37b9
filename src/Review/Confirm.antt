-- ===== src/Review/Confirm.antt =====
-- `confirm` of apps/api/src/review/review.service.ts.
use authorization_document.Review.Items.{locked_case, is_review_of}
use authorization_document.Links.Access.{create_link}
use authorization_document.Links.Operations.{disable_all}
use authorization_document.Model.Db.{Db, set_case, audit_user, record_status}
use authorization_document.Model.Rows.{
  Key, Time, Snapshot, user, PdfTask, Hash, Signing, Case, review_confirmed_rejected,
  review_confirmed_finalizing,
}
use authorization_document.Model.Status.{needs_supplement, finalizing, queued, not_ready, is_reject}
use authorization_document.Base.{
  ℕ, ◌>>=◌, ◌>>◌, none, some, [], ◌∷◌, ok, ◌*◌, Option, Bool, List, find_latest, map, any, ltb,
  ◌==◌, if◌then◌else◌, Result, ◌&&◌, length, update_where, ◌+◌, from_option, not, bad_request,
  conflict, signing_missing, review_assignment_changed, require, review_incomplete,
}

abbrev pub seven_days : Time
seven_days = 7 * 86400000

-- `snapshots` with `orderBy: { version: 'desc' }, take: 1`
unfoldable pub latest_snapshot : Key → Db → Option Snapshot
latest_snapshot id db = find_latest (λ s. s.version) (λ s. s.case_id == id) db.snapshots

-- `signings` with `where: { valid: true }, orderBy: { version: 'desc' }, take: 1`
unfoldable pub latest_valid_signing : Key → Db → Option Signing
latest_valid_signing id db =
    find_latest (λ s. s.version) (λ s. s.case_id == id && s.valid) db.signings

abbrev pub required_ids : Option Snapshot → List Key
required_ids none = []
required_ids (some s) = map (λ r. r.requirement_version) s.requirements

unfoldable pub is_reviewed : Key → Db → Key → Bool
is_reviewed case_id db requirement = any (is_review_of case_id requirement) db.reviews

-- `requiredIds.length && !requiredIds.some((id) => !reviews.some(…))`
unfoldable pub is_complete : Key → Db → Bool
is_complete case_id db =
    let ids = required_ids (latest_snapshot case_id db) in
    ltb 0 (length ids) && not (any (λ r. not (is_reviewed case_id db r)) ids)

unfoldable pub has_reject : Key → Db → Bool
has_reject case_id db = any (λ r. r.case_id == case_id && is_reject r.decision) db.reviews

abbrev pub same_task : Key → Key → ℕ → ℕ → PdfTask → Bool
same_task case_id template snapshot signature t =
    t.case_id == case_id
    && t.template_version == template
    && t.snapshot_version == snapshot
    && t.signature_version == signature

-- The row that `pdfTask.upsert` creates: the schema's defaults.
abbrev pub new_task : Key → Key → Key → ℕ → ℕ → PdfTask
new_task id case_id template snapshot signature = record {
  id = id;
  case_id = case_id;
  template_version = template;
  snapshot_version = snapshot;
  signature_version = signature;
  status = queued;
  attempts = 0;
  max_attempts = 3;
  started_at = none;
  finished_at = none;
  lease_token = none;
  claim_generation = 0;
  queue_generation = 0;
  delivery_generation = 0;
  pending_key = none;
  pending_sha = none;
  pending_size = none;
  output_file = none;
  output_sha = none;
  delivery = not_ready;
  delivery_attempts = 0;
  finalized_at = none;
}

-- `pdfTask.upsert` by the idempotency key.
unfoldable pub upsert_task : Key → Key → Key → ℕ → ℕ → List PdfTask → List PdfTask
upsert_task id case_id template snapshot signature tasks =
    if any (same_task case_id template snapshot signature) tasks
    then update_where (same_task case_id template snapshot signature)
        (λ t. record t { status = queued }) tasks
    else new_task id case_id template snapshot signature ∷ tasks

-- Both outcomes of a confirmation that goes through.
pub data Outcome : Type 0 where
  supplement : (token : Key) (expires : Time) → Outcome
  finalize : Outcome

module _ (digest : Key → Hash) (now : Time) (link_id token task_id case_id reviewer : Key) where
  -- The branch with a rejected item.
  unfoldable pub confirm_rejected : Case → Db → Result (Outcome × Db)
  unfolding create_link
  confirm_rejected item db = do
    let expires = now + seven_days
    let moved = set_case case_id (record item { status = needs_supplement }) db
    linked ← create_link link_id case_id (digest token) expires (disable_all now case_id moved)
    ok (
      supplement token expires,
      audit_user reviewer review_confirmed_rejected case_id
          (record_status case_id (some item.status) needs_supplement (user reviewer) none linked),
    )

  -- The branch where all items are approved.
  unfoldable pub confirm_approved : Case → Db → Result (Outcome × Db)
  confirm_approved item db = do
    signing ← from_option (bad_request signing_missing) (latest_valid_signing case_id db)
    snapshot ← from_option (bad_request signing_missing) (latest_snapshot case_id db)
    let moved = set_case case_id (record item { status = finalizing }) db
    let recorded = record_status case_id (some item.status) finalizing (user reviewer) none moved
    let queued_db = record recorded {
      tasks =
          upsert_task task_id case_id item.template_version snapshot.version signing.version
            db.tasks;
    }
    ok (finalize, audit_user reviewer review_confirmed_finalizing case_id queued_db)

  unfoldable pub confirm : Db → Result (Outcome × Db)
  confirm db = do
    item ← from_option (conflict review_assignment_changed) (locked_case case_id reviewer db)
    require (is_complete case_id db) (bad_request review_incomplete)
    if has_reject case_id db then confirm_rejected item db else confirm_approved item db
