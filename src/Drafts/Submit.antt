-- ===== src/Drafts/Submit.antt =====
-- `submitPublic` of apps/api/src/cases/case.service.ts: a first transaction checks the signing, the
-- stored preview is read and hashed, and a second one checks again and submits.
use authorization_document.Drafts.Content.{latest_draft, RenderInput, content_digest}
use authorization_document.Review.Confirm.{latest_valid_signing}
use authorization_document.Links.Access.{resolve, consume}
use authorization_document.Model.Db.{Db, record_status, set_case, audit_as}
use authorization_document.Model.Rows.{
  Key, Hash, Case, FileVersion, Signing, the_customer, Time, case_formally_submitted, TargetType,
  pdf_type,
}
use authorization_document.Model.Status.{
  pending_review, needs_supplement, pending_rereview, customer_actor, CaseStatus, same_status,
  is_editable,
}
use authorization_document.Base.{
  ℕ, ◌>>=◌, ◌>>◌, none, some, ok, Bool, Option, find, ◌==◌, ◌&&◌, Result, require, bad_request,
  conflict, same_id, consent_required, changed_during_verification, signing_stale, from_option,
  not_found, case_missing, status_not_allowed, draft_missing,
}

pub record SubmitBody : Type 0 where
  pub consent : Bool
  pub declaration : Bool
  pub signing_version : ℕ

-- What the first transaction returns.
pub record Verification : Type 0 where
  pub case_id : Key
  pub status : CaseStatus
  pub draft_version : ℕ
  pub digest : Hash
  pub signing_id : Key
  pub signing_version : ℕ
  pub preview_id : Key
  pub preview_key : Key
  pub preview_sha : Hash

abbrev pub version_by_id : Key → Db → Option FileVersion
version_by_id id db = find (λ v. v.id == id) db.versions

abbrev pub target_of : CaseStatus → CaseStatus
target_of needs_supplement = pending_rereview
target_of _ = pending_review

-- The signing that a submission relies on still agrees with the content and with its preview.
abbrev pub is_current : ℕ → Hash → Signing → FileVersion → Bool
is_current version digest s preview =
    s.version == version
    && s.content_digest == digest
    && preview.mime_type == pdf_type
    && s.preview_sha == preview.sha256

-- `signingRecord.findFirst({ where: { id, caseId, valid: true } })`
abbrev pub valid_signing : Key → Key → Db → Option Signing
valid_signing id case_id db = find (λ s. s.id == id && s.case_id == case_id && s.valid) db.signings

abbrev pub is_unchanged : Verification → Hash → Signing → FileVersion → Bool
is_unchanged v digest s preview =
    s.version == v.signing_version
    && s.content_digest == digest
    && preview.id == v.preview_id
    && s.preview_sha == v.preview_sha
    && preview.sha256 == v.preview_sha

-- The writes of a submission but the link's.
unfoldable pub submit_writes : Key → Case → Db → Db
submit_writes id item db =
    record_status id (some item.status) (target_of item.status) the_customer none
      (set_case id (record item { status = target_of item.status }) db)

module _ (digest : Key → Hash) (digest_of : RenderInput → Hash) where
  unfoldable pub verify_submission : Time → Key → SubmitBody → Db → Result Verification
  unfolding resolve latest_draft content_digest latest_valid_signing
  verify_submission now token body db = do
    require (body.consent && body.declaration) (bad_request consent_required)
    link ← resolve digest now token db
    item ← from_option (not_found case_missing) (db.cases link.case_id)
    require (is_editable item.status) (bad_request status_not_allowed)
    saved ← from_option (bad_request draft_missing) (latest_draft link.case_id db)
    hash ← content_digest digest_of link.case_id saved.version saved.content db
    signing ← from_option (bad_request signing_stale) (latest_valid_signing link.case_id db)
    preview ← from_option (bad_request signing_stale) (version_by_id signing.preview db)
    require (is_current body.signing_version hash signing preview) (bad_request signing_stale)
    ok (record {
      case_id = link.case_id;
      status = item.status;
      draft_version = saved.version;
      digest = hash;
      signing_id = signing.id;
      signing_version = signing.version;
      preview_id = preview.id;
      preview_key = preview.storage_key;
      preview_sha = signing.preview_sha;
    })

  -- The second transaction.
  unfoldable pub submit_verified : Time → Key → Verification → Db → Result (CaseStatus × Db)
  unfolding resolve latest_draft content_digest submit_writes consume
  submit_verified now token v db = do
    link ← resolve digest now token db
    require (link.case_id == v.case_id) (conflict changed_during_verification)
    item ← from_option (conflict changed_during_verification) (db.cases v.case_id)
    require (same_status item.status v.status) (conflict changed_during_verification)
    saved ← from_option (conflict changed_during_verification) (latest_draft v.case_id db)
    require (saved.version == v.draft_version) (conflict changed_during_verification)
    hash ← content_digest digest_of v.case_id saved.version saved.content db
    require (hash == v.digest) (conflict changed_during_verification)
    signing ←
        from_option (conflict changed_during_verification) (valid_signing v.signing_id v.case_id db)
    preview ← from_option (conflict changed_during_verification) (version_by_id signing.preview db)
    require (is_unchanged v hash signing preview) (conflict changed_during_verification)
    used ← consume now link (submit_writes v.case_id item db)
    ok (
      target_of item.status,
      audit_as customer_actor case_formally_submitted TargetType.business_case v.case_id used,
    )

  -- The whole: `stored` is the SHA-256 of what the storage holds under a key, and `none` where that
  -- is empty; `later` is the state of the tables when the second transaction runs.
  unfoldable pub submit_public :
      (Key → Option Hash) → Time → Time → Key → SubmitBody → Db → Db → Result (CaseStatus × Db)
  unfolding verify_submission submit_verified
  submit_public stored now then_now token body db later = do
    v ← verify_submission now token body db
    require (same_id (stored v.preview_key) (some v.preview_sha)) (bad_request signing_stale)
    submit_verified then_now token v later
