-- ===== src/Tests/DraftTests.antt =====
-- Runs of the drafts and of the submission.
use authorization_document.Files.Capacity.{has_active_file, invalidate_signings}
use authorization_document.Drafts.Guards.{
  save_public_draft-same_content, save_public_draft-latest_valid_signing, save_public_draft-answer,
}
use authorization_document.Drafts.Submitted.{submit_public-signed, submit_verified-resolve, RestsOn}
use authorization_document.Drafts.Saved.{
  save_public_draft-latest_draft, save_public_draft-save_public_draft,
}
use authorization_document.Review.Confirm.{latest_valid_signing, latest_snapshot}
use authorization_document.Drafts.Submit.{
  SubmitBody, submit_public, Verification, verify_submission, submit_writes, submit_verified,
}
use authorization_document.Drafts.Save.{number_of}
use authorization_document.Drafts.Save.{
  DraftBody, save_public_draft, content_of, answer, previous_answers, is_allowed, is_foreign_change,
  assert_supplement_only, save_writes, digest_before,
}
use authorization_document.Drafts.Content.{
  RenderInput, latest_draft, content_digest, prepare_input, active_materials, render_file,
  sort_versions,
}
use authorization_document.Links.Access.{resolve, consume}
use authorization_document.Tests.Data.{no_rows, get_ok, one_case, hash_of, some_link, some_case}
use authorization_document.Model.Db.{Db}
use authorization_document.Model.Rows.{
  Key, pdf_type, Snapshot, Json, Signing, FileVersion, Draft, Hash,
}
use authorization_document.Model.Status.{
  awaiting_customer, customer_editing, pending_review, needs_supplement, reject, customer_actor,
  system_actor, presign_pdf, hand_signature, CaseStatus,
}
use authorization_document.Base.{
  ℕ, refl, none, some, true, false, [], ◌∷◌, err, find, List, ◌≡◌, Option, any, count,
  if◌then◌else◌, update_where, ◌==◌, find_latest, filter, ◌+◌, conflict, not_found,
  draft_version_conflict, link_unavailable, arith,
}

runs : Unit {0}
unfolding find any count update_where find_latest filter resolve consume latest_draft
    latest_snapshot prepare_input content_digest active_materials render_file sort_versions
    has_active_file answer is_allowed is_foreign_change assert_supplement_only content_of
    save_writes digest_before save_public_draft invalidate_signings latest_valid_signing
    verify_submission submit_writes submit_verified submit_public
runs = tt

-- A digest that tells the answers of a text apart.
abbrev pub first_value : List (Key × Json) → Hash
first_value [] = 0
first_value (a ∷ rest) = a.1

abbrev pub digest_of : RenderInput → Hash
digest_of input = first_value input.answers

abbrev pub snapshot_one : Snapshot
snapshot_one = record {
  case_id = 1;
  version = 1;
  template_version = 50;
  materials = 0;
  requirements =
      record { requirement_version = 70; key = 170 }
      ∷ record { requirement_version = 71; key = 171 }
      ∷ [];
}

abbrev pub body_of : ℕ → Key → Json → DraftBody
body_of base key value = record {
  base_version = base;
  answers = (key, value) ∷ [];
  materials = none;
  file_versions = [];
}

abbrev pub editing : CaseStatus → Db
editing status = record (one_case status (some 62)) { snapshots = snapshot_one ∷ [] }

abbrev pub first_save : ℕ × Db
first_save =
    get_ok
      (save_public_draft hash_of digest_of 1000 7 (body_of 0 170 900) false
        (editing awaiting_customer))
      (0, no_rows)

save_public_draft-latest_draft_example :
    (1 ≡ number_of (latest_draft 1 (editing awaiting_customer)) + 1)
    × ((d : Draft) × (latest_draft 1 first_save.1 ≡ some d)
        × (d.version ≡ 1)
        × (d.content ≡ content_of (body_of 0 170 900)))
unfolding runs
save_public_draft-latest_draft_example =
    save_public_draft-latest_draft hash_of digest_of 1000 7 (body_of 0 170 900) false
      (editing awaiting_customer) first_save.1 1 (some_link 20 1 7 5000) refl refl

save_public_draft-save_public_draft_example :
    save_public_draft hash_of digest_of 1100 7 (body_of 0 171 901) false first_save.1
    ≡ err (conflict draft_version_conflict)
unfolding runs
save_public_draft-save_public_draft_example =
    save_public_draft-save_public_draft hash_of digest_of 1000 7 (body_of 0 170 900) false
      (editing awaiting_customer) first_save.1 1 (some_link 20 1 7 5000) (some_link 20 1 7 5000)
      1100 7 (body_of 0 171 901) refl refl (omega arith) refl refl

-- The customer signs that content.
abbrev signing_one : Signing
signing_one = record {
  id = 80;
  case_id = 1;
  version = 1;
  draft_version = 1;
  content_digest = 900;
  mode = hand_signature;
  resource = 81;
  preview = 82;
  preview_sha = 91;
  valid = true;
  invalidated_at = none;
}

abbrev pub preview_one : FileVersion
preview_one = record {
  id = 82;
  file_id = 83;
  case_id = 1;
  version = 1;
  original_name = [];
  mime_type = pdf_type;
  size_bytes = 10;
  sha256 = 91;
  storage_key = 84;
  actor_type = system_actor;
  purpose = presign_pdf;
  draft_version = some 1;
  content_digest = some 900;
  original = none;
  cache_active = true;
}

abbrev signed : Db
signed = record first_save.1 { signings = signing_one ∷ []; versions = preview_one ∷ [] }

abbrev body_one : SubmitBody
body_one = record { consent = true; declaration = true; signing_version = 1 }

abbrev stored : Key → Option Hash
stored key = if key == 84 then some 91 else none

abbrev submitted : CaseStatus × Db
submitted =
    get_ok (submit_public hash_of digest_of stored 2000 2100 7 body_one signed signed)
      (customer_editing, no_rows)

submit_run : submitted.0 ≡ pending_review
unfolding runs
submit_run = refl

submit_public-signed_example :
    (s : Signing) × RestsOn hash_of digest_of stored 2100 7 1 signed signed s
unfolding runs
submit_public-signed_example =
    submit_public-signed hash_of digest_of stored 2000 2100 7 body_one signed signed submitted.1
      pending_review refl

abbrev verified : Verification
verified = record {
  case_id = 1;
  status = customer_editing;
  draft_version = 1;
  digest = 900;
  signing_id = 80;
  signing_version = 1;
  preview_id = 82;
  preview_key = 84;
  preview_sha = 91;
}

submit_verified-resolve_example :
    resolve hash_of 2200 7 submitted.1 ≡ err (not_found link_unavailable)
unfolding runs
submit_verified-resolve_example =
    submit_verified-resolve hash_of digest_of 2100 7 verified signed submitted.1 pending_review refl
      2200

-- Another value of the answer voids the signing.
abbrev second_save : ℕ × Db
second_save =
    get_ok (save_public_draft hash_of digest_of 2000 7 (body_of 1 170 902) false signed)
      (0, no_rows)

save_public_draft-latest_valid_signing_example : latest_valid_signing 1 second_save.1 ≡ none
unfolding runs
save_public_draft-latest_valid_signing_example =
    save_public_draft-latest_valid_signing hash_of digest_of 2000 7 (body_of 1 170 902) false signed
      second_save.1 2 (some_link 20 1 7 5000) refl refl 900 902 refl refl (ground arith)

-- The same answer again keeps it.
abbrev same_save : ℕ × Db
same_save =
    get_ok (save_public_draft hash_of digest_of 2000 7 (body_of 1 170 900) false signed)
      (0, no_rows)

save_public_draft-same_content_example :
    latest_valid_signing 1 same_save.1 ≡ latest_valid_signing 1 signed
unfolding runs
save_public_draft-same_content_example =
    save_public_draft-same_content hash_of digest_of 2000 7 (body_of 1 170 900) false signed
      same_save.1 2 (some_link 20 1 7 5000)
      (record {
        case_id = 1;
        version = 1;
        base_version = 0;
        content = content_of (body_of 0 170 900);
        actor_type = customer_actor;
      })
      refl refl refl refl

-- A supplement of item 70; the other item's answer is sent again as it was.
abbrev supplement : Db
supplement = record (editing needs_supplement) {
  drafts =
      record {
        case_id = 1;
        version = 1;
        base_version = 0;
        content = content_of (body_of 0 171 900);
        actor_type = customer_actor;
      }
      ∷ [];
  reviews =
      record {
        case_id = 1;
        requirement_version = 70;
        decision = reject;
        reason = none;
        reviewer = 62;
        version = 1;
      }
      ∷ [];
}

abbrev supplied : ℕ × Db
supplied =
    get_ok (save_public_draft hash_of digest_of 2000 7 (body_of 1 171 900) false supplement)
      (0, no_rows)

save_public_draft-answer_example :
    answer 171 (previous_answers (latest_draft 1 supplement)) ≡ some 900
unfolding runs
save_public_draft-answer_example =
    save_public_draft-answer hash_of digest_of 2000 7 (body_of 1 171 900) false supplement
      supplied.1 2 (some_link 20 1 7 5000) (some_case needs_supplement (some 62)) refl refl refl
      refl 171 900 refl (ground arith) refl

-- A save that leaves out the answer of another item is accepted, and the new draft lacks that answer.
omitted_run :
    answer 171 (
      previous_answers (
        latest_draft 1
          (get_ok
            (save_public_draft hash_of digest_of 2000 7 (body_of 1 170 901) false supplement)
            (0, no_rows)).1))
    ≡ none
unfolding runs
omitted_run = refl

omitted_version_run :
    (get_ok
      (save_public_draft hash_of digest_of 2000 7 (body_of 1 170 901) false supplement)
      (0, no_rows)).0
    ≡ 2
unfolding runs
omitted_version_run = refl
