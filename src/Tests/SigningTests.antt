-- ===== src/Tests/SigningTests.antt =====
-- Runs of the signing, up to the submission.
use authorization_document.Drafts.Save.{
  save_public_draft, answer, is_allowed, is_foreign_change, assert_supplement_only, content_of,
  save_writes, digest_before,
}
use authorization_document.Files.Capacity.{has_active_file, invalidate_signings}
use authorization_document.Signing.Completed.{prepare_signing-submit_public}
use authorization_document.Review.Confirm.{latest_snapshot}
use authorization_document.Tests.DraftTests.{digest_of, first_save, preview_one}
use authorization_document.Drafts.Content.{
  latest_draft, prepare_input, content_digest, active_materials, render_file, sort_versions,
}
use authorization_document.Drafts.Submit.{submit_public}
use authorization_document.Signing.Submittable.{IsKeyed}
use authorization_document.Signing.Command.{
  SigningCommand, validate_signing_command, printed_as, seal_mode, validate_resource_binding,
}
use authorization_document.Signing.Prepare.{
  prepare_signing, check_signing, sign_checked, recheck, sign_rows, required_original,
  original_again, find_resource, find_preview, resource_again, preview_again, signing_writes,
}
use authorization_document.Tests.TemplateTests.{party_a, by_hand}
use authorization_document.Links.Access.{resolve, consume}
use authorization_document.Tests.Data.{hash_of, no_rows, get_ok, some_link}
use authorization_document.Model.Db.{Db}
use authorization_document.Model.Rows.{Key, Hash, Json, FileVersion, FileRecord, png_type}
use authorization_document.Model.Status.{customer_actor, handwritten, CaseStatus}
use authorization_document.Base.{
  ok, none, some, true, refl, [], ◌∷◌, find, Option, List, ℕ, ◌≡◌, any, codes, if◌then◌else◌, count,
  ◌==◌, update_where, find_latest, filter, greatest, arith,
}
use authorization_document.Templates.Tree.{Slot}

runs : Unit {0}
unfolding find any count update_where find_latest filter greatest resolve consume latest_draft
    latest_snapshot prepare_input content_digest active_materials render_file sort_versions
    has_active_file save_public_draft answer is_allowed is_foreign_change assert_supplement_only
    content_of save_writes digest_before invalidate_signings prepare_signing check_signing
    sign_checked recheck sign_rows required_original original_again find_resource find_preview
    resource_again preview_again validate_signing_command validate_resource_binding signing_writes
runs = tt

-- The draft of the customer, with a drawn signature and a preview of it.
abbrev drawn : FileVersion
drawn = record {
  id = 91;
  file_id = 90;
  case_id = 1;
  version = 1;
  original_name = codes "stamp.png";
  mime_type = png_type;
  size_bytes = 16;
  sha256 = 16;
  storage_key = 92;
  actor_type = customer_actor;
  purpose = handwritten;
  draft_version = none;
  content_digest = none;
  original = none;
  cache_active = true;
}

abbrev file_of_case : Key → FileRecord
file_of_case id = record { id = id; case_id = 1; requirement_version = none; removed_at = none }

abbrev ready : Db
ready = record first_save.1 {
  files = file_of_case 90 ∷ file_of_case 83 ∷ [];
  versions = drawn ∷ preview_one ∷ [];
}

abbrev stored : Key → Option Hash
stored key = if key == 84 then some 91 else if key == 92 then some 16 else none

abbrev slots : Json → List Slot
slots ast = party_a ∷ []

abbrev prepared : ℕ × Db
prepared =
    get_ok
      (prepare_signing hash_of digest_of slots stored 1000 1001 70 7 (some by_hand) ready ready)
      (0, no_rows)

prepared_run : prepared.0 ≡ 1
unfolding runs
prepared_run = refl

-- A body whose mode is an array with the text of a mode passes the check of the command, and then a
-- drawn signature passes for a seal without an original.
printed_mode_run :
    (c : SigningCommand) × (validate_signing_command
        (some (record by_hand { mode = printed_as seal_mode }))
        (party_a ∷ [])
      ≡ ok c)
    × (validate_resource_binding c.mode handwritten none none ≡ ok tt)
unfolding runs
printed_mode_run = (
  record {
    mode = printed_as seal_mode;
    resource_id = 90;
    resource_version = 1;
    positions =
        record { slot_id = codes "a"; page = 2; x = 120; y = 710; width = 100; height = 40 } ∷ [];
    seal_original = none;
  },
  refl,
  refl,
)

ready-IsKeyed : IsKeyed hash_of digest_of slots ready
unfolding runs
ready-IsKeyed = record {
  versions_unique = λ k. ground arith;
  links_unique = λ k. ground arith;
  previews_pdf = λ k v e p. ground arith;
}

prepare_signing-submit_public_example :
    (s : CaseStatus) × (db : Db) × (submit_public hash_of digest_of stored 2000 2100 7
        (record { consent = true; declaration = true; signing_version = 1 })
        prepared.1
        prepared.1
      ≡ ok (s, db))
unfolding runs
prepare_signing-submit_public_example =
    prepare_signing-submit_public hash_of digest_of slots stored 1000 1001 2000 2100 70 7
      (some by_hand) ready ready prepared.1 1 (some_link 20 1 7 5000) (some_link 20 1 7 5000)
      ready-IsKeyed refl refl refl
