-- ===== src/Tests/FileTests.antt =====
-- Runs of the customer's files.
use authorization_document.Files.Capacity.{invalidate_signings}
use authorization_document.Review.Confirm.{latest_valid_signing}
use authorization_document.Links.Access.{resolve}
use authorization_document.Files.Removed.{remove_public-remove_public}
use authorization_document.Files.Removal.{remove_public, has_material, remove_file, removal_writes}
use authorization_document.Tests.Data.{no_rows, one_case, get_ok, hash_of, some_link}
use authorization_document.Model.Db.{Db}
use authorization_document.Model.Rows.{pdf_type, FileRecord, FileVersion}
use authorization_document.Model.Status.{customer_editing, customer_actor, material}
use authorization_document.Base.{
  refl, none, some, true, [], ◌∷◌, err, find, ◌≡◌, any, count, update_where, find_latest, not_found,
  file_missing,
}

runs : Unit {0}
unfolding find any count update_where find_latest resolve has_material remove_file removal_writes
    remove_public invalidate_signings latest_valid_signing
runs = tt

abbrev letter : FileRecord
letter = record { id = 83; case_id = 1; requirement_version = some 70; removed_at = none }

abbrev letter_version : FileVersion
letter_version = record {
  id = 82;
  file_id = 83;
  case_id = 1;
  version = 1;
  original_name = [];
  mime_type = pdf_type;
  size_bytes = 10;
  sha256 = 91;
  storage_key = 84;
  actor_type = customer_actor;
  purpose = material;
  draft_version = none;
  content_digest = none;
  original = none;
  cache_active = true;
}

abbrev with_letter : Db
with_letter = record (one_case customer_editing none) {
  files = letter ∷ [];
  versions = letter_version ∷ [];
}

abbrev removed : Db
removed = get_ok (remove_public hash_of 1000 7 83 with_letter) no_rows

-- The file is there, and marked as removed.
removed_run : removed.files ≡ (record letter { removed_at = some 1000 } ∷ [])
unfolding runs
removed_run = refl

remove_public-remove_public_example :
    (latest_valid_signing 1 removed ≡ none)
    × (remove_public hash_of 1100 7 83 removed ≡ err (not_found file_missing))
unfolding runs
remove_public-remove_public_example =
    remove_public-remove_public hash_of 1000 1100 7 7 83 with_letter removed (some_link 20 1 7 5000)
      (some_link 20 1 7 5000) refl refl refl refl
