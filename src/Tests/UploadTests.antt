-- ===== src/Tests/UploadTests.antt =====
-- Runs of the uploads and of the checks of a file.
use authorization_document.Tests.DraftTests.{digest_of}
use authorization_document.Review.Confirm.{latest_snapshot}
use authorization_document.Files.Within.{IsStored}
use authorization_document.Files.Capacity.{
  evidence_retained_bytes, invalidate_signings, has_active_file, create_file,
}
use authorization_document.Files.Uploads.{upload_public, store_material, is_within}
use authorization_document.Storage.Policy.{PartialLimits, validate_file_metadata}
use authorization_document.Files.Incoming.{
  IncomingFile, NewIds, Stored, Upload, validate_incoming, find_entry, find_duplicate, count_files,
}
use authorization_document.Storage.Content.{
  Bytes, validate_file_content, is_valid_content, validate_file_content-eq-valid,
}
use authorization_document.Links.Access.{resolve}
use authorization_document.Files.Steps.{upload, here, next, steps-IsStored}
use authorization_document.Tests.Data.{hash_of, one_case, get_ok, no_rows}
use authorization_document.Model.Db.{Db}
use authorization_document.Model.Rows.{Key, Hash, png_type}
use authorization_document.Model.Status.{customer_editing}
use authorization_document.Base.{
  none, true, false, refl, [], ◌∷◌, err, find, ◌≡◌, any, length, count, update_where, find_latest,
  codes, is_among, sum_of, is_space, arith, require, bad_request, file_name_invalid,
  file_content_invalid, trim, starts_with, includes,
}

runs : Unit {0}
unfolding find any count update_where find_latest resolve upload_public validate_file_content
    validate_incoming store_material invalidate_signings latest_snapshot is_among is_space trim
    starts_with includes sum_of has_active_file evidence_retained_bytes create_file find_entry
    find_duplicate count_files is_within
runs = tt

-- A picture of sixteen bytes.
abbrev picture : Bytes
picture = 0x89 ∷ 0x50 ∷ 0x4e ∷ 0x47 ∷ 0x0d ∷ 0x0a ∷ 0x1a ∷ 0x0a ∷ 0 ∷ 0 ∷ 0 ∷ 0 ∷ codes "IEND"

abbrev incoming : IncomingFile
incoming = record {
  original_name = codes "stamp.png";
  mime_type = png_type;
  size = 16;
  buffer = picture;
}

abbrev with_item : Db
with_item = record (one_case customer_editing none) {
  snapshots =
      record {
        case_id = 1;
        version = 1;
        template_version = 50;
        materials = 0;
        requirements = record { requirement_version = 70; key = 71 } ∷ [];
      }
      ∷ [];
}

abbrev no_limits : Key → PartialLimits
no_limits k = record { file = none; files = none; case = none }

abbrev new_ids : NewIds
new_ids = record { file_id = 90; version_id = 91 }

abbrev written : Stored
written = record { sha256 = 16; storage_key = 92 }

abbrev size_of : Bytes → Hash
size_of = length

abbrev no_upload : Upload
no_upload = record { file_id = 0; version_id = 0; version = 0; reused = false }

abbrev uploaded : Upload × Db
uploaded =
    get_ok
      (upload_public hash_of size_of no_limits 1000 1001 7 71 incoming new_ids written with_item
        with_item)
      (no_upload, no_rows)

uploaded_run : (uploaded.0.reused ≡ false) × (length uploaded.1.versions ≡ 1)
unfolding runs
uploaded_run = (refl, refl)

reused_run :
    (get_ok
      (upload_public hash_of size_of no_limits 1000 1001 7 70 incoming
        (record { file_id = 95; version_id = 96 })
        written
        uploaded.1
        uploaded.1)
      (no_upload, no_rows)).0.reused
    ≡ true
unfolding runs
reused_run = refl

bad_name_run :
    validate_file_metadata (codes "a.exe.png") png_type 3 ≡ err (bad_request file_name_invalid)
unfolding validate_file_metadata is_among is_space any
bad_name_run = refl

with_item-IsStored : IsStored with_item
unfolding evidence_retained_bytes sum_of
with_item-IsStored = record {
  linked = record { files_known = tt; resources_known = tt; previews_known = tt };
  within = λ c. omega arith;
}

steps-IsStored_example : IsStored uploaded.1
unfolding runs
steps-IsStored_example =
    steps-IsStored hash_of size_of digest_of no_limits with_item-IsStored
      (next here (upload 1000 1001 7 71 incoming new_ids written with_item uploaded.0 refl))

validate_file_content-eq-valid_example :
    validate_file_content picture png_type
    ≡ require (is_valid_content picture png_type) (bad_request file_content_invalid)
validate_file_content-eq-valid_example = validate_file_content-eq-valid picture png_type
