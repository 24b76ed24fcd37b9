-- ===== src/Files/Uploads.antt =====
-- `uploadPublic`, `uploadSigningResource`, `get` and `getPublic` of
-- apps/api/src/files/file.service.ts.
use authorization_document.Files.Incoming.{
  NewIds, find_entry, validate_incoming, IncomingFile, Stored, find_duplicate, Upload, count_files,
  first_version, reuse_or, created,
}
use authorization_document.Links.Access.{resolve}
use authorization_document.Files.Capacity.{
  create_file, has_active_file, invalidate_signings, evidence_retained_bytes,
}
use authorization_document.Model.Rows.{Key, Hash, FileVersion, Time, png_type, jpeg_type}
use authorization_document.Model.Status.{
  material, handwritten, seal_original, seal_processed, FilePurpose, same_purpose,
}
use authorization_document.Review.Confirm.{latest_snapshot}
use authorization_document.Base.{
  ok, ◌>>=◌, ◌>>◌, none, some, true, false, ℕ, Option, Bool, find, Result, same_id, ◌==◌, leb, ◌||◌,
  ◌&&◌, is_some, from_option, not_found, bad_request, require, file_missing,
  requirement_not_in_case, storage_mismatch, seal_original_missing, not, file_too_large, ◌+◌,
  file_count_or_size_exceeded, case_capacity_exceeded, file_type_not_allowed,
  resource_mode_mismatch, same_bool, seal_original_required,
}
use authorization_document.Model.Db.{Db}
use authorization_document.Storage.Policy.{
  PartialLimits, FileLimits, max_material_files, max_case_bytes, effective_file_limits,
}
use authorization_document.Storage.Content.{Bytes}

-- The two limits on the number of files, and the two on the bytes of a case.
unfoldable pub is_within : FileLimits → ℕ → ℕ → Bool
is_within limits files bytes =
    leb files max_material_files
    && leb files limits.max_files
    && leb bytes max_case_bytes
    && leb bytes limits.max_case

-- A new file with its version; an upload of material voids the signings.
unfoldable pub add_material :
    Time → NewIds → Key → Key → IncomingFile → Hash → Stored → Db → Result (Upload × Db)
unfolding create_file invalidate_signings
add_material now ids case_id requirement f sha stored db = do
  db' ←
      create_file
        (record {
          id = ids.file_id;
          case_id = case_id;
          requirement_version = some requirement;
          removed_at = none;
        })
        (first_version ids case_id f sha stored material none) db
  ok (created ids, invalidate_signings now case_id db')

unfoldable pub add_resource :
    NewIds → Key → IncomingFile → Stored → FilePurpose → Option Key → Db → Result (Upload × Db)
unfolding create_file
add_resource ids case_id f stored purpose original db = do
  db' ←
      create_file
        (record {
          id = ids.file_id;
          case_id = case_id;
          requirement_version = none;
          removed_at = none;
        })
        (first_version ids case_id f stored.sha256 stored purpose original) db
  ok (created ids, db')

-- The purposes that `uploadSigningResource` takes.
abbrev pub is_signing_purpose : FilePurpose → Bool
is_signing_purpose handwritten = true
is_signing_purpose seal_original = true
is_signing_purpose seal_processed = true
is_signing_purpose _ = false

abbrev pub is_seal_original : Key → Key → Db → FileVersion → Bool
is_seal_original id case_id db v =
    v.id == id
    && v.case_id == case_id
    && same_purpose v.purpose seal_original
    && has_active_file db v

-- A processed seal names its original.
unfoldable pub original_found : FilePurpose → Option Key → Key → Db → Bool
unfolding has_active_file
original_found seal_processed (some id) case_id db =
    is_some (find (is_seal_original id case_id db) db.versions)
original_found seal_processed none case_id db = false
original_found _ original case_id db = true

unfoldable pub find_resource_duplicate :
    Key → FilePurpose → Hash → Option Key → Db → Option FileVersion
unfolding has_active_file
find_resource_duplicate case_id purpose sha original db =
    find
      (λ v.
        v.case_id == case_id
        && same_purpose v.purpose purpose
        && v.sha256 == sha
        && same_id v.original original
        && has_active_file db v)
      db.versions

-- `get`: `exists` says whether the storage holds a key.
unfoldable pub get_version : (Key → Bool) → Key → Key → Bool → Db → Result FileVersion
unfolding has_active_file
get_version exists case_id version_id active_only db = do
  v ← from_option (not_found file_missing) (
      find
        (λ v.
          v.id == version_id && v.case_id == case_id && (not active_only || has_active_file db v))
        db.versions)
  require (exists v.storage_key) (not_found file_missing)
  ok v

-- `getPublic`
unfoldable pub get_public : (Key → Hash) → (Key → Bool) → Time → Key → Key → Db → Result FileVersion
unfolding resolve get_version
get_public digest exists now token version_id db = do
  link ← resolve digest now token db
  get_version exists link.case_id version_id true db

-- `sha` is SHA-256, and `catalog` the limits that the definition of an item's version holds under
-- `maxFileBytes`, `maxFiles` and `maxCaseBytes`.
module _ (digest : Key → Hash) (sha : Bytes → Hash) where
  -- The transaction of `uploadPublic`.
  unfoldable pub store_material :
      (Key → PartialLimits)
      → Time
      → Key
      → Key
      → IncomingFile
      → NewIds
      → Stored
      → Db
      → Result (Upload × Db)
  unfolding resolve latest_snapshot find_entry effective_file_limits find_duplicate count_files
      is_within evidence_retained_bytes add_material
  store_material catalog now token reference f ids stored db = do
    link ← resolve digest now token db
    entry ←
        from_option (bad_request requirement_not_in_case)
          (find_entry reference (latest_snapshot link.case_id db))
    let limits = effective_file_limits (catalog entry.requirement_version)
    require (leb f.size limits.max_file) (bad_request file_too_large)
    reuse_or (find_duplicate link.case_id entry.requirement_version (sha f.buffer) db) db (do
      require
          (is_within limits (count_files link.case_id entry.requirement_version db + 1)
            (evidence_retained_bytes link.case_id db + f.size))
          (bad_request file_count_or_size_exceeded)
      add_material now ids link.case_id entry.requirement_version f (sha f.buffer) stored db)

  -- The whole; `later` is the state of the tables when the transaction runs.
  unfoldable pub upload_public :
      (Key → PartialLimits)
      → Time
      → Time
      → Key
      → Key
      → IncomingFile
      → NewIds
      → Stored
      → Db
      → Db
      → Result (Upload × Db)
  unfolding validate_incoming resolve store_material
  upload_public catalog now then_now token reference f ids stored db later = do
    validate_incoming f
    resolve digest now token db
    require (stored.sha256 == sha f.buffer) (bad_request storage_mismatch)
    store_material catalog then_now token reference f ids stored later

  -- The transaction of `uploadSigningResource`.
  unfoldable pub store_resource :
      Time
      → Key
      → FilePurpose
      → IncomingFile
      → Option Key
      → NewIds
      → Stored
      → Db
      → Result (Upload × Db)
  unfolding resolve original_found find_resource_duplicate evidence_retained_bytes add_resource
  store_resource now token purpose f original ids stored db = do
    link ← resolve digest now token db
    require (original_found purpose original link.case_id db) (bad_request seal_original_missing)
    reuse_or (find_resource_duplicate link.case_id purpose (sha f.buffer) original db) db (do
      require (leb (evidence_retained_bytes link.case_id db + f.size) max_case_bytes)
          (bad_request case_capacity_exceeded)
      add_resource ids link.case_id f stored purpose original db)

  unfoldable pub upload_signing_resource :
      Time
      → Time
      → Key
      → FilePurpose
      → IncomingFile
      → Option Key
      → NewIds
      → Stored
      → Db
      → Db
      → Result (Upload × Db)
  unfolding validate_incoming resolve store_resource
  upload_signing_resource now then_now token purpose f original ids stored db later = do
    validate_incoming f
    require (f.mime_type == png_type || f.mime_type == jpeg_type)
        (bad_request file_type_not_allowed)
    require (is_signing_purpose purpose) (bad_request resource_mode_mismatch)
    require (same_bool (same_purpose purpose seal_processed) (is_some original))
        (bad_request seal_original_required)
    resolve digest now token db
    require (stored.sha256 == sha f.buffer) (bad_request storage_mismatch)
    store_resource then_now token purpose f original ids stored later
