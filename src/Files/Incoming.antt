-- ===== src/Files/Incoming.antt =====
-- The data and the queries of the uploads of apps/api/src/files/file.service.ts.
use authorization_document.Files.Capacity.{is_active}
use authorization_document.Model.Rows.{
  Key, Hash, FileRecord, FileVersion, Snapshot, SnapshotRequirement,
}
use authorization_document.Model.Status.{customer_actor, material, FilePurpose, same_purpose}
use authorization_document.Base.{
  ok, ◌>>◌, none, some, true, false, Text, ℕ, Option, Bool, find, count, Result, same_id, ◌==◌,
  ◌||◌, ◌&&◌, any,
}
use authorization_document.Model.Db.{Db}
use authorization_document.Storage.Policy.{validate_file_metadata}
use authorization_document.Storage.Content.{Bytes, validate_file_content}

pub record IncomingFile : Type 0 where
  pub original_name : Text
  pub mime_type : Key
  pub size : ℕ
  pub buffer : Bytes

-- What `storage.write` returns.
pub record Stored : Type 0 where
  pub sha256 : Hash
  pub storage_key : Key

-- The identifiers that are drawn at random.
pub record NewIds : Type 0 where
  pub file_id : Key
  pub version_id : Key

pub record Upload : Type 0 where
  pub file_id : Key
  pub version_id : Key
  pub version : ℕ
  pub reused : Bool

-- `validateIncoming`
unfoldable pub validate_incoming : IncomingFile → Result (Unit {0})
unfolding validate_file_metadata validate_file_content
validate_incoming f = do
  validate_file_metadata f.original_name f.mime_type f.size
  validate_file_content f.buffer f.mime_type

-- The item that a reference names, by its version or by its requirement's key.
unfoldable pub find_entry : Key → Option Snapshot → Option SnapshotRequirement
find_entry reference none = none
find_entry reference (some s) =
    find (λ r. r.requirement_version == reference || r.key == reference) s.requirements

-- `file: { requirementVersionId, removedAt: null }`
abbrev is_active_for : Key → FileRecord → Bool
is_active_for requirement f = same_id f.requirement_version (some requirement) && is_active f

unfoldable pub find_duplicate : Key → Key → Hash → Db → Option FileVersion
find_duplicate case_id requirement sha db =
    find
      (λ v.
        v.case_id == case_id
        && same_purpose v.purpose material
        && v.sha256 == sha
        && any (λ f. f.id == v.file_id && f.case_id == v.case_id && is_active_for requirement f)
            db.files)
      db.versions

unfoldable pub count_files : Key → Key → Db → ℕ
count_files case_id requirement db =
    count (λ f. f.case_id == case_id && is_active_for requirement f) db.files

-- The first version of an uploaded file.
abbrev pub first_version :
    NewIds → Key → IncomingFile → Hash → Stored → FilePurpose → Option Key → FileVersion
first_version ids case_id f sha stored purpose original = record {
  id = ids.version_id;
  file_id = ids.file_id;
  case_id = case_id;
  version = 1;
  original_name = f.original_name;
  mime_type = f.mime_type;
  size_bytes = f.size;
  sha256 = sha;
  storage_key = stored.storage_key;
  actor_type = customer_actor;
  purpose = purpose;
  draft_version = none;
  content_digest = none;
  original = original;
  cache_active = true;
}

abbrev pub reuse : FileVersion → Upload
reuse v = record { file_id = v.file_id; version_id = v.id; version = v.version; reused = true }

abbrev pub created : NewIds → Upload
created ids = record {
  file_id = ids.file_id;
  version_id = ids.version_id;
  version = 1;
  reused = false;
}

-- `if (duplicate) return { …, reused: true }`
abbrev pub reuse_or : Option FileVersion → Db → Result (Upload × Db) → Result (Upload × Db)
reuse_or none db next = next
reuse_or (some v) db next = ok (reuse v, db)
