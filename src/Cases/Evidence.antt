-- ===== src/Cases/Evidence.antt =====
-- `CaseRepository` of apps/api/src/database/repositories/case.repository.ts: files and signings.
use authorization_document.Files.Capacity.{invalidate_signings, create_file}
use authorization_document.Model.Db.{Db, audit_as}
use authorization_document.Model.Rows.{
  Key, FileVersion, Time, Hash, Signing, file_version_added, TargetType, signing_invalidated,
  signing_recorded, file_version_appended,
}
use authorization_document.Model.Status.{
  customer_actor, system_actor, material, SignatureMode, ActorType,
}
use authorization_document.Base.{
  ℕ, ◌>>=◌, ◌>>◌, none, some, true, false, ◌∷◌, ok, Text, Option, Result, is_blank, Bool,
  from_option, greatest, require, ◌==◌, internal, ◌+◌, not, row_missing, reason_required, find,
  file_case_mismatch, ◌&&◌, any, update_where, ◌||◌, unique_violation,
}

-- What is stored of a file.
pub record StoredFile : Type 0 where
  pub version_id : Key
  pub original_name : Text
  pub mime_type : Key
  pub size_bytes : ℕ
  pub sha256 : Hash
  pub storage_key : Key
  pub actor_type : ActorType

abbrev pub material_version : Key → Key → ℕ → StoredFile → FileVersion
material_version file_id case_id version f = record {
  id = f.version_id;
  file_id = file_id;
  case_id = case_id;
  version = version;
  original_name = f.original_name;
  mime_type = f.mime_type;
  size_bytes = f.size_bytes;
  sha256 = f.sha256;
  storage_key = f.storage_key;
  actor_type = f.actor_type;
  purpose = material;
  draft_version = none;
  content_digest = none;
  original = none;
  cache_active = true;
}

-- `addFileVersion`
unfoldable pub add_file_version : Time → Key → Key → Option Key → StoredFile → Db → Result Db
unfolding create_file invalidate_signings
add_file_version now file_id case_id requirement f db = do
  created ←
      create_file
        (record {
          id = file_id;
          case_id = case_id;
          requirement_version = requirement;
          removed_at = none;
        })
        (material_version file_id case_id 1 f) db
  ok (
      audit_as f.actor_type file_version_added TargetType.business_case case_id
        (invalidate_signings now case_id created))

abbrev pub of_file : Key → FileVersion → Bool
of_file id v = v.file_id == id

-- `appendFileVersion`
unfoldable pub append_file_version : Time → Key → Key → StoredFile → Db → Result Db
unfolding invalidate_signings
append_file_version now file_id case_id f db = do
  file ← from_option (internal row_missing) (find (λ r. r.id == file_id) db.files)
  require (file.case_id == case_id) (internal file_case_mismatch)
  require (not (any (λ w. w.id == f.version_id || w.storage_key == f.storage_key) db.versions))
      (internal unique_violation)
  ok (
      audit_as f.actor_type file_version_appended TargetType.business_case case_id (
        invalidate_signings now case_id (record db {
          versions =
              material_version file_id case_id
                (greatest (λ v. v.version) (of_file file_id) db.versions + 1) f
              ∷ db.versions;
        })))

pub record SigningInput : Type 0 where
  pub case_id : Key
  pub mode : SignatureMode
  pub resource : Key
  pub draft_version : Option ℕ
  pub content_digest : Option Hash
  pub preview : Key
  pub preview_sha : Hash

-- The digest of 64 zeros.
abbrev pub zero_digest : Hash
zero_digest = 0

abbrev or_zero : Option ℕ → ℕ
or_zero none = 0
or_zero (some n) = n

abbrev pub is_signing_of : Key → Signing → Bool
is_signing_of id s = s.case_id == id

abbrev pub next_signing : Key → SigningInput → Db → Signing
next_signing id input db = record {
  id = id;
  case_id = input.case_id;
  version = greatest (λ s. s.version) (is_signing_of input.case_id) db.signings + 1;
  draft_version = or_zero input.draft_version;
  content_digest = or_zero input.content_digest;
  mode = input.mode;
  resource = input.resource;
  preview = input.preview;
  preview_sha = input.preview_sha;
  valid = true;
  invalidated_at = none;
}

-- `recordSigning`
unfoldable pub record_signing : Key → SigningInput → Db → Result Db
record_signing id input db = do
  resource ← from_option (internal row_missing) (find (λ v. v.id == input.resource) db.versions)
  preview ← from_option (internal row_missing) (find (λ v. v.id == input.preview) db.versions)
  require (resource.case_id == input.case_id && preview.case_id == input.case_id)
      (internal file_case_mismatch)
  ok (
      audit_as customer_actor signing_recorded TargetType.business_case input.case_id
        (record db { signings = next_signing id input db ∷ db.signings }))

-- `invalidateSigning`
unfoldable pub invalidate_signing : Key → Text → Time → Db → Result Db
unfolding is_blank
invalidate_signing id reason at db = do
  require (not (is_blank (some reason))) (internal reason_required)
  signing ← from_option (internal row_missing) (find (λ s. s.id == id) db.signings)
  ok (
      audit_as system_actor signing_invalidated TargetType.business_case signing.case_id
        (record db {
          signings =
              update_where (λ s. s.id == id)
                (λ s. record s { valid = false; invalidated_at = some at }) db.signings;
        }))
