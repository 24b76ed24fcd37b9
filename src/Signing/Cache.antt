-- ===== src/Signing/Cache.antt =====
-- The cache of previews in apps/api/src/cases/case.service.ts: what `renderAndPersistPresign` writes,
-- and `validPresignCache`.
use authorization_document.Storage.Content.{Bytes}
use authorization_document.Files.Incoming.{NewIds, Stored}
use authorization_document.Files.Capacity.{
  is_active, has_active_file, evidence_retained_bytes, create_file, case_file_capacity_bytes,
}
use authorization_document.Model.Db.{Db}
use authorization_document.Model.Status.{presign_pdf, system_actor, same_purpose}
use authorization_document.Model.Rows.{Key, Hash, Time, FileVersion, pdf_type, FileRecord}
use authorization_document.Base.{
  find, List, [], ◌∷◌, Option, none, some, Bool, true, false, ℕ, ◌==◌, ◌&&◌, same_id, update_where,
  any, filter, map, not, codes, Result, ok, require, leb, ◌+◌, bad_request, case_capacity_exceeded,
  count, if◌then◌else◌, length, ◌>>=◌, ◌>>◌,
}

-- The first item and the second are left out, as `slice(2)` does.
abbrev pub slice_two {ℓ} : {A : Type ℓ} → List A → List A
slice_two [] = []
slice_two (x ∷ []) = []
slice_two (x ∷ y ∷ rest) = rest

-- `purpose: PRESIGN_PDF, cacheActive: true, file: { removedAt: null }`
unfoldable pub is_cached : Key → Db → FileVersion → Bool
unfolding has_active_file
is_cached case_id db v =
    v.case_id == case_id
    && same_purpose v.purpose presign_pdf
    && v.cache_active
    && has_active_file db v

-- A preview of these contents; the rows stand with the newest first.
unfoldable pub find_cached : Key → Hash → Db → Option FileVersion
unfolding is_cached
find_cached case_id digest db =
    find (λ v. is_cached case_id db v && same_id v.content_digest (some digest)) db.versions

-- Versions that are disabled, and files that are removed.
unfoldable pub turn_away : Time → (FileVersion → Bool) → (FileRecord → Bool) → Db → Db
turn_away now goes gone db = record db {
  versions = update_where goes (λ v. record v { cache_active = false }) db.versions;
  files = update_where gone (λ f. record f { removed_at = some now }) db.files;
}

abbrev pub is_retired : List FileVersion → FileVersion → Bool
is_retired retired v = any (λ r. r.id == v.id) retired && v.cache_active

-- `if (retired.length) { … }`
unfoldable pub retire : Time → Key → List FileVersion → Db → Db
unfolding turn_away
retire now case_id retired db =
    turn_away now (is_retired retired)
      (λ f. any (λ r. r.file_id == f.id) retired && f.case_id == case_id && is_active f) db

-- All but the two newest previews of a case.
unfoldable pub retired_previews : Key → Db → List FileVersion
unfolding is_cached
retired_previews case_id db = slice_two (filter (is_cached case_id db) db.versions)

-- The storage keys of the previews that are retired and that no signing names.
unfoldable pub retired_keys : List FileVersion → Db → List Key
retired_keys retired db =
    map (λ v. v.storage_key) (filter (λ v. not (any (λ s. s.preview == v.id) db.signings)) retired)

pub record Rendered : Type 0 where
  pub size : ℕ
  pub digest : Hash
  pub draft_version : ℕ

pub record Persisted : Type 0 where
  pub version : FileVersion
  pub reused : Bool
  pub removed_keys : List Key

-- The row of a new preview.
abbrev pub preview_version : NewIds → Key → Rendered → Stored → FileVersion
preview_version ids case_id r stored = record {
  id = ids.version_id;
  file_id = ids.file_id;
  case_id = case_id;
  version = 1;
  original_name = codes "签署前预览.pdf";
  mime_type = pdf_type;
  size_bytes = r.size;
  sha256 = stored.sha256;
  storage_key = stored.storage_key;
  actor_type = system_actor;
  purpose = presign_pdf;
  draft_version = some r.draft_version;
  content_digest = some r.digest;
  original = none;
  cache_active = true;
}

-- A new preview, after the cache has made room for it.
unfoldable pub add_preview : Time → NewIds → Key → Rendered → Stored → Db → Result (Persisted × Db)
unfolding retired_previews retired_keys retire evidence_retained_bytes create_file
add_preview now ids case_id r stored db = do
  let retired = retired_previews case_id db
  let kept = retire now case_id retired db
  require (leb (evidence_retained_bytes case_id kept + r.size) case_file_capacity_bytes)
      (bad_request case_capacity_exceeded)
  db' ←
      create_file
        (record {
          id = ids.file_id;
          case_id = case_id;
          requirement_version = none;
          removed_at = none;
        })
        (preview_version ids case_id r stored) kept
  ok (
    record {
      version = preview_version ids case_id r stored;
      reused = false;
      removed_keys = retired_keys retired db;
    },
    db',
  )

-- `if (existing) return { …, reused: true }`
abbrev pub cached_or : Option FileVersion → Db → Result (Persisted × Db) → Result (Persisted × Db)
cached_or none db next = next
cached_or (some v) db next = ok (record { version = v; reused = true; removed_keys = [] }, db)

-- What the storage does not hold as it was recorded is disabled, and its file removed with it.
unfoldable pub drop_cached : Time → FileVersion → Db → Db
unfolding turn_away
drop_cached now v db =
    let this = λ (w : FileVersion). w.id == v.id && w.cache_active in
    let removes = count this db.versions == 1 in
    turn_away now this (λ f. removes && f.id == v.file_id && is_active f) db

-- `bytes.length && sha256(bytes) === version.sha256`
abbrev pub holds_preview : (Bytes → Hash) → Option Bytes → FileVersion → Bool
holds_preview sha none v = false
holds_preview sha (some bytes) v = not (length bytes == 0) && sha bytes == v.sha256

-- The cached version, where the storage holds it.
abbrev pub check_cached :
    (Bytes → Hash) → (Key → Option Bytes) → Time → Option FileVersion → Db → Option FileVersion × Db
check_cached sha storage now none db = (none, db)
check_cached sha storage now (some v) db =
    if holds_preview sha (storage v.storage_key) v
    then (some v, db)
    else (none, drop_cached now v db)

-- `validPresignCache`: `storage` is what can be read under a key.
unfoldable pub valid_presign_cache :
    (Bytes → Hash) → (Key → Option Bytes) → Time → Key → Hash → Db → Option FileVersion × Db
unfolding find_cached drop_cached
valid_presign_cache sha storage now case_id digest db =
    check_cached sha storage now (find_cached case_id digest db) db
