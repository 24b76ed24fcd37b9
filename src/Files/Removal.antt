-- ===== src/Files/Removal.antt =====
-- `removePublic`, `recordDownload` and `authorizeDownload` of apps/api/src/files/file.service.ts.
use authorization_document.Links.Access.{resolve}
use authorization_document.Files.Capacity.{is_active, invalidate_signings}
use authorization_document.Model.Db.{Db, append_audit, audit_as}
use authorization_document.Model.Rows.{
  Key, user, FileRecord, Time, Hash, AuditSource, public_h5, Action, download_authorized, admin_api,
  file_downloaded, file_download_failed, TargetType, file_removed,
}
use authorization_document.Model.Status.{customer_actor, material, ActorType, same_purpose}
use authorization_document.Base.{
  ◌>>=◌, ◌>>◌, some, ok, Bool, List, Option, any, ◌==◌, update_where, Result, if◌then◌else◌, ◌&&◌,
  from_option, not_found, option_map, file_missing, find, require, count,
}

-- `versions: { some: { purpose: MATERIAL } }`
unfoldable pub has_material : Db → FileRecord → Bool
has_material db f =
    any (λ v. v.file_id == f.id && v.case_id == f.case_id && same_purpose v.purpose material)
      db.versions

abbrev pub is_removable : Key → Key → FileRecord → Bool
is_removable file_id case_id f = f.id == file_id && f.case_id == case_id && is_active f

unfoldable pub remove_file : Time → Key → Key → List FileRecord → List FileRecord
remove_file now file_id case_id files =
    update_where (is_removable file_id case_id) (λ f. record f { removed_at = some now }) files

-- The writes of a removal.
unfoldable pub removal_writes : Time → Key → Key → Db → Db
unfolding remove_file invalidate_signings
removal_writes now file_id case_id db =
    audit_as customer_actor file_removed TargetType.file_record file_id (
      invalidate_signings now case_id
        (record db { files = remove_file now file_id case_id db.files }))

-- `removePublic`
unfoldable pub remove_public : (Key → Hash) → Time → Key → Key → Db → Result Db
unfolding resolve has_material removal_writes
remove_public digest now token file_id db = do
  link ← resolve digest now token db
  found ←
      from_option (not_found file_missing)
        (find (λ f. is_removable file_id link.case_id f && has_material db f) db.files)
  require (count (is_removable file_id link.case_id) db.files == 1) (not_found file_missing)
  ok (removal_writes now file_id link.case_id db)

abbrev source_for : ActorType → AuditSource
source_for customer_actor = public_h5
source_for _ = admin_api

abbrev download_audit : ActorType → Option Key → Action → Key → Db → Db
download_audit actor_type actor action version = append_audit (record {
  actor_user = option_map user actor;
  actor_type = some actor_type;
  action = action;
  target_type = TargetType.file_version;
  target = version;
  source = some (source_for actor_type);
})

-- `recordDownload`
unfoldable pub record_download : ActorType → Option Key → Bool → Key → Db → Db
record_download actor_type actor success version =
    download_audit actor_type actor (if success then file_downloaded else file_download_failed)
      version

-- `authorizeDownload`
unfoldable pub authorize_download : ActorType → Option Key → Key → Db → Db
authorize_download actor_type actor version =
    download_audit actor_type actor download_authorized version
