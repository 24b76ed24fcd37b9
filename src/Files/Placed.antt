-- ===== src/Files/Placed.antt =====
-- What each upload and each removal of apps/api/src/files/file.service.ts keeps.
use authorization_document.Files.Incoming.{
  Upload, NewIds, IncomingFile, reuse_or, Stored, first_version, find_entry, find_duplicate,
  count_files,
}
use authorization_document.Review.Confirm.{latest_snapshot}
use authorization_document.Links.Access.{resolve}
use authorization_document.Storage.Policy.{
  PartialLimits, FileLimits, max_case_bytes, effective_file_limits,
}
use authorization_document.Files.Uploads.{
  store_material, store_resource, add_material, add_resource, is_within, original_found,
  find_resource_duplicate,
}
use authorization_document.Files.Within.{
  IsStored, invalidate-IsStored, removed_retained, create_file-IsStored,
}
use authorization_document.Storage.Content.{Bytes}
use authorization_document.Files.Removal.{remove_file, removal_writes, is_removable}
use authorization_document.Files.Capacity.{
  evidence_retained_bytes, is_retained, has_active_file, create_file, invalidate_signings,
}
use authorization_document.Model.Db.{Db}
use authorization_document.Model.Rows.{Key, Hash, Time, AuditEvent, FileVersion, FileRecord}
use authorization_document.Model.Status.{material, FilePurpose}
use authorization_document.Base.{
  ok, ◌>>◌, none, some, refl, List, All-map, any-update_where, Option, ◌==◌, ◌∙◌, ◌≡◌, arith,
  Result, >>=-eq-ok, require, subst, leb, ℕ, ◌+◌, bad_request, file_count_or_size_exceeded,
  case_capacity_exceeded, ok_injective, from_option, requirement_not_in_case, seal_original_missing,
  file_too_large,
}

audited-IsStored :
    (entries : List AuditEvent) (db : Db) → IsStored db → IsStored (record db { audits = entries })
unfolding evidence_retained_bytes is_retained has_active_file
audited-IsStored entries db s = record {
  linked = record {
    files_known = s.linked.files_known;
    resources_known = s.linked.resources_known;
    previews_known = s.linked.previews_known;
  };
  within = s.within;
}

files-IsStored :
    (now : Time) (file_id id : Key) (db : Db)
    → IsStored db
    → IsStored (record db { files = remove_file now file_id id db.files })
unfolding remove_file
files-IsStored now file_id id db s = record {
  linked = record {
    files_known =
        All-map _ _
          (λ (w : FileVersion) k.
            any-update_where (is_removable file_id id) _ (λ (f : FileRecord). f.id == w.file_id)
              (λ f. refl) db.files
            ∙ k)
          db.versions s.linked.files_known;
    resources_known = s.linked.resources_known;
    previews_known = s.linked.previews_known;
  };
  within = λ c. omega (arith, removed_retained now file_id id db c, s.within c);
}

pub removal_writes-IsStored :
    (now : Time) (file_id id : Key) (db : Db)
    → IsStored db
    → IsStored (removal_writes now file_id id db)
unfolding removal_writes
removal_writes-IsStored now file_id id db s =
    audited-IsStored _ _ (invalidate-IsStored now id _ (files-IsStored now file_id id db s))

-- What an answer with a duplicate, or the rest of the transaction, leaves.
reuse_or-IsStored :
    (o : Option FileVersion) (db db' : Db) (next : Result (Upload × Db)) (u : Upload)
    → IsStored db
    → (next ≡ ok (u, db') → IsStored db')
    → reuse_or o db next ≡ ok (u, db')
    → IsStored db'
reuse_or-IsStored none db db' next u s rest h = rest h
reuse_or-IsStored (some v) db db' next u s rest h = subst IsStored (cc) s

module _ (digest : Key → Hash) (sha : Bytes → Hash) where
  add_material-IsStored :
      (limits : FileLimits) (files : ℕ) (now : Time) (ids : NewIds) (id requirement : Key)
      (f : IncomingFile) (hash : Hash) (stored : Stored) (db db' : Db) (u : Upload)
      → IsStored db
      → (do
        require
            (is_within limits files (evidence_retained_bytes id db + f.size))
            (bad_request file_count_or_size_exceeded)
        add_material now ids id requirement f hash stored db)
        ≡ ok (u, db')
      → IsStored db'
  unfolding add_material is_within
  add_material-IsStored limits files now ids id requirement f hash stored db db' u s h =
      let (w, e, h₁) =
        >>=-eq-ok
          (require (is_within limits files (evidence_retained_bytes id db + f.size))
            (bad_request file_count_or_size_exceeded))
          _ h in
      let (db₁, e₁, h₂) =
        >>=-eq-ok
          (create_file
            (record {
              id = ids.file_id;
              case_id = id;
              requirement_version = some requirement;
              removed_at = none;
            })
            (first_version ids id f hash stored material none) db)
          _ h₁ in
      let same : invalidate_signings now id db₁ ≡ db' = cc (ok_injective h₂) in
      subst IsStored same (
        invalidate-IsStored now id db₁ (
          create_file-IsStored _ (first_version ids id f hash stored material none) db db₁ s refl
            (ground arith) e₁))

  pub store_material-IsStored :
      (catalog : Key → PartialLimits) (now : Time) (token reference : Key) (f : IncomingFile)
      (ids : NewIds) (stored : Stored) (db db' : Db) (u : Upload)
      → IsStored db
      → store_material digest sha catalog now token reference f ids stored db ≡ ok (u, db')
      → IsStored db'
  unfolding store_material
  store_material-IsStored catalog now token reference f ids stored db db' u s h =
      let (link, e, h₁) = >>=-eq-ok (resolve digest now token db) _ h in
      let (entry, e₁, h₂) =
        >>=-eq-ok
          (from_option (bad_request requirement_not_in_case)
            (find_entry reference (latest_snapshot link.case_id db)))
          _ h₁ in
      let limits = effective_file_limits (catalog entry.requirement_version) in
      let (v, e₂, h₃) =
        >>=-eq-ok (require (leb f.size limits.max_file) (bad_request file_too_large)) _ h₂ in
      reuse_or-IsStored (find_duplicate link.case_id entry.requirement_version (sha f.buffer) db) db
        db' _ u s
        (add_material-IsStored limits (count_files link.case_id entry.requirement_version db + 1)
          now ids link.case_id entry.requirement_version f (sha f.buffer) stored db db' u s)
        h₃

  add_resource-IsStored :
      (ids : NewIds) (id : Key) (f : IncomingFile) (stored : Stored) (purpose : FilePurpose)
      (original : Option Key) (db db' : Db) (u : Upload)
      → IsStored db
      → (do
        require
            (leb (evidence_retained_bytes id db + f.size) max_case_bytes)
            (bad_request case_capacity_exceeded)
        add_resource ids id f stored purpose original db)
        ≡ ok (u, db')
      → IsStored db'
  unfolding add_resource
  add_resource-IsStored ids id f stored purpose original db db' u s h =
      let (w, e, h₁) =
        >>=-eq-ok
          (require (leb (evidence_retained_bytes id db + f.size) max_case_bytes)
            (bad_request case_capacity_exceeded))
          _ h in
      let (db₁, e₁, h₂) =
        >>=-eq-ok
          (create_file
            (record {
              id = ids.file_id;
              case_id = id;
              requirement_version = none;
              removed_at = none;
            })
            (first_version ids id f stored.sha256 stored purpose original) db)
          _ h₁ in
      let same : db₁ ≡ db' = cc (ok_injective h₂) in
      subst IsStored same (
        create_file-IsStored _ (first_version ids id f stored.sha256 stored purpose original) db db₁
          s refl (ground arith) e₁)

  pub store_resource-IsStored :
      (now : Time) (token : Key) (purpose : FilePurpose) (f : IncomingFile) (original : Option Key)
      (ids : NewIds) (stored : Stored) (db db' : Db) (u : Upload)
      → IsStored db
      → store_resource digest sha now token purpose f original ids stored db ≡ ok (u, db')
      → IsStored db'
  unfolding store_resource
  store_resource-IsStored now token purpose f original ids stored db db' u s h =
      let (link, e, h₁) = >>=-eq-ok (resolve digest now token db) _ h in
      let (v, e₁, h₂) =
        >>=-eq-ok
          (require (original_found purpose original link.case_id db)
            (bad_request seal_original_missing))
          _ h₁ in
      reuse_or-IsStored (find_resource_duplicate link.case_id purpose (sha f.buffer) original db) db
        db' _ u s (add_resource-IsStored ids link.case_id f stored purpose original db db' u s) h₂
