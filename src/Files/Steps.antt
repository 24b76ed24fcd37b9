-- ===== src/Files/Steps.antt =====
-- Sequences of uploads and removals of apps/api/src/files/file.service.ts, and of the transactions of
-- `createPresignPreview` of apps/api/src/cases/case.service.ts.
use authorization_document.Drafts.Content.{RenderInput}
use authorization_document.Signing.Reused.{valid_presign_cache-IsStored, persist_preview-IsStored}
use authorization_document.Signing.Preview.{persist_preview}
use authorization_document.Signing.Cache.{valid_presign_cache, Rendered, Persisted}
use authorization_document.Files.Incoming.{IncomingFile, NewIds, Stored, Upload, validate_incoming}
use authorization_document.Files.Placed.{
  store_material-IsStored, store_resource-IsStored, removal_writes-IsStored,
}
use authorization_document.Files.Removed.{remove_public-eq-ok}
use authorization_document.Links.Access.{resolve}
use authorization_document.Storage.Policy.{PartialLimits}
use authorization_document.Files.Uploads.{
  upload_public, upload_signing_resource, is_signing_purpose,
}
use authorization_document.Files.Within.{IsStored}
use authorization_document.Storage.Content.{Bytes}
use authorization_document.Files.Removal.{remove_public}
use authorization_document.Model.Db.{Db}
use authorization_document.Model.Rows.{Key, Hash, Time, png_type, jpeg_type}
use authorization_document.Model.Status.{FilePurpose, same_purpose, seal_processed}
use authorization_document.Base.{
  ok, Option, ◌==◌, ◌≡◌, >>=-eq-ok, require, subst, bad_request, sym, storage_mismatch, ◌||◌,
  file_type_not_allowed, resource_mode_mismatch, same_bool, is_some, seal_original_required,
}

module _ (digest : Key → Hash) (sha : Bytes → Hash) (digest_of : RenderInput → Hash) where
  -- One request, whatever it carries; what the storage answers and the identifiers that are drawn
  -- are any.
  pub data FileStep (catalog : Key → PartialLimits) : Db → Db → Type 0 where
    upload :
        {db db' : Db} (now then_now : Time) (token reference : Key) (f : IncomingFile)
        (ids : NewIds) (stored : Stored) (before : Db) (u : Upload)
        → upload_public digest sha catalog now then_now token reference f ids stored before db
          ≡ ok (u, db')
        → FileStep catalog db db'
    resource :
        {db db' : Db} (now then_now : Time) (token : Key) (purpose : FilePurpose) (f : IncomingFile)
        (original : Option Key) (ids : NewIds) (stored : Stored) (before : Db) (u : Upload)
        → upload_signing_resource digest sha now then_now token purpose f original ids stored before
            db
          ≡ ok (u, db')
        → FileStep catalog db db'
    removal :
        {db db' : Db} (now : Time) (token file_id : Key)
        → remove_public digest now token file_id db ≡ ok db'
        → FileStep catalog db db'
    cache_check :
        {db : Db} (storage : Key → Option Bytes) (now : Time) (case_id : Key) (contents : Hash)
        → FileStep catalog db (valid_presign_cache sha storage now case_id contents db).1
    preview :
        {db db' : Db} (now : Time) (token case_id : Key) (r : Rendered) (ids : NewIds)
        (stored : Stored) (p : Persisted)
        → persist_preview digest digest_of now token case_id r ids stored db ≡ ok (p, db')
        → FileStep catalog db db'

  pub data FileSteps (catalog : Key → PartialLimits) (db : Db) : Db → Type 0 where
    here : FileSteps catalog db db
    next :
        {db₁ db₂ : Db}
        → FileSteps catalog db db₁
        → FileStep catalog db₁ db₂
        → FileSteps catalog db db₂

  upload_public-IsStored :
      (catalog : Key → PartialLimits) (now then_now : Time) (token reference : Key)
      (f : IncomingFile) (ids : NewIds) (stored : Stored) (before db db' : Db) (u : Upload)
      → IsStored db
      → upload_public digest sha catalog now then_now token reference f ids stored before db
        ≡ ok (u, db')
      → IsStored db'
  unfolding upload_public
  upload_public-IsStored catalog now then_now token reference f ids stored before db db' u s h =
      let (a, e, h₁) = >>=-eq-ok (validate_incoming f) _ h in
      let (b, e₁, h₂) = >>=-eq-ok (resolve digest now token before) _ h₁ in
      let (c, e₂, h₃) =
        >>=-eq-ok (require (stored.sha256 == sha f.buffer) (bad_request storage_mismatch)) _ h₂ in
      store_material-IsStored digest sha catalog then_now token reference f ids stored db db' u s h₃

  upload_signing_resource-IsStored :
      (now then_now : Time) (token : Key) (purpose : FilePurpose) (f : IncomingFile)
      (original : Option Key) (ids : NewIds) (stored : Stored) (before db db' : Db) (u : Upload)
      → IsStored db
      → upload_signing_resource digest sha now then_now token purpose f original ids stored before
          db
        ≡ ok (u, db')
      → IsStored db'
  unfolding upload_signing_resource
  upload_signing_resource-IsStored now then_now token purpose f original ids stored before db db' u
        s h =
      let (a, e, h₁) = >>=-eq-ok (validate_incoming f) _ h in
      let (b, e₁, h₂) =
        >>=-eq-ok
          (require (f.mime_type == png_type || f.mime_type == jpeg_type)
            (bad_request file_type_not_allowed))
          _ h₁ in
      let (c, e₂, h₃) =
        >>=-eq-ok (require (is_signing_purpose purpose) (bad_request resource_mode_mismatch)) _
          h₂ in
      let (d, e₃, h₄) =
        >>=-eq-ok
          (require (same_bool (same_purpose purpose seal_processed) (is_some original))
            (bad_request seal_original_required))
          _ h₃ in
      let (l, e₄, h₅) = >>=-eq-ok (resolve digest now token before) _ h₄ in
      let (m, e₅, h₆) =
        >>=-eq-ok (require (stored.sha256 == sha f.buffer) (bad_request storage_mismatch)) _ h₅ in
      store_resource-IsStored digest sha then_now token purpose f original ids stored db db' u s h₆

  remove_public-IsStored :
      (now : Time) (token file_id : Key) (db db' : Db)
      → IsStored db
      → remove_public digest now token file_id db ≡ ok db'
      → IsStored db'
  unfolding remove_public
  remove_public-IsStored now token file_id db db' s h =
      let (l, e, h₁) = >>=-eq-ok (resolve digest now token db) _ h in
      subst IsStored (sym (remove_public-eq-ok digest now token file_id db db' l e h))
        (removal_writes-IsStored now file_id l.case_id db s)

  FileStep-IsStored :
      (catalog : Key → PartialLimits) {db db' : Db}
      → FileStep catalog db db'
      → IsStored db
      → IsStored db'
  FileStep-IsStored catalog {db} {db'} (upload now then_now token reference f ids stored before u h)
        s =
      upload_public-IsStored catalog now then_now token reference f ids stored before db db' u s h
  FileStep-IsStored catalog {db} {db'}
        (resource now then_now token purpose f original ids stored before u h) s =
      upload_signing_resource-IsStored now then_now token purpose f original ids stored before db
        db' u s h
  FileStep-IsStored catalog {db} {db'} (removal now token file_id h) s =
      remove_public-IsStored now token file_id db db' s h
  FileStep-IsStored catalog {db} {db'} (cache_check storage now case_id contents) s =
      valid_presign_cache-IsStored sha storage now case_id contents db s
  FileStep-IsStored catalog {db} {db'} (preview now token case_id r ids stored p h) s =
      persist_preview-IsStored digest digest_of now token case_id r ids stored db db' p s h

  -- No case ever holds more than 200 MB of evidence: where every row names rows that are there and
  -- every case is within its capacity, both are still so after any uploads of material, uploads of
  -- signing resources, removals and new previews that succeed, and any checks of cached previews, in
  -- any order.
  pub steps-IsStored :
      (catalog : Key → PartialLimits) {db db' : Db}
      → IsStored db
      → FileSteps catalog db db'
      → IsStored db'
  steps-IsStored catalog s here = s
  steps-IsStored catalog s (next steps step) =
      FileStep-IsStored catalog step (steps-IsStored catalog s steps)
