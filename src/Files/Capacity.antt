-- ===== src/Files/Capacity.antt =====
-- apps/api/src/files/evidence-capacity.ts, and the creation of a file with its first version.
use authorization_document.Model.Db.{Db}
use authorization_document.Model.Rows.{Key, FileRecord, FileVersion, Signing, Time}
use authorization_document.Model.Status.{final_pdf, same_purpose}
use authorization_document.Base.{
  ℕ, ◌>>◌, some, false, ◌∷◌, ok, ◌*◌, sum_of, Bool, Result, update_where, is_none, any, ◌==◌,
  require, ◌&&◌, not, ◌||◌, internal, same_id, unique_violation,
}

abbrev pub case_file_capacity_bytes : ℕ
case_file_capacity_bytes = 200 * 1024 * 1024

abbrev pub is_active : FileRecord → Bool
is_active f = is_none f.removed_at

-- `file: { removedAt: null }`
unfoldable pub has_active_file : Db → FileVersion → Bool
has_active_file db v =
    any (λ f. f.id == v.file_id && f.case_id == v.case_id && is_active f) db.files

abbrev pub signs_with : Key → Signing → Bool
signs_with version s = s.resource == version

-- The filter of `evidenceRetainedBytes`.
unfoldable pub is_retained : Key → Db → FileVersion → Bool
unfolding has_active_file
is_retained case_id db v =
    v.case_id == case_id
    && (has_active_file db v
        || any (λ s. s.preview == v.id) db.signings
        || any (signs_with v.id) db.signings
        || any (λ d. same_id d.original (some v.id) && any (signs_with d.id) db.signings)
            db.versions
        || same_purpose v.purpose final_pdf)

unfoldable pub evidence_retained_bytes : Key → Db → ℕ
unfolding is_retained
evidence_retained_bytes case_id db = sum_of (λ v. v.size_bytes) (is_retained case_id db) db.versions

-- `fileRecord.create` and `fileVersion.create`; identifiers and storage keys are unique.
unfoldable pub create_file : FileRecord → FileVersion → Db → Result Db
create_file f v db = do
  require (not (any (λ g. g.id == f.id) db.files)) (internal unique_violation)
  require (not (any (λ w. w.id == v.id || w.storage_key == v.storage_key) db.versions))
      (internal unique_violation)
  ok (record db { files = f ∷ db.files; versions = v ∷ db.versions })

-- `signingRecord.updateMany({ where: { caseId, valid: true }, data: { valid: false, … } })`
unfoldable pub invalidate_signings : Time → Key → Db → Db
invalidate_signings now case_id db = record db {
  signings =
      update_where (λ s. s.case_id == case_id && s.valid)
        (λ s. record s { valid = false; invalidated_at = some now }) db.signings;
}
