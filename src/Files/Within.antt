-- ===== src/Files/Within.antt =====
-- Uploads and removals, in any order, keep every case within its capacity.
use authorization_document.Files.Removal.{remove_file, is_removable}
use authorization_document.Storage.Policy.{max_case_bytes}
use authorization_document.Files.Capacity.{
  is_retained, evidence_retained_bytes, invalidate_signings, has_active_file, signs_with,
  create_file, is_active,
}
use authorization_document.Files.Bounds.{IsLinked, WithinCapacity, added-IsLinked, retained_added}
use authorization_document.Model.Db.{Db}
use authorization_document.Model.Rows.{Key, Time, FileVersion, Signing, FileRecord}
use authorization_document.Base.{
  ok, some, false, refl, ◌∷◌, inl, inr, ◌≡◌, All-update_where, sum_of-cong, All-always, ◌==◌, ◌&&◌,
  arith, any-update_where, any-cong, same_id, any, update_where, >>=-eq-ok, ◌+◌, require, ◌≤◌, not,
  internal, unique_violation, ◌||◌, any-false-le, ok_injective, if◌then◌else◌, sum_of_le,
  Bool-cases, any-update_where_le, ==_iff, subst,
}

pub record IsStored (db : Db) : Type 0 where
  pub linked : IsLinked db
  pub within : WithinCapacity db

module _ (now : Time) (id : Key) (db : Db) where
  invalidate-is_retained :
      (c : Key) (w : FileVersion)
      → is_retained c (invalidate_signings now id db) w ≡ is_retained c db w
  unfolding is_retained invalidate_signings has_active_file
  invalidate-is_retained c w =
      let q = λ (s : Signing). s.case_id == id && s.valid in
      let f = λ (s : Signing). record s { valid = false; invalidated_at = some now } in
      ground (
        arith,
        any-update_where q f (λ s. s.preview == w.id) (λ s. refl) db.signings,
        any-update_where q f (signs_with w.id) (λ s. refl) db.signings,
        any-cong
            (λ (d : FileVersion).
              same_id d.original (some w.id)
              && any (signs_with d.id) (update_where q f db.signings))
            (λ d. same_id d.original (some w.id) && any (signs_with d.id) db.signings)
            (λ d. rw (any-update_where q f (signs_with d.id) (λ s. refl) db.signings)) db.versions,
      )

  invalidate-retained :
      (c : Key)
      → evidence_retained_bytes c (invalidate_signings now id db) ≡ evidence_retained_bytes c db
  unfolding evidence_retained_bytes invalidate_signings
  invalidate-retained c =
      sum_of-cong (λ w. w.size_bytes) _ (is_retained c db) db.versions
        (All-always _ (invalidate-is_retained c) db.versions)

  pub invalidate-IsStored : IsStored db → IsStored (invalidate_signings now id db)
  unfolding invalidate_signings
  invalidate-IsStored s = record {
    linked = record {
      files_known = s.linked.files_known;
      resources_known = All-update_where _ _ _ (λ x h. h) db.signings s.linked.resources_known;
      previews_known = All-update_where _ _ _ (λ x h. h) db.signings s.linked.previews_known;
    };
    within = λ c. rw (invalidate-retained c) (s.within c);
  }

pub create_file-eq-ok :
    (f : FileRecord) (v : FileVersion) (db db' : Db)
    → create_file f v db ≡ ok db'
    → (any (λ g. g.id == f.id) db.files ≡ false)
      × (any (λ w. w.id == v.id) db.versions ≡ false)
      × (record db { files = f ∷ db.files; versions = v ∷ db.versions } ≡ db')
unfolding create_file
create_file-eq-ok f v db db' h =
    let (u, e, h₁) =
      >>=-eq-ok (require (not (any (λ g. g.id == f.id) db.files)) (internal unique_violation)) _
        h in
    let (u₁, e₁, h₂) =
      >>=-eq-ok
        (require (not (any (λ w. w.id == v.id || w.storage_key == v.storage_key) db.versions))
          (internal unique_violation))
        _ h₁ in
    (
      ground arith,
      any-false-le (λ w. w.id == v.id) (λ w. w.id == v.id || w.storage_key == v.storage_key)
          (λ w k. ground arith) db.versions (ground arith),
      ok_injective h₂,
    )

-- A new file that fits keeps the capacity.
pub create_file-IsStored :
    (f : FileRecord) (v : FileVersion) (db db' : Db)
    → IsStored db
    → f.id ≡ v.file_id
    → evidence_retained_bytes v.case_id db + v.size_bytes ≤ max_case_bytes
    → create_file f v db ≡ ok db'
    → IsStored db'
create_file-IsStored f v db db' s named fits h =
    let (e, e₁, same) = create_file-eq-ok f v db db' h in
    subst IsStored same (record {
      linked = added-IsLinked db s.linked f v e e₁ named;
      within = λ c. fits_in c (retained_added db s.linked f v e e₁ c);
    })
  where
    fits_in :
        (c : Key)
        → evidence_retained_bytes c (record db { files = f ∷ db.files; versions = v ∷ db.versions })
          ≤ (if v.case_id == c then v.size_bytes else 0) + evidence_retained_bytes c db
        → evidence_retained_bytes c (record db { files = f ∷ db.files; versions = v ∷ db.versions })
          ≤ max_case_bytes
    fits_in c le = elim (Bool-cases (v.case_id == c)) [
      | inl e ↦
          let eq : v.case_id ≡ c = (==_iff v.case_id c).0 e in
          let le' : evidence_retained_bytes c
                (record db { files = f ∷ db.files; versions = v ∷ db.versions })
              ≤ v.size_bytes + evidence_retained_bytes c db =
            rw e at le in
          let fits' : evidence_retained_bytes c db + v.size_bytes ≤ max_case_bytes =
            subst (λ k. evidence_retained_bytes k db + v.size_bytes ≤ max_case_bytes) eq fits in
          omega arith
      | inr e ↦
          let le' : evidence_retained_bytes c
                (record db { files = f ∷ db.files; versions = v ∷ db.versions })
              ≤ 0 + evidence_retained_bytes c db =
            rw e at le in
          omega (arith, s.within c)
    ]

module _ (now : Time) (file_id id : Key) (db : Db) where
  pub removed_retained :
      (c : Key)
      → evidence_retained_bytes c (record db { files = remove_file now file_id id db.files })
        ≤ evidence_retained_bytes c db
  unfolding evidence_retained_bytes is_retained has_active_file remove_file
  removed_retained c =
      sum_of_le (λ w. w.size_bytes) _ _
        (λ w h. ground (
          arith,
          any-update_where_le (is_removable file_id id)
              (λ (g : FileRecord). record g { removed_at = some now })
              (λ g. g.id == w.file_id && g.case_id == w.case_id && is_active g)
              (λ g k. ground arith) db.files,
        ))
        db.versions
