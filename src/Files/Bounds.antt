-- ===== src/Files/Bounds.antt =====
-- The capacity of a case over the uploads of apps/api/src/files/file.service.ts.
use authorization_document.Storage.Policy.{max_case_bytes}
use authorization_document.Model.Db.{Db}
use authorization_document.Model.Rows.{Key, FileRecord, FileVersion}
use authorization_document.Base.{
  true, false, refl, [], ◌∷◌, inl, inr, All, List, any, ◌≤◌, ◌==◌, ◌≡◌, Bool-cases, sum_of, ==_iff,
  arith, sum_of-cong, if◌then◌else◌, All-map, ◌+◌,
}
use authorization_document.Files.Capacity.{
  evidence_retained_bytes, is_retained, signs_with, has_active_file,
}

-- Every row that a row names is there, as foreign keys have it.
pub record IsLinked (db : Db) : Type 0 where
  pub files_known : All (λ v. any (λ f. f.id == v.file_id) db.files ≡ true) db.versions
  pub resources_known : All (λ s. any (λ v. v.id == s.resource) db.versions ≡ true) db.signings
  pub previews_known : All (λ s. any (λ v. v.id == s.preview) db.versions ≡ true) db.signings

abbrev pub WithinCapacity : Db → Type 0
WithinCapacity db = (c : Key) → evidence_retained_bytes c db ≤ max_case_bytes

-- A key that a table has is not one that it lacks.
module _ {ℓ} {A : Type ℓ} (key : A → Key) where
  pub keys_apart :
      (xs : List A) (a b : Key)
      → any (λ x. key x == a) xs ≡ false
      → any (λ x. key x == b) xs ≡ true
      → (a == b) ≡ false
  keys_apart xs a b fresh known = elim (Bool-cases (a == b)) [
    | inl e ↦
        let same : a ≡ b = (==_iff a b).0 e in
        let there : any (λ x. key x == a) xs ≡ true = rw same known in cc
    | inr e ↦ e
  ]

  pub none_names :
      {B : Type 0} (names : B → Key) (xs : List A) (ys : List B) (a : Key)
      → any (λ x. key x == a) xs ≡ false
      → All (λ y. any (λ x. key x == names y) xs ≡ true) ys
      → any (λ y. names y == a) ys ≡ false
  unfolding any
  none_names names xs [] a fresh known = refl
  none_names names xs (y ∷ ys) a fresh known =
      ground
        (arith, keys_apart xs a (names y) fresh known.0, none_names names xs ys a fresh known.1)

retained_case :
    (c : Key) (db : Db) (v : FileVersion) → (v.case_id == c) ≡ false → is_retained c db v ≡ false
unfolding is_retained
retained_case c db v h = ground arith

-- A new file with its version.
module _ (db : Db) (linked : IsLinked db) (f : FileRecord) (v : FileVersion)
    (fresh_file : any (λ g. g.id == f.id) db.files ≡ false)
    (fresh_version : any (λ w. w.id == v.id) db.versions ≡ false) where
  abbrev pub added : Db
  added = record db { files = f ∷ db.files; versions = v ∷ db.versions }

  unsigned : any (signs_with v.id) db.signings ≡ false
  unsigned =
      none_names (λ w. w.id) (λ s. s.resource) db.versions db.signings v.id fresh_version
        linked.resources_known

  retained_same :
      (c : Key) (w : FileVersion)
      → any (λ g. g.id == w.file_id) db.files ≡ true
      → is_retained c added w ≡ is_retained c db w
  unfolding is_retained has_active_file any
  retained_same c w known =
      ground (arith, keys_apart (λ g. g.id) db.files f.id w.file_id fresh_file known, unsigned)

  retained_rest :
      (c : Key)
      → sum_of (λ w. w.size_bytes) (is_retained c added) db.versions ≡ evidence_retained_bytes c db
  unfolding evidence_retained_bytes
  retained_rest c =
      sum_of-cong (λ w. w.size_bytes) (is_retained c added) (is_retained c db) db.versions
        (All-map _ _ (retained_same c) db.versions linked.files_known)

  pub retained_added :
      (c : Key)
      → evidence_retained_bytes c added
        ≤ (if v.case_id == c then v.size_bytes else 0) + evidence_retained_bytes c db
  unfolding evidence_retained_bytes sum_of
  retained_added c = ground (arith, retained_rest c, retained_case c added v)

  pub added-IsLinked : f.id ≡ v.file_id → IsLinked added
  unfolding any
  added-IsLinked e = record {
    files_known = (ground arith, All-map _ _ (λ w h. ground arith) db.versions linked.files_known);
    resources_known = All-map _ _ (λ s h. ground arith) db.signings linked.resources_known;
    previews_known = All-map _ _ (λ s h. ground arith) db.signings linked.previews_known;
  }
