-- ===== src/Signing/Cached.antt =====
-- What a preview that `renderAndPersistPresign` of apps/api/src/cases/case.service.ts persists leaves
-- in the cache.
use authorization_document.Signing.Retired.{cached_le, turn_away-IsStored, turn_away-IsLinked}
use authorization_document.Files.Incoming.{NewIds, Stored}
use authorization_document.Files.Within.{IsStored, create_file-IsStored, create_file-eq-ok}
use authorization_document.Signing.Cache.{
  is_cached, slice_two, Rendered, Persisted, preview_version, retired_previews, add_preview,
  find_cached, is_retired, retire,
}
use authorization_document.Files.Bounds.{IsLinked, keys_apart}
use authorization_document.Files.Capacity.{
  has_active_file, evidence_retained_bytes, case_file_capacity_bytes, create_file,
}
use authorization_document.Model.Rows.{Key, FileVersion, FileRecord, Time}
use authorization_document.Base.{
  List, [], ◌∷◌, Bool, ◌==◌, ◌&&◌, any, true, false, ◌≡◌, not, refl, arith, count, ◌≤◌, All-map,
  if◌then◌else◌, ℕ, filter, count-none, keys_among, count-filter, count-cong, ◌+◌, ok, none, ◌∙◌,
  ap, sym, ok_injective, >>=-eq-ok, require, leb, bad_request, case_capacity_exceeded, subst,
  ==_iff, ==_refl, count_le, find, Bool-cases, some, inl, inr,
}
use authorization_document.Model.Db.{Db}

module _ {ℓ} {A : Type ℓ} (key : A → ℕ) where
  kept_of_slice : (ys : List A) → count (λ x. not (any (λ r. key r == key x) (slice_two ys))) ys ≤ 2
  unfolding count
  kept_of_slice [] = omega arith
  kept_of_slice (x ∷ []) = ground arith
  kept_of_slice (x ∷ y ∷ rest) =
      let none_left : count (λ z. not (any (λ r. key r == key z) rest)) rest ≡ 0 =
        count-none _ rest (
          All-map _ _ (λ z (h : any (λ r. key r == key z) rest ≡ true). rw h refl) rest
            (keys_among key rest)) in
      ground (arith, none_left)

  sliced_le :
      (p : A → Bool) (xs : List A)
      → count (λ x. p x && not (any (λ r. key r == key x) (slice_two (filter p xs)))) xs ≤ 2
  sliced_le p xs =
      rw (count-filter p (λ x. not (any (λ r. key r == key x) (slice_two (filter p xs)))) xs)
        (kept_of_slice (filter p xs))

-- At most three previews of a case are cached.
abbrev pub IsCacheSmall : Db → Type 0
IsCacheSmall db = (c : Key) → count (is_cached c db) db.versions ≤ 3

abbrev grown : Db → FileRecord → FileVersion → Db
grown db f v = record db { files = f ∷ db.files; versions = v ∷ db.versions }

-- The new row is the only one that the cache gains.
module _ (db : Db) (linked : IsLinked db) (f : FileRecord) (v : FileVersion)
    (fresh : any (λ g. g.id == f.id) db.files ≡ false) where
  cached_same :
      (c : Key) (w : FileVersion)
      → any (λ g. g.id == w.file_id) db.files ≡ true
      → is_cached c (grown db f v) w ≡ is_cached c db w
  unfolding is_cached has_active_file any
  cached_same c w known = ground (arith, keys_apart (λ g. g.id) db.files f.id w.file_id fresh known)

  cached_other : (c : Key) → (v.case_id == c) ≡ false → is_cached c (grown db f v) v ≡ false
  unfolding is_cached
  cached_other c h = ground arith

  cached_added :
      (c : Key)
      → count (is_cached c (grown db f v)) (v ∷ db.versions)
        ≤ (if v.case_id == c then 1 else 0) + count (is_cached c db) db.versions
  unfolding count
  cached_added c = ground (
    arith,
    cached_other c,
    count-cong (is_cached c (grown db f v)) (is_cached c db) db.versions
        (All-map _ _ (cached_same c) db.versions linked.files_known),
  )

abbrev pub preview_record : NewIds → Key → FileRecord
preview_record ids case_id = record {
  id = ids.file_id;
  case_id = case_id;
  requirement_version = none;
  removed_at = none;
}

module _ (now : Time) (ids : NewIds) (case_id : Key) (r : Rendered) (stored : Stored)
    (db : Db) where
  abbrev roomy : Db
  roomy = retire now case_id (retired_previews case_id db) db

  roomy-IsStored : IsStored db → IsStored roomy
  unfolding retire
  roomy-IsStored = turn_away-IsStored now _ _ db

  roomy-IsLinked : IsLinked db → IsLinked roomy
  unfolding retire
  roomy-IsLinked = turn_away-IsLinked now _ _ db

  -- What is cached still is none of the previews that went.
  still_cached :
      (c : Key)
      → count (is_cached c roomy) roomy.versions
        ≤ count
            (λ w. is_cached c db w && not (is_retired (retired_previews case_id db) w))
            db.versions
  unfolding retire
  still_cached = cached_le now (is_retired (retired_previews case_id db)) _ db

  abbrev row : FileVersion
  row = preview_version ids case_id r stored

  add_preview-eq-ok :
      (p : Persisted) (db' : Db)
      → add_preview now ids case_id r stored db ≡ ok (p, db')
      → (evidence_retained_bytes case_id roomy + r.size ≤ case_file_capacity_bytes)
        × (create_file (preview_record ids case_id) row roomy ≡ ok db')
        × (p.version ≡ row)
  unfolding add_preview
  add_preview-eq-ok p db' h =
      let (u, e, h₁) =
        >>=-eq-ok
          (require (leb (evidence_retained_bytes case_id roomy + r.size) case_file_capacity_bytes)
            (bad_request case_capacity_exceeded))
          _ h in
      let (x, e₁, h₂) = >>=-eq-ok (create_file (preview_record ids case_id) row roomy) _ h₁ in
      (
        ground arith,
        e₁ ∙ ap ok (ap (λ y. y.1) (ok_injective h₂)),
        sym (ap (λ y. y.0.version) (ok_injective h₂)),
      )

  pub add_preview-IsStored :
      (p : Persisted) (db' : Db)
      → IsStored db
      → add_preview now ids case_id r stored db ≡ ok (p, db')
      → IsStored db'
  add_preview-IsStored p db' s h =
      let (fits, e, same) = add_preview-eq-ok p db' h in
      create_file-IsStored (preview_record ids case_id) row roomy db' (roomy-IsStored s) refl fits e

  roomy_le : count (is_cached case_id roomy) roomy.versions ≤ 2
  unfolding retired_previews is_cached
  roomy_le = omega (
    arith,
    still_cached case_id,
    count_le (λ w. is_cached case_id db w && not (is_retired (retired_previews case_id db) w))
        (λ w. is_cached case_id db w && not (any (λ r. r.id == w.id) (retired_previews case_id db)))
        (λ w h. ground arith) db.versions,
    sliced_le (λ (v : FileVersion). v.id) (is_cached case_id db) db.versions,
  )

  roomy_le_other :
      (c : Key) → count (is_cached c roomy) roomy.versions ≤ count (is_cached c db) db.versions
  roomy_le_other c = omega (
    arith,
    still_cached c,
    count_le (λ w. is_cached c db w && not (is_retired (retired_previews case_id db) w))
        (is_cached c db) (λ w h. ground arith) db.versions,
  )

  pub add_preview-IsCacheSmall :
      (p : Persisted) (db' : Db)
      → IsLinked db
      → IsCacheSmall db
      → add_preview now ids case_id r stored db ≡ ok (p, db')
      → IsCacheSmall db'
  add_preview-IsCacheSmall p db' linked small h =
      let (fits, e, same) = add_preview-eq-ok p db' h in
      let (fresh, fresh', eq) = create_file-eq-ok (preview_record ids case_id) row roomy db' e in
      subst IsCacheSmall eq (λ c.
        fits_in c
          (cached_added roomy (roomy-IsLinked linked) (preview_record ids case_id) row fresh c))
    where
      fits_in :
          (c : Key)
          → count
              (is_cached c (grown roomy (preview_record ids case_id) row))
              (row ∷ roomy.versions)
            ≤ (if case_id == c then 1 else 0) + count (is_cached c roomy) roomy.versions
          → count
              (is_cached c (grown roomy (preview_record ids case_id) row))
              (row ∷ roomy.versions)
            ≤ 3
      fits_in c le = elim (Bool-cases (case_id == c)) [
        | inl e ↦
            let eq : case_id ≡ c = (==_iff case_id c).0 e in
            let le' : count (is_cached c roomy) roomy.versions ≤ 2 =
              subst (λ k. count (is_cached k roomy) roomy.versions ≤ 2) eq roomy_le in
            ground arith
        | inr e ↦ ground (arith, small c, roomy_le_other c)
      ]

  pub add_preview-find_cached :
      (p : Persisted) (db' : Db)
      → add_preview now ids case_id r stored db ≡ ok (p, db')
      → find_cached case_id r.digest db' ≡ some p.version
  unfolding find_cached is_cached has_active_file find any
  add_preview-find_cached p db' h =
      let (fits, e, same) = add_preview-eq-ok p db' h in
      let (fresh, fresh', eq) = create_file-eq-ok (preview_record ids case_id) row roomy db' e in
      subst (λ d. find_cached case_id r.digest d ≡ some p.version) eq
        (rw (same, ==_refl case_id, ==_refl ids.file_id, ==_refl r.digest) refl)
