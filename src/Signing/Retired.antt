-- ===== src/Signing/Retired.antt =====
-- What the cache of previews of apps/api/src/cases/case.service.ts keeps when it makes room.
use authorization_document.Signing.Cache.{is_cached, turn_away}
use authorization_document.Files.Within.{IsStored}
use authorization_document.Files.Bounds.{IsLinked}
use authorization_document.Files.Capacity.{
  is_active, has_active_file, is_retained, evidence_retained_bytes, signs_with,
}
use authorization_document.Model.Rows.{Key, Time, FileVersion, FileRecord, Signing}
use authorization_document.Base.{
  Bool, ◌==◌, ◌&&◌, any, true, false, ◌≡◌, not, some, same_id, refl, inl, inr, Bool-cases, arith,
  any-update_where_le, any-update_where, sum_updated_le, count_updated_le, count, ◌≤◌,
  All-update_where, All-map, ◌∙◌, if◌then◌else◌,
}
use authorization_document.Model.Db.{Db}

module _ (now : Time) (goes : FileVersion → Bool) (gone : FileRecord → Bool) (db : Db) where
  abbrev kept : Db
  kept = turn_away now goes gone db

  abbrev disabled : FileVersion → FileVersion
  disabled v = record v { cache_active = false }

  turn_away-has_active_file :
      (w : FileVersion) → has_active_file kept w ≡ true → has_active_file db w ≡ true
  unfolding has_active_file turn_away
  turn_away-has_active_file w h =
      any-update_where_le gone (λ (f : FileRecord). record f { removed_at = some now })
        (λ f. f.id == w.file_id && f.case_id == w.case_id && is_active f) (λ f k. ground arith)
        db.files h

  -- A preview that is still cached was cached, and is not among those that went.
  turn_away-is_cached :
      (c : Key) (w : FileVersion)
      → is_cached c kept (if goes w then disabled w else w) ≡ true
      → (is_cached c db w && not (goes w)) ≡ true
  unfolding is_cached
  turn_away-is_cached c w h = elim (Bool-cases (goes w)) [
    | inl e ↦ let h' : is_cached c kept (disabled w) ≡ true = rw e at h in ground arith
    | inr e ↦
        let h' : is_cached c kept w ≡ true = rw e at h in
        ground (arith, turn_away-has_active_file w)
  ]

  turn_away-signed_by :
      (w : FileVersion)
      → any (λ d. same_id d.original (some w.id) && any (signs_with d.id) db.signings) kept.versions
        ≡ any (λ d. same_id d.original (some w.id) && any (signs_with d.id) db.signings) db.versions
  unfolding turn_away
  turn_away-signed_by w =
      any-update_where goes disabled
        (λ d. same_id d.original (some w.id) && any (signs_with d.id) db.signings) (λ d. refl)
        db.versions

  turn_away-is_retained :
      (c : Key) (w : FileVersion)
      → is_retained c kept (if goes w then disabled w else w) ≡ true
      → is_retained c db w ≡ true
  unfolding is_retained turn_away has_active_file
  turn_away-is_retained c w h = elim (Bool-cases (goes w)) [
    | inl e ↦
        let h' : is_retained c kept (disabled w) ≡ true = rw e at h in
        ground (arith, turn_away-has_active_file w, turn_away-signed_by w)
    | inr e ↦
        let h' : is_retained c kept w ≡ true = rw e at h in
        ground (arith, turn_away-has_active_file w, turn_away-signed_by w)
  ]

  retained_le : (c : Key) → evidence_retained_bytes c kept ≤ evidence_retained_bytes c db
  unfolding evidence_retained_bytes turn_away
  retained_le c =
      sum_updated_le (λ w. w.size_bytes) _ (is_retained c db) goes disabled (λ w. ground arith)
        (turn_away-is_retained c) db.versions

  pub cached_le :
      (c : Key)
      → count (is_cached c kept) kept.versions
        ≤ count (λ w. is_cached c db w && not (goes w)) db.versions
  unfolding turn_away
  cached_le c = count_updated_le _ _ goes disabled (turn_away-is_cached c) db.versions

  turn_away-knows_file :
      (w : FileVersion)
      → any (λ f. f.id == w.file_id) kept.files ≡ any (λ f. f.id == w.file_id) db.files
  unfolding turn_away
  turn_away-knows_file w = any-update_where _ _ (λ f. f.id == w.file_id) (λ f. refl) db.files

  turn_away-knows_version :
      (k : Key) → any (λ v. v.id == k) kept.versions ≡ any (λ v. v.id == k) db.versions
  unfolding turn_away
  turn_away-knows_version k = any-update_where _ _ (λ v. v.id == k) (λ v. refl) db.versions

  pub turn_away-IsLinked : IsLinked db → IsLinked kept
  unfolding turn_away
  turn_away-IsLinked s = record {
    files_known =
        All-update_where _ _ _ (λ w h. h) db.versions
          (All-map _ _ (λ (w : FileVersion) h. turn_away-knows_file w ∙ h) db.versions
            s.files_known);
    resources_known =
        All-map _ _ (λ (x : Signing) h. turn_away-knows_version x.resource ∙ h) db.signings
          s.resources_known;
    previews_known =
        All-map _ _ (λ (x : Signing) h. turn_away-knows_version x.preview ∙ h) db.signings
          s.previews_known;
  }

  pub turn_away-IsStored : IsStored db → IsStored kept
  turn_away-IsStored s = record {
    linked = turn_away-IsLinked s.linked;
    within = λ c. omega (arith, retained_le c, s.within c);
  }
