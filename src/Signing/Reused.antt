-- ===== src/Signing/Reused.antt =====
-- What `createPresignPreview` of apps/api/src/cases/case.service.ts leaves and gives again.
use authorization_document.Signing.Retired.{turn_away-IsStored}
use authorization_document.Signing.Preview.{
  persist_preview, prepare_canonical, prepared_for, create_presign_preview, presign_response,
}
use authorization_document.Signing.Cached.{
  IsCacheSmall, add_preview-IsStored, add_preview-IsCacheSmall, add_preview-find_cached,
}
use authorization_document.Signing.Cache.{
  Rendered, Persisted, add_preview, find_cached, cached_or, holds_preview, valid_presign_cache,
  drop_cached, check_cached,
}
use authorization_document.Templates.Tree.{Slot}
use authorization_document.Storage.Content.{Bytes}
use authorization_document.Drafts.Content.{RenderInput}
use authorization_document.Links.Access.{resolve}
use authorization_document.Files.Incoming.{NewIds, Stored}
use authorization_document.Files.Gate.{GateState}
use authorization_document.Files.Bounds.{IsLinked}
use authorization_document.Files.Within.{IsStored}
use authorization_document.Model.Rows.{Time, Key, Hash, Json, FileVersion}
use authorization_document.Base.{
  Option, Result, List, ok, none, some, true, ap, ok_injective, >>=-eq-ok, require, bad_request,
  conflict, link_case_mismatch, preview_changed, subst, ◌≡◌, ◌==◌, refl, arith, inl, inr,
  Bool-cases,
}
use authorization_document.Model.Db.{Db}

found_valid :
    (sha : Bytes → Hash) (storage : Key → Option Bytes) (now : Time) (case_id : Key) (digest : Hash)
    (db : Db) (v : FileVersion)
    → find_cached case_id digest db ≡ some v
    → holds_preview sha (storage v.storage_key) v ≡ true
    → valid_presign_cache sha storage now case_id digest db ≡ (some v, db)
unfolding valid_presign_cache
found_valid sha storage now case_id digest db v found held =
    rw (valid_presign_cache, found, held) refl

check_cached-IsStored :
    (sha : Bytes → Hash) (storage : Key → Option Bytes) (now : Time) (o : Option FileVersion)
    (db : Db)
    → IsStored db
    → IsStored (check_cached sha storage now o db).1
unfolding drop_cached
check_cached-IsStored sha storage now none db s = s
check_cached-IsStored sha storage now (some v) db s =
    elim (Bool-cases (holds_preview sha (storage v.storage_key) v)) [
      | inl e ↦ rw e s
      | inr e ↦ rw e (turn_away-IsStored now _ _ db s)
    ]

pub valid_presign_cache-IsStored :
    (sha : Bytes → Hash) (storage : Key → Option Bytes) (now : Time) (case_id : Key) (digest : Hash)
    (db : Db)
    → IsStored db
    → IsStored (valid_presign_cache sha storage now case_id digest db).1
unfolding valid_presign_cache
valid_presign_cache-IsStored sha storage now case_id digest db =
    check_cached-IsStored sha storage now (find_cached case_id digest db) db

module _ (digest : Key → Hash) (digest_of : RenderInput → Hash) (now : Time) (token case_id : Key)
    (r : Rendered) (ids : NewIds) (stored : Stored) (db db' : Db) (p : Persisted) where
  -- What a persisted preview is: one that was cached, or one that is added.
  persist_preview-eq-ok :
      persist_preview digest digest_of now token case_id r ids stored db ≡ ok (p, db')
      → cached_or (find_cached case_id r.digest db) db (add_preview now ids case_id r stored db)
        ≡ ok (p, db')
  unfolding persist_preview
  persist_preview-eq-ok h =
      let (l, e, h₁) = >>=-eq-ok (resolve digest now token db) _ h in
      let (u, e₁, h₂) =
        >>=-eq-ok (require (l.case_id == case_id) (bad_request link_case_mismatch)) _ h₁ in
      let (c, e₂, h₃) = >>=-eq-ok (prepare_canonical digest digest_of case_id db) _ h₂ in
      let (w, e₃, h₄) = >>=-eq-ok (require (c.1 == r.digest) (conflict preview_changed)) _ h₃ in
      let same : l.case_id ≡ case_id = ground arith in
      subst
        (λ k.
          cached_or (find_cached k r.digest db) db (add_preview now ids k r stored db)
          ≡ ok (p, db'))
        same h₄

  -- What holds of the rows before, and of the rows that a new preview leaves, holds after.
  persist_kept :
      (P : Db → Type 0)
      → P db
      → (add_preview now ids case_id r stored db ≡ ok (p, db') → P db')
      → persist_preview digest digest_of now token case_id r ids stored db ≡ ok (p, db')
      → P db'
  persist_kept P before rest h = go (find_cached case_id r.digest db) (persist_preview-eq-ok h)
    where
      go :
          (o : Option FileVersion)
          → cached_or o db (add_preview now ids case_id r stored db) ≡ ok (p, db')
          → P db'
      go none e = rest e
      go (some v) e = subst P (ap (λ y. y.1) (ok_injective e)) before

  pub persist_preview-IsStored :
      IsStored db
      → persist_preview digest digest_of now token case_id r ids stored db ≡ ok (p, db')
      → IsStored db'
  persist_preview-IsStored s =
      persist_kept IsStored s (add_preview-IsStored now ids case_id r stored db p db' s)

  -- At most three previews of a case are cached: where every row names rows that are there and no
  -- case has more than three cached previews, none has more after a preview is persisted, whether
  -- it is a new one or one that was cached.
  pub persist_preview-IsCacheSmall :
      IsLinked db
      → IsCacheSmall db
      → persist_preview digest digest_of now token case_id r ids stored db ≡ ok (p, db')
      → IsCacheSmall db'
  persist_preview-IsCacheSmall linked small =
      persist_kept IsCacheSmall small
        (add_preview-IsCacheSmall now ids case_id r stored db p db' linked small)

  persist_preview-find_cached :
      persist_preview digest digest_of now token case_id r ids stored db ≡ ok (p, db')
      → find_cached case_id r.digest db' ≡ some p.version
  persist_preview-find_cached h =
      go (find_cached case_id r.digest db) refl (persist_preview-eq-ok h)
    where
      go :
          (o : Option FileVersion)
          → find_cached case_id r.digest db ≡ o
          → cached_or o db (add_preview now ids case_id r stored db) ≡ ok (p, db')
          → find_cached case_id r.digest db' ≡ some p.version
      go none f e = add_preview-find_cached now ids case_id r stored db p db' e
      go (some v) f e =
          let same = ok_injective e in
          subst (λ y. find_cached case_id r.digest y.1 ≡ some y.0.version) same f

  -- A preview is rendered once: after it is persisted, and as long as the content of the case has
  -- its digest and the storage holds it as it was recorded, a request through any link of the case
  -- is answered with it and changes no row, whatever the rate gate and the renderer would say.
  pub persist_preview-create_presign_preview :
      (slots_of : Json → List Slot) (sha : Bytes → Hash) (storage : Key → Option Bytes)
      (gate : Option GateState) (render : RenderInput × Hash → Result Rendered)
      (later then_later : Time) (token' : Key) (ids' : NewIds) (stored' : Stored)
      (input : RenderInput)
      → persist_preview digest digest_of now token case_id r ids stored db ≡ ok (p, db')
      → prepared_for digest digest_of later token' db' ≡ ok (case_id, (input, r.digest))
      → holds_preview sha (storage p.version.storage_key) p.version ≡ true
      → create_presign_preview digest digest_of slots_of sha storage gate render later then_later
          token' ids' stored' db'
        ≡ (ok (presign_response slots_of p.version input r.digest), db')
  unfolding create_presign_preview
  persist_preview-create_presign_preview slots_of sha storage gate render later then_later token'
        ids' stored' input h prepared held =
      let served : valid_presign_cache sha storage later case_id r.digest db'
          ≡ (some p.version, db') =
        found_valid sha storage later case_id r.digest db' p.version (persist_preview-find_cached h)
          held in
      rw (prepared, served) refl
