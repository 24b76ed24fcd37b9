-- ===== src/Signing/Preview.antt =====
-- `createPresignPreview`, `renderAndPersistPresign` and `validPresignCache` of
-- apps/api/src/cases/case.service.ts, with a preview service that has `prepare` and
-- `renderPrepared`. Two requests that wait for the same render are not modelled.
use authorization_document.Signing.Cache.{
  find_cached, Rendered, Persisted, valid_presign_cache, add_preview, cached_or,
}
use authorization_document.Links.Access.{resolve}
use authorization_document.Drafts.Content.{
  latest_draft, RenderInput, prepare_input, compute_content_digest,
}
use authorization_document.Templates.Tree.{Slot}
use authorization_document.Storage.Content.{Bytes}
use authorization_document.Files.Gate.{GateState, preview_limits, enter}
use authorization_document.Files.Incoming.{NewIds, Stored}
use authorization_document.Model.Db.{Db}
use authorization_document.Model.Rows.{Key, Hash, Json, Time, FileVersion}
use authorization_document.Base.{
  List, Option, none, some, ℕ, ◌==◌, Result, ok, err, require, bad_request, from_option,
  render_data_incomplete, conflict, link_case_mismatch, preview_changed, ◌>>=◌, ◌>>◌,
}

-- `presignResponse`
pub record PresignResponse : Type 0 where
  pub file_version : Key
  pub draft_version : ℕ
  pub digest : Hash
  pub sha256 : Hash
  pub slots : List Slot

abbrev or_version : Option ℕ → ℕ → ℕ
or_version none n = n
or_version (some m) n = m

abbrev pub presign_response :
    (Json → List Slot) → FileVersion → RenderInput → Hash → PresignResponse
presign_response slots_of v input hash = record {
  file_version = v.id;
  draft_version = or_version v.draft_version input.draft_version;
  digest = hash;
  sha256 = v.sha256;
  slots = slots_of input.ast;
}

module _ (digest : Key → Hash) (digest_of : RenderInput → Hash) where
  -- `prepareCanonicalPresignInput` without a draft takes the latest one.
  unfoldable pub prepare_canonical : Key → Db → Result (RenderInput × Hash)
  unfolding latest_draft prepare_input
  prepare_canonical case_id db = do
    saved ← from_option (bad_request render_data_incomplete) (latest_draft case_id db)
    input ← prepare_input case_id saved.version saved.content db
    ok (input, compute_content_digest digest_of input)

  -- The case of a link, with the input of its preview.
  unfoldable pub prepared_for : Time → Key → Db → Result (Key × (RenderInput × Hash))
  unfolding resolve prepare_canonical
  prepared_for now token db = do
    link ← resolve digest now token db
    p ← prepare_canonical link.case_id db
    ok (link.case_id, p)

  -- The transaction of `renderAndPersistPresign`.
  unfoldable pub persist_preview :
      Time → Key → Key → Rendered → NewIds → Stored → Db → Result (Persisted × Db)
  unfolding resolve prepare_canonical find_cached add_preview
  persist_preview now token case_id r ids stored db = do
    link ← resolve digest now token db
    require (link.case_id == case_id) (bad_request link_case_mismatch)
    current ← prepare_canonical case_id db
    require (current.1 == r.digest) (conflict preview_changed)
    cached_or (find_cached link.case_id r.digest db) db
        (add_preview now ids link.case_id r stored db)

  -- `renderPrepared` gives the bytes, here their number; the gate is entered for the time of it.
  unfoldable pub render_and_persist :
      Option GateState
      → Time
      → Time
      → Key
      → Key
      → (RenderInput × Hash → Result Rendered)
      → RenderInput × Hash
      → NewIds
      → Stored
      → Db
      → Result (Persisted × Db)
  unfolding enter persist_preview
  render_and_persist gate now then_now token case_id render prepared ids stored db = do
    enter preview_limits now gate
    r ← render prepared
    persist_preview then_now token case_id r ids stored db

  -- The response, and the rows that are left whether it is an error or not.
  abbrev answered :
      (Json → List Slot)
      → RenderInput × Hash
      → Result (Persisted × Db)
      → Db
      → Result PresignResponse × Db
  answered slots_of prepared (err e) db = (err e, db)
  answered slots_of prepared (ok (p, db')) db =
      (ok (presign_response slots_of p.version prepared.0 prepared.1), db')

  abbrev pub respond_or_render :
      (Json → List Slot)
      → RenderInput × Hash
      → Option FileVersion × Db
      → (Db → Result (Persisted × Db))
      → Result PresignResponse × Db
  respond_or_render slots_of prepared (some v, db) persist =
      (ok (presign_response slots_of v prepared.0 prepared.1), db)
  respond_or_render slots_of prepared (none, db) persist =
      answered slots_of prepared (persist db) db

  abbrev pub answer_or_render :
      (Json → List Slot)
      → (Key → RenderInput × Hash → Option FileVersion × Db)
      → (Key → RenderInput × Hash → Db → Result (Persisted × Db))
      → Result (Key × (RenderInput × Hash))
      → Db
      → Result PresignResponse × Db
  answer_or_render slots_of cache persist (err e) db = (err e, db)
  answer_or_render slots_of cache persist (ok (case_id, p)) db =
      respond_or_render slots_of p (cache case_id p) (persist case_id p)

  -- `createPresignPreview`
  unfoldable pub create_presign_preview :
      (Json → List Slot)
      → (Bytes → Hash)
      → (Key → Option Bytes)
      → Option GateState
      → (RenderInput × Hash → Result Rendered)
      → Time
      → Time
      → Key
      → NewIds
      → Stored
      → Db
      → Result PresignResponse × Db
  unfolding prepared_for valid_presign_cache render_and_persist
  create_presign_preview slots_of sha storage gate render now then_now token ids stored db =
      answer_or_render slots_of (λ case_id p. valid_presign_cache sha storage now case_id p.1 db)
        (λ case_id p. render_and_persist gate now then_now token case_id render p ids stored)
        (prepared_for now token db) db
