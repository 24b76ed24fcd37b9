-- ===== src/Tests/PreviewTests.antt =====
-- Runs of the previews.
use authorization_document.Tests.TemplateTests.{party_a}
use authorization_document.Tests.DraftTests.{first_save, digest_of}
use authorization_document.Tests.Data.{hash_of, get_ok, no_rows}
use authorization_document.Signing.Reused.{
  persist_preview-IsCacheSmall, persist_preview-create_presign_preview,
}
use authorization_document.Signing.Preview.{
  prepare_canonical, prepared_for, persist_preview, render_and_persist, create_presign_preview,
}
use authorization_document.Signing.Cached.{IsCacheSmall, preview_record}
use authorization_document.Signing.Cache.{
  is_cached, find_cached, turn_away, retire, retired_previews, retired_keys, add_preview,
  valid_presign_cache, drop_cached, preview_version, Rendered, Persisted,
}
use authorization_document.Review.Confirm.{latest_snapshot}
use authorization_document.Templates.Tree.{Slot}
use authorization_document.Storage.Content.{Bytes}
use authorization_document.Files.Incoming.{NewIds, Stored}
use authorization_document.Files.Gate.{enter}
use authorization_document.Files.Bounds.{IsLinked}
use authorization_document.Files.Capacity.{
  has_active_file, invalidate_signings, evidence_retained_bytes, create_file, is_retained,
}
use authorization_document.Drafts.Save.{
  save_public_draft, answer, is_allowed, is_foreign_change, assert_supplement_only, content_of,
  save_writes, digest_before,
}
use authorization_document.Drafts.Content.{
  latest_draft, prepare_input, content_digest, active_materials, render_file, sort_versions,
}
use authorization_document.Links.Access.{resolve}
use authorization_document.Model.Rows.{Key, Hash, Json, FileVersion}
use authorization_document.Base.{
  find, any, count, update_where, find_latest, filter, sum_of, ok, err, some, none, true, [], ◌∷◌,
  refl, ◌≡◌, ◌+◌, Option, List, if◌then◌else◌, ◌==◌, codes, length, arith, unavailable,
  upstream_unavailable,
}
use authorization_document.Model.Db.{Db}

runs : Unit {0}
unfolding find any count update_where find_latest filter resolve latest_draft latest_snapshot
    prepare_input content_digest active_materials render_file sort_versions has_active_file
    save_public_draft answer is_allowed is_foreign_change assert_supplement_only content_of
    save_writes digest_before invalidate_signings sum_of evidence_retained_bytes create_file
    is_retained is_cached find_cached turn_away retire retired_previews retired_keys add_preview
    valid_presign_cache drop_cached prepare_canonical prepared_for persist_preview
    render_and_persist create_presign_preview enter
runs = tt

abbrev old_preview : Key → Hash → FileVersion
old_preview id contents =
    preview_version (record { file_id = id; version_id = id + 1 }) 1
      (record { size = 10; digest = contents; draft_version = 1 })
      (record { sha256 = 91; storage_key = id + 2 })

-- A case whose draft is saved, with three previews of older drafts.
abbrev crowded : Db
crowded = record first_save.1 {
  files =
      preview_record (record { file_id = 60; version_id = 61 }) 1
      ∷ preview_record (record { file_id = 63; version_id = 64 }) 1
      ∷ preview_record (record { file_id = 66; version_id = 67 }) 1
      ∷ [];
  versions = old_preview 60 501 ∷ old_preview 63 502 ∷ old_preview 66 503 ∷ [];
}

abbrev rendered : Rendered
rendered = record { size = 12; digest = 900; draft_version = 1 }

abbrev ids : NewIds
ids = record { file_id = 70; version_id = 71 }

abbrev written : Stored
written = record { sha256 = 3; storage_key = 72 }

abbrev new_preview : Persisted × Db
new_preview =
    get_ok (persist_preview hash_of digest_of 1000 7 1 rendered ids written crowded)
      (record { version = old_preview 60 501; reused = true; removed_keys = [] }, no_rows)

new_preview_run : new_preview.0.removed_keys ≡ 68 ∷ []
unfolding runs
new_preview_run = refl

crowded-IsLinked : IsLinked crowded
unfolding runs
crowded-IsLinked = record {
  files_known = (refl, (refl, (refl, tt)));
  resources_known = tt;
  previews_known = tt;
}

crowded-IsCacheSmall : IsCacheSmall crowded
unfolding runs
crowded-IsCacheSmall = λ c. ground arith

persist_preview-IsCacheSmall_example : IsCacheSmall new_preview.1
unfolding runs
persist_preview-IsCacheSmall_example =
    persist_preview-IsCacheSmall hash_of digest_of 1000 7 1 rendered ids written crowded
      new_preview.1 new_preview.0 crowded-IsLinked crowded-IsCacheSmall refl

abbrev slots : Json → List Slot
slots ast = party_a ∷ []

abbrev held : Key → Option Bytes
held key = if key == 72 then some (codes "pdf") else none

-- The second request comes while the gate is full and the renderer is broken.
persist_preview-create_presign_preview_example :
    create_presign_preview hash_of digest_of slots length held
      (some (record { started_at = 1000; attempts = 6; active = 1 }))
      (λ p. err (unavailable upstream_unavailable))
      1100
      1101
      7
      ids
      written
      new_preview.1
    ≡ (
      ok (record {
        file_version = 71;
        draft_version = 1;
        digest = 900;
        sha256 = 3;
        slots = party_a ∷ [];
      }),
      new_preview.1,
    )
unfolding runs
persist_preview-create_presign_preview_example =
    persist_preview-create_presign_preview hash_of digest_of 1000 7 1 rendered ids written crowded
      new_preview.1 new_preview.0 slots length held
      (some (record { started_at = 1000; attempts = 6; active = 1 }))
      (λ p. err (unavailable upstream_unavailable)) 1100 1101 7 ids written _ refl refl refl
