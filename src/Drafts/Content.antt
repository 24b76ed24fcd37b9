-- ===== src/Drafts/Content.antt =====
-- apps/api/src/cases/presign-canonical.ts: the one input of the content digest.
use authorization_document.Review.Confirm.{latest_snapshot}
use authorization_document.Files.Capacity.{has_active_file}
use authorization_document.Model.Db.{Db}
use authorization_document.Model.Rows.{
  Key, Hash, Json, FileVersion, TemplateVersion, Content, Snapshot, Draft, FileRecord,
  published_version,
}
use authorization_document.Model.Status.{material, same_purpose}
use authorization_document.Base.{
  Text, ℕ, ◌>>=◌, ◌>>◌, none, some, true, false, [], ◌∷◌, ok, Option, List, Bool, if◌then◌else◌,
  filter, Result, find_latest, ltb, find, ◌==◌, from_option, ◌||◌, ◌&&◌, bad_request, leb,
  render_data_incomplete, internal, row_missing, require, template_not_published, map, option_map,
}

pub record RenderFile : Type 0 where
  pub id : Key
  pub file_id : Key
  pub version : ℕ
  pub original_name : Text
  pub mime_type : Key
  pub size_bytes : ℕ
  pub sha256 : Hash
  pub requirement_key : Option Key

pub record RenderInput : Type 0 where
  pub template_version : Key
  pub ast : Json
  pub snapshot : Snapshot
  pub draft_version : ℕ
  pub answers : List (Key × Json)
  pub files : List RenderFile

unfoldable pub latest_draft : Key → Db → Option Draft
latest_draft case_id db = find_latest (λ d. d.version) (λ d. d.case_id == case_id) db.drafts

-- `orderBy: [{ fileId: 'asc' }, { version: 'asc' }]`
abbrev before : FileVersion → FileVersion → Bool
before a b = ltb a.file_id b.file_id || (a.file_id == b.file_id && leb a.version b.version)

unfoldable pub insert : FileVersion → List FileVersion → List FileVersion
insert v [] = v ∷ []
insert v (w ∷ rest) = if before v w then v ∷ w ∷ rest else w ∷ insert v rest

unfoldable pub sort_versions : List FileVersion → List FileVersion
unfolding insert
sort_versions [] = []
sort_versions (v ∷ rest) = insert v (sort_versions rest)

abbrev file_of : FileVersion → Db → Option FileRecord
file_of v db = find (λ f. f.id == v.file_id && f.case_id == v.case_id) db.files

abbrev pub key_of : Option FileRecord → Db → Option Key
key_of none db = none
key_of (some f) db = option_map db.requirement_keys f.requirement_version

unfoldable pub render_file : Db → FileVersion → RenderFile
render_file db v = record {
  id = v.id;
  file_id = v.file_id;
  version = v.version;
  original_name = v.original_name;
  mime_type = v.mime_type;
  size_bytes = v.size_bytes;
  sha256 = v.sha256;
  requirement_key = key_of (file_of v db) db;
}

-- Material that has not been removed.
unfoldable pub active_materials : Key → Db → List FileVersion
unfolding has_active_file
active_materials case_id db =
    filter (λ v. v.case_id == case_id && same_purpose v.purpose material && has_active_file db v)
      db.versions

abbrev pub is_published : TemplateVersion → Bool
is_published t = elim t.status [ published_version ↦ true | _ ↦ false ]

abbrev materials_or : Option Json → Json → Json
materials_or none m = m
materials_or (some n) m = n

-- `prepareCanonicalPresignInput` with a draft.
unfoldable pub prepare_input : Key → ℕ → Content → Db → Result RenderInput
unfolding latest_snapshot active_materials render_file sort_versions
prepare_input case_id version content db = do
  item ← from_option (bad_request render_data_incomplete) (db.cases case_id)
  snapshot ← from_option (bad_request render_data_incomplete) (latest_snapshot case_id db)
  template ← from_option (internal row_missing) (db.templates item.template_version)
  require (is_published template) (bad_request template_not_published)
  ok (record {
    template_version = item.template_version;
    ast = template.ast;
    snapshot = record snapshot { materials = materials_or content.materials snapshot.materials };
    draft_version = version;
    answers = content.answers;
    files = map (render_file db) (sort_versions (active_materials case_id db));
  })

-- `computePdfContentDigest` of packages/template-engine/src/pdf-renderer.ts leaves the draft version
-- out, for which 0 stands here; `digest_of` is the SHA-256 of the canonical JSON text of the rest.
abbrev pub compute_content_digest : (RenderInput → Hash) → RenderInput → Hash
compute_content_digest digest_of input = digest_of (record input { draft_version = 0 })

-- `contentDigestTx`
unfoldable pub content_digest : (RenderInput → Hash) → Key → ℕ → Content → Db → Result Hash
unfolding prepare_input
content_digest digest_of case_id version content db = do
  input ← prepare_input case_id version content db
  ok (compute_content_digest digest_of input)
