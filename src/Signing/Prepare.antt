-- ===== src/Signing/Prepare.antt =====
-- `prepareOrdinarySigning` of apps/api/src/cases/case.service.ts: a first transaction checks the
-- command against the stored rows, the stored files are read and hashed, and a second one checks
-- again and records the signing. The payload of the record is not modelled.
use authorization_document.Cases.Evidence.{SigningInput, next_signing}
use authorization_document.Files.Uploads.{is_seal_original}
use authorization_document.Links.Access.{resolve}
use authorization_document.Signing.Command.{
  ModeValue, RawCommand, SigningCommand, is_exactly, validate_signing_command, seal_mode,
  validate_resource_binding, handwritten_mode,
}
use authorization_document.Files.Capacity.{has_active_file, invalidate_signings}
use authorization_document.Model.Db.{Db, audit_as}
use authorization_document.Model.Rows.{
  Key, Hash, Json, Time, FileVersion, ordinary_signing_prepared, TargetType, Link, Case, Draft,
}
use authorization_document.Model.Status.{
  customer_actor, handwritten, seal_original, seal_processed, presign_pdf, hand_signature,
  stamp_upload, FilePurpose, CaseStatus, same_purpose, SignatureMode, same_status, is_editable,
}
use authorization_document.Base.{
  ok, ◌>>=◌, ◌>>◌, none, some, true, false, ◌∷◌, Option, Result, List, Bool, find, option_map, ℕ,
  from_option, ◌==◌, not, same_id, conflict, ◌&&◌, changed_during_verification, ◌||◌, require,
  bad_request, if◌then◌else◌, storage_mismatch, seal_original_required, status_not_allowed,
  seal_original_missing, internal, draft_missing, row_missing, resource_missing, preview_missing,
}
use authorization_document.Templates.Tree.{Slot}
use authorization_document.Drafts.Content.{latest_draft, RenderInput, content_digest}

-- `purpose: { in: [HANDWRITTEN, SEAL_ORIGINAL, SEAL_PROCESSED] }`
abbrev is_resource : FilePurpose → Bool
is_resource handwritten = true
is_resource seal_original = true
is_resource seal_processed = true
is_resource _ = false

-- The resource that a command names, by its version or by its file.
unfoldable pub find_resource : Key → SigningCommand → Db → Option FileVersion
unfolding has_active_file
find_resource case_id command db =
    find
      (λ v.
        v.case_id == case_id
        && v.version == command.resource_version
        && (v.id == command.resource_id || v.file_id == command.resource_id)
        && is_resource v.purpose
        && has_active_file db v)
      db.versions

unfoldable pub find_seal_original : Key → Key → Db → Option FileVersion
unfolding has_active_file
find_seal_original id case_id db = find (is_seal_original id case_id db) db.versions

-- The original that a command for a seal names; other commands name none.
unfoldable pub required_original : ModeValue → Option Key → Key → Db → Result (Option FileVersion)
unfolding find_seal_original
required_original mode original case_id db = elim (is_exactly seal_mode mode) [
  | false ↦ ok none
  | true ↦ do
    id ← from_option (bad_request seal_original_required) original
    v ← from_option (bad_request seal_original_missing) (find_seal_original id case_id db)
    ok (some v)
]

unfoldable pub find_preview : Key → Hash → Db → Option FileVersion
find_preview case_id digest db =
    find
      (λ v.
        v.case_id == case_id
        && same_purpose v.purpose presign_pdf
        && same_id v.content_digest (some digest))
      db.versions

abbrev pub id_of : Option FileVersion → Option Key
id_of = option_map (λ v. v.id)

-- What the first transaction returns.
pub record Checked : Type 0 where
  pub case_id : Key
  pub status : CaseStatus
  pub draft_version : ℕ
  pub digest : Hash
  pub resource : FileVersion
  pub seal_original : Option FileVersion
  pub preview : FileVersion

-- `persistedOriginal` is read for a processed seal.
abbrev pub original_intact : (Key → Option Hash) → FileVersion → Option FileVersion → Bool
original_intact stored resource none = true
original_intact stored resource (some original) =
    not (same_purpose resource.purpose seal_processed)
    || same_id (stored original.storage_key) (some original.sha256)

abbrev pub intact : (Key → Option Hash) → FileVersion → Bool
intact stored v = same_id (stored v.storage_key) (some v.sha256)

-- The rows of the first transaction, found again by the second.
abbrev pub same_resource : FileVersion → FileVersion → Bool
same_resource a b =
    a.sha256 == b.sha256 && a.storage_key == b.storage_key && same_id a.original b.original

abbrev pub same_bytes : FileVersion → FileVersion → Bool
same_bytes a b = a.sha256 == b.sha256 && a.storage_key == b.storage_key

unfoldable pub resource_again : Checked → Db → Option FileVersion
unfolding has_active_file
resource_again c db =
    find
      (λ v.
        v.id == c.resource.id
        && v.case_id == c.case_id
        && v.version == c.resource.version
        && same_purpose v.purpose c.resource.purpose
        && has_active_file db v)
      db.versions

unfoldable pub preview_again : Checked → Hash → Db → Option FileVersion
unfolding has_active_file
preview_again c digest db =
    find
      (λ v.
        v.id == c.preview.id
        && v.case_id == c.case_id
        && same_purpose v.purpose presign_pdf
        && same_id v.content_digest (some digest)
        && has_active_file db v)
      db.versions

unfoldable pub original_again : Checked → Db → Result (Option FileVersion)
unfolding find_seal_original
original_again c db = elim c.seal_original [
  | none ↦ ok none
  | some original ↦ do
    v ←
        from_option (conflict changed_during_verification)
          (find_seal_original original.id c.case_id db)
    require (same_bytes v original) (conflict changed_during_verification)
    ok (some v)
]

abbrev pub recorded_mode : ModeValue → SignatureMode
recorded_mode mode = if is_exactly handwritten_mode mode then hand_signature else stamp_upload

-- The writes of a signing: the older ones are voided, and the new one takes the next version.
unfoldable pub signing_writes : Time → Key → SigningInput → Db → Db
unfolding invalidate_signings
signing_writes now id input db =
    let voided = invalidate_signings now input.case_id db in
    audit_as customer_actor ordinary_signing_prepared TargetType.business_case input.case_id
      (record voided { signings = next_signing id input voided ∷ voided.signings })

pub record Rechecked : Type 0 where
  pub link : Link
  pub item : Case
  pub saved : Draft
  pub hash : Hash
  pub command : SigningCommand

-- The row of a signing.
abbrev pub signing_input : Checked → Rechecked → FileVersion → FileVersion → SigningInput
signing_input c r resource preview = record {
  case_id = c.case_id;
  mode = recorded_mode r.command.mode;
  resource = resource.id;
  draft_version = some r.saved.version;
  content_digest = some r.hash;
  preview = preview.id;
  preview_sha = preview.sha256;
}

-- The rest of the second transaction: the files' rows again, and the writes.
unfoldable pub sign_rows : Time → Key → Checked → Rechecked → Db → Result (ℕ × Db)
unfolding resource_again original_again validate_resource_binding preview_again signing_writes
sign_rows now id c r db = do
  resource ← from_option (conflict changed_during_verification) (resource_again c db)
  require (same_resource resource c.resource) (conflict changed_during_verification)
  original ← original_again c db
  validate_resource_binding r.command.mode resource.purpose resource.original (id_of original)
  preview ← from_option (conflict changed_during_verification) (preview_again c r.hash db)
  require (same_bytes preview c.preview) (conflict changed_during_verification)
  let input = signing_input c r resource preview
  ok (
    (next_signing id input (invalidate_signings now c.case_id db)).version,
    signing_writes now id input db,
  )

-- `digest` is SHA-256 on tokens, `digest_of` the content digest of an input, and `slots_of`
-- `signatureSlots` on the stored tree of a template.
module _ (digest : Key → Hash) (digest_of : RenderInput → Hash) (slots_of : Json → List Slot) where
  unfoldable pub check_signing : Time → Key → Option RawCommand → Db → Result Checked
  unfolding resolve latest_draft content_digest validate_signing_command find_resource
      required_original validate_resource_binding find_preview
  check_signing now token raw db = do
    link ← resolve digest now token db
    item ← from_option (bad_request status_not_allowed) (db.cases link.case_id)
    require (is_editable item.status) (bad_request status_not_allowed)
    saved ← from_option (bad_request draft_missing) (latest_draft link.case_id db)
    hash ← content_digest digest_of link.case_id saved.version saved.content db
    template ← from_option (internal row_missing) (db.templates item.template_version)
    command ← validate_signing_command raw (slots_of template.ast)
    resource ← from_option (bad_request resource_missing) (find_resource link.case_id command db)
    original ← required_original command.mode command.seal_original link.case_id db
    validate_resource_binding command.mode resource.purpose resource.original (id_of original)
    preview ← from_option (bad_request preview_missing) (find_preview link.case_id hash db)
    ok (record {
      case_id = link.case_id;
      status = item.status;
      draft_version = saved.version;
      digest = hash;
      resource = resource;
      seal_original = original;
      preview = preview;
    })

  -- What the second transaction reads again of the case, and the command, which is the same where it
  -- is valid, as the body is.
  unfoldable pub recheck : Time → Key → Option RawCommand → Checked → Db → Result Rechecked
  unfolding resolve latest_draft content_digest validate_signing_command
  recheck now token raw c db = do
    link ← resolve digest now token db
    require (link.case_id == c.case_id) (conflict changed_during_verification)
    item ← from_option (conflict changed_during_verification) (db.cases c.case_id)
    require (same_status item.status c.status) (conflict changed_during_verification)
    saved ← from_option (conflict changed_during_verification) (latest_draft c.case_id db)
    require (saved.version == c.draft_version) (conflict changed_during_verification)
    hash ← content_digest digest_of c.case_id saved.version saved.content db
    require (hash == c.digest) (conflict changed_during_verification)
    template ← from_option (internal row_missing) (db.templates item.template_version)
    command ← validate_signing_command raw (slots_of template.ast)
    ok (record { link = link; item = item; saved = saved; hash = hash; command = command })

  -- The second transaction.
  unfoldable pub sign_checked :
      Time → Key → Key → Option RawCommand → Checked → Db → Result (ℕ × Db)
  unfolding recheck sign_rows
  sign_checked now id token raw c db = recheck now token raw c db >>= λ r. sign_rows now id c r db

  -- The whole: `stored` is the SHA-256 of what the storage holds under a key, and `later` the state
  -- of the tables when the second transaction runs.
  unfoldable pub prepare_signing :
      (Key → Option Hash) → Time → Time → Key → Key → Option RawCommand → Db → Db → Result (ℕ × Db)
  unfolding check_signing sign_checked
  prepare_signing stored now then_now id token raw db later = do
    c ← check_signing now token raw db
    require (intact stored c.resource) (bad_request storage_mismatch)
    require (original_intact stored c.resource c.seal_original) (bad_request storage_mismatch)
    require (intact stored c.preview) (bad_request storage_mismatch)
    sign_checked then_now id token raw c later
