-- ===== src/Pdf/Complete.antt =====
-- `complete` of apps/worker/src/pdf/pdf-job.repository.ts.
use authorization_document.Storage.Policy.{max_case_bytes}
use authorization_document.Files.Capacity.{create_file, evidence_retained_bytes}
use authorization_document.Pdf.Jobs.{find_task, signing_of, holds_lease, has_status}
use authorization_document.Model.Db.{Db}
use authorization_document.Model.Rows.{
  Key, PdfTask, Hash, FileRecord, Signing, Time, FileVersion, pdf_type,
}
use authorization_document.Model.Status.{system_actor, final_pdf, processing, succeeded, pending}
use authorization_document.Base.{
  [], Text, ℕ, ◌>>=◌, ◌>>◌, none, some, true, ◌∷◌, ok, Option, Result, Bool, from_option, require,
  internal, ◌&&◌, row_missing, ◌==◌, same_id, is_none, pdf_fencing_rejected, pdf_identity_mismatch,
  pdf_journal_mismatch, if◌then◌else◌, leb, ◌+◌, case_capacity_exceeded, count, update_where,
}

pub data CompleteState : Type 0 where
  duplicate_output : Option Key → CompleteState
  completed_with : Key → CompleteState

-- What the worker reports: the stored object, and the identifiers drawn for its rows.
pub record Output : Type 0 where
  pub file_id : Key
  pub version_id : Key
  pub storage_key : Key
  pub sha : Hash
  pub size : ℕ
  pub generated_at : Time

abbrev pub final_file : Key → Output → FileRecord
final_file case_id o = record {
  id = o.file_id;
  case_id = case_id;
  requirement_version = none;
  removed_at = none;
}

-- `authorization.pdf`
abbrev pub final_name : Text
final_name =
    b'a' ∷ b'u' ∷ b't' ∷ b'h' ∷ b'o' ∷ b'r' ∷ b'i' ∷ b'z' ∷ b'a' ∷ b't' ∷ b'i' ∷ b'o' ∷ b'n' ∷ b'.'
    ∷ b'p' ∷ b'd' ∷ b'f' ∷ []

abbrev pub final_version : Key → Output → Signing → FileVersion
final_version case_id o s = record {
  id = o.version_id;
  file_id = o.file_id;
  case_id = case_id;
  version = 1;
  original_name = final_name;
  mime_type = pdf_type;
  size_bytes = o.size;
  sha256 = o.sha;
  storage_key = o.storage_key;
  actor_type = system_actor;
  purpose = final_pdf;
  draft_version = some s.draft_version;
  content_digest = some s.content_digest;
  original = none;
  cache_active = true;
}

abbrev pub may_complete : Key → Key → ℕ → ℕ → Hash → PdfTask → Bool
may_complete id lease generation delivery sha t =
    holds_lease id lease generation t
    && t.delivery_generation == delivery
    && same_id t.pending_sha (some sha)
    && is_none t.output_file

abbrev pub succeed : Output → ℕ → PdfTask → PdfTask
succeed o generation t = record t {
  status = succeeded;
  lease_token = none;
  output_file = some o.version_id;
  output_sha = some o.sha;
  finished_at = some o.generated_at;
  delivery = pending;
  delivery_attempts = 0;
  finalized_at = none;
  delivery_generation = generation;
  pending_key = none;
  pending_sha = none;
  pending_size = none;
}

unfoldable pub complete_open :
    Key → Key → ℕ → Key → ℕ → Output → PdfTask → Db → Result (CompleteState × Db)
unfolding signing_of create_file evidence_retained_bytes
complete_open id lease generation case_id version o task db = do
  require
      (has_status processing task
        && same_id task.lease_token (some lease)
        && task.claim_generation == generation)
      (internal pdf_fencing_rejected)
  require (same_id task.pending_sha (some o.sha) && same_id task.pending_size (some o.size))
      (internal pdf_journal_mismatch)
  require (leb (evidence_retained_bytes case_id db + o.size) max_case_bytes)
      (internal case_capacity_exceeded)
  signing ← from_option (internal row_missing) (signing_of task db)
  created ← create_file (final_file case_id o) (final_version case_id o signing) db
  require
      (count (may_complete id lease generation task.delivery_generation o.sha) created.tasks == 1)
      (internal pdf_fencing_rejected)
  ok (
    completed_with o.version_id,
    record created {
      tasks =
          update_where (may_complete id lease generation task.delivery_generation o.sha)
            (succeed o (task.delivery_generation + 1)) created.tasks;
      outbox =
          record {
            task_id = task.id;
            finalized_queue = true;
            generation = task.delivery_generation + 1;
            case_id = task.case_id;
            version = task.snapshot_version;
            output_file = some o.version_id;
            output_sha = some o.sha;
          }
          ∷ created.outbox;
    },
  )

-- `complete`
unfoldable pub complete_job : Key → Key → ℕ → Key → ℕ → Output → Db → Result (CompleteState × Db)
unfolding find_task complete_open
complete_job id lease generation case_id version o db = do
  task ← from_option (internal row_missing) (find_task id db)
  require (task.case_id == case_id && task.snapshot_version == version)
      (internal pdf_identity_mismatch)
  (if has_status succeeded task
      then (ok (duplicate_output task.output_file, db))
      else (complete_open id lease generation case_id version o task db))
