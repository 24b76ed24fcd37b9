-- ===== src/Pdf/Retry.antt =====
-- apps/api/src/pdf/pdf-retry.service.ts: queueing a failed task or a failed delivery again.
use authorization_document.Links.Operations.{trim_reason}
use authorization_document.Pdf.Jobs.{has_status}
use authorization_document.Model.Db.{Db, set_case, audit_user, record_status}
use authorization_document.Model.Rows.{
  Key, PdfTask, Outbox, Action, pdf_delivery_retry_queued, pdf_retry_queued, Case, user,
}
use authorization_document.Model.Status.{
  finalizing, pdf_failed, queued, succeeded, failed, not_ready, pending, delivered, delivery_failed,
  DeliveryStatus, same_status,
}
use authorization_document.Base.{
  ℕ, ◌>>=◌, ◌>>◌, none, some, true, false, ◌∷◌, ok, Bool, ◌+◌, Option, if◌then◌else◌, find, Text,
  ◌&&◌, ◌==◌, Result, from_option, internal, update_where, row_missing, ◌||◌, require, bad_request,
  not, pdf_not_failed, is_none, failed_task_missing, pdf_output_missing,
}

abbrev pub delivery_code : DeliveryStatus → ℕ
delivery_code not_ready = 0
delivery_code pending = 1
delivery_code delivered = 2
delivery_code delivery_failed = 3

abbrev pub is_delivery_failed : PdfTask → Bool
is_delivery_failed t = has_status succeeded t && delivery_code t.delivery == 3

abbrev pub redeliver : PdfTask → PdfTask
redeliver t = record t { delivery = pending; delivery_generation = t.delivery_generation + 1 }

abbrev pub requeue : PdfTask → PdfTask
requeue t = record t {
  status = queued;
  attempts = 0;
  lease_token = none;
  started_at = none;
  finished_at = none;
  queue_generation = t.queue_generation + 1;
}

abbrev pub retry_message : PdfTask → Outbox
retry_message t =
    if is_delivery_failed t
    then record {
      task_id = t.id;
      finalized_queue = true;
      generation = t.delivery_generation + 1;
      case_id = t.case_id;
      version = t.snapshot_version;
      output_file = t.output_file;
      output_sha = t.output_sha;
    }
    else record {
      task_id = t.id;
      finalized_queue = false;
      generation = t.queue_generation + 1;
      case_id = t.case_id;
      version = t.snapshot_version;
      output_file = none;
      output_sha = none;
    }

-- `orderBy: { createdAt: 'desc' }`: the task that was created last stands first.
unfoldable pub newest_task : Key → Db → Option PdfTask
newest_task case_id db = find (λ t. t.case_id == case_id) db.tasks

abbrev pub retry_task : PdfTask → PdfTask → PdfTask
retry_task task t = if is_delivery_failed task then redeliver t else requeue t

abbrev pub retry_action : PdfTask → Action
retry_action task = if is_delivery_failed task then pdf_delivery_retry_queued else pdf_retry_queued

-- The writes of a retry.
unfoldable pub requeued : Key → Key → Option Text → Case → PdfTask → Db → Db
requeued case_id actor reason item task db =
    let tasks = update_where (λ t. t.id == task.id) (retry_task task) db.tasks in
    let moved =
      set_case case_id (record item { status = finalizing }) (record db { tasks = tasks }) in
    let told = audit_user actor (retry_action task) case_id (
      record_status case_id (some pdf_failed) finalizing (user actor) (trim_reason reason) moved) in
    record told { outbox = retry_message task ∷ told.outbox }

-- `retry`
unfoldable pub retry : Key → Key → Option Text → Db → Result Db
unfolding newest_task requeued
retry case_id actor reason db = do
  item ← from_option (internal row_missing) (db.cases case_id)
  require (same_status item.status pdf_failed) (bad_request pdf_not_failed)
  task ← from_option (bad_request failed_task_missing) (newest_task case_id db)
  require (is_delivery_failed task || has_status failed task) (bad_request failed_task_missing)
  require (not (is_delivery_failed task && (is_none task.output_file || is_none task.output_sha)))
      (bad_request pdf_output_missing)
  ok (requeued case_id actor reason item task db)
