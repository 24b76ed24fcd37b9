-- ===== src/Tests/PdfTests.antt =====
-- Runs of the PDF tasks.
use authorization_document.Pdf.Requeue.{retry-claim_job}
use authorization_document.Pdf.Lease.{claim_job-old_lease, complete_job-complete_job}
use authorization_document.Files.Capacity.{
  create_file, evidence_retained_bytes, is_retained, has_active_file,
}
use authorization_document.Pdf.Retry.{retry, newest_task, requeued}
use authorization_document.Pdf.Attempts.{WithinAttempts, steps-WithinAttempts, step, claims, done}
use authorization_document.Pdf.Complete.{
  Output, CompleteState, complete_job, duplicate_output, complete_open,
}
use authorization_document.Pdf.Jobs.{
  find_task, ClaimState, journal_pending, claim_job, signing_of, busy, fail_case, claimed, exhaust,
  take_lease, fail_job, claim_open, fail_held,
}
use authorization_document.Tests.Data.{no_rows, get_ok, one_case}
use authorization_document.Model.Db.{Db}
use authorization_document.Model.Rows.{Signing, PdfTask}
use authorization_document.Model.Status.{
  finalizing, pdf_failed, queued, failed, not_ready, hand_signature, PdfTaskStatus, CaseStatus,
}
use authorization_document.Base.{
  ℕ, refl, none, some, true, [], ◌∷◌, ok, err, find, any, count, update_where, sum_of, ◌≡◌,
  internal, pdf_fencing_rejected, arith,
}

runs : Unit {0}
unfolding find any count update_where sum_of find_task signing_of fail_case exhaust take_lease
    claim_open claim_job journal_pending fail_held fail_job create_file evidence_retained_bytes
    is_retained has_active_file complete_open complete_job newest_task requeued retry
runs = tt

abbrev signing_one : Signing
signing_one = record {
  id = 80;
  case_id = 1;
  version = 1;
  draft_version = 1;
  content_digest = 90;
  mode = hand_signature;
  resource = 81;
  preview = 82;
  preview_sha = 91;
  valid = true;
  invalidated_at = none;
}

abbrev task_in : PdfTaskStatus → ℕ → PdfTask
task_in status attempts = record {
  id = 30;
  case_id = 1;
  template_version = 50;
  snapshot_version = 1;
  signature_version = 1;
  status = status;
  attempts = attempts;
  max_attempts = 3;
  started_at = none;
  finished_at = none;
  lease_token = none;
  claim_generation = attempts;
  queue_generation = 0;
  delivery_generation = 0;
  pending_key = none;
  pending_sha = none;
  pending_size = none;
  output_file = none;
  output_sha = none;
  delivery = not_ready;
  delivery_attempts = 0;
  finalized_at = none;
}

abbrev queue : CaseStatus → PdfTask → Db
queue status task = record (one_case status (some 62)) {
  signings = signing_one ∷ [];
  tasks = task ∷ [];
}

abbrev waiting : Db
waiting = queue finalizing (task_in queued 0)

-- Worker 400 claims the task, is too slow, and worker 401 claims it.
abbrev first_claim : ClaimState × Db
first_claim = get_ok (claim_job 1000 45000 400 none 30 1 1 waiting) (busy, no_rows)

abbrev second_claim : ClaimState × Db
second_claim = get_ok (claim_job 50000 45000 401 none 30 1 1 first_claim.1) (busy, no_rows)

abbrev output : Output
output = record {
  file_id = 500;
  version_id = 501;
  storage_key = 502;
  sha = 503;
  size = 1000;
  generated_at = 51000;
}

claim_job-old_lease_example :
    (journal_pending 30 400 1 502 503 1000 second_claim.1 ≡ err (internal pdf_fencing_rejected))
    × (complete_job 30 400 1 1 1 output second_claim.1 ≡ err (internal pdf_fencing_rejected))
    × (fail_job 52000 30 400 1 none true second_claim.1 ≡ second_claim.1)
unfolding runs
claim_job-old_lease_example =
    claim_job-old_lease 50000 45000 401 none 30 1 1 first_claim.1 second_claim.1 (omega arith) refl
      400 (ground arith) 52000 1 502 503 1000 output none true

abbrev journalled : Db
journalled = get_ok (journal_pending 30 401 2 502 503 1000 second_claim.1) no_rows

abbrev completed_run : CompleteState × Db
completed_run =
    get_ok (complete_job 30 401 2 1 1 output journalled) (duplicate_output none, no_rows)

complete_job-complete_job_example :
    complete_job 30 402 3 1 1 output completed_run.1
    ≡ ok (duplicate_output (some 501), completed_run.1)
unfolding runs
complete_job-complete_job_example =
    complete_job-complete_job 30 401 402 2 3 1 1 output output 501 journalled completed_run.1
      (omega arith) refl

steps-WithinAttempts_example : WithinAttempts second_claim.1
unfolding runs
steps-WithinAttempts_example =
    steps-WithinAttempts waiting second_claim.1
      (step (claims 1000 45000 400 none 30 1 1 claimed waiting first_claim.1 refl)
        (step (claims 50000 45000 401 none 30 1 1 claimed first_claim.1 second_claim.1 refl) done))
      (omega arith, tt)

abbrev broken : Db
broken = queue pdf_failed (task_in failed 3)

abbrev retried : Db
retried = get_ok (retry 1 60 none broken) no_rows

retry-claim_job_example :
    (after : Db) × (claim_job 2000 45000 403 none 30 1 1 retried ≡ ok (claimed, after))
    × ((t : PdfTask) × (find_task 30 after ≡ some t)
        × (t.attempts ≡ 1)
        × (t.lease_token ≡ some 403))
unfolding runs
retry-claim_job_example =
    retry-claim_job 1 60 none broken retried (task_in failed 3) signing_one 2000 45000 403 none refl
      refl refl (omega arith) refl refl (omega arith)
