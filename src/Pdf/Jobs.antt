-- ===== src/Pdf/Jobs.antt =====
-- apps/worker/src/pdf/pdf-job.repository.ts: claiming a task under a lease, and the writes that the
-- lease allows. The second half of `claim`, which loads what is rendered, is not modelled.
use authorization_document.Model.Db.{Db, matching, record_status, audit_as, set_case}
use authorization_document.Model.Rows.{
  Key, PdfTask, Hash, Time, Signing, Case, the_system, pdf_generation_failed, TargetType,
  pdf_generation_attempt_failed,
}
use authorization_document.Model.Status.{
  finalizing, pdf_failed, system_actor, queued, processing, succeeded, failed, PdfTaskStatus,
  same_status,
}
use authorization_document.Base.{
  ℕ, ◌>>=◌, ◌>>◌, none, some, false, ok, err, Option, Bool, ◌==◌, find, ltb, ◌&&◌, leb, Text, ◌+◌,
  if◌then◌else◌, Result, is_none, same_id, ◌||◌, count, internal, from_option, require,
  update_where, pdf_output_missing, pdf_identity_mismatch, pdf_fencing_rejected, not, row_missing,
  pdf_case_not_finalizing, pdf_signing_invalid,
}

pub data ClaimState : Type 0 where
  duplicate_claim : Key → Hash → ClaimState
  busy claimed : ClaimState

abbrev pub task_code : PdfTaskStatus → ℕ
task_code queued = 0
task_code processing = 1
task_code succeeded = 2
task_code failed = 3

abbrev pub has_status : PdfTaskStatus → PdfTask → Bool
has_status s t = task_code t.status == task_code s

unfoldable pub find_task : Key → Db → Option PdfTask
find_task id db = find (λ t. t.id == id) db.tasks

unfoldable pub signing_of : PdfTask → Db → Option Signing
signing_of t db = find (λ s. s.case_id == t.case_id && s.version == t.signature_version) db.signings

-- `startedAt: { lt: cutoff }`, where the cutoff lies `timeout` before now.
abbrev pub before_cutoff : Time → Time → Option Time → Bool
before_cutoff now timeout none = false
before_cutoff now timeout (some started) = ltb (started + timeout) now

abbrev pub lease_expired : Time → Time → PdfTask → Bool
lease_expired now timeout t = has_status processing t && before_cutoff now timeout t.started_at

abbrev pub exhausted : PdfTask → Bool
exhausted t = leb t.max_attempts t.attempts

-- The case moves to `PDF_FAILED`, if it is `FINALIZING`.
abbrev moved_to_failed : Key → Option Text → Db → Option Case → Db
moved_to_failed id reason db none = db
moved_to_failed id reason db (some c) =
    record_status id (some finalizing) pdf_failed the_system reason
      (set_case id (record c { status = pdf_failed }) db)

unfoldable pub fail_case : Key → Option Text → Db → Db
fail_case id reason db =
    moved_to_failed id reason db (matching (λ c. same_status c.status finalizing) (db.cases id))

abbrev pub give_up : Time → PdfTask → PdfTask
give_up now t = record t {
  status = failed;
  lease_token = none;
  finished_at = some now;
  started_at = none;
}

-- `status: PROCESSING`, with the lease and the start that were read.
abbrev pub same_attempt : PdfTask → PdfTask → Bool
same_attempt task t =
    t.id == task.id
    && has_status processing t
    && same_id t.lease_token task.lease_token
    && same_id t.started_at task.started_at

-- A lease has run out and no attempt is left.
unfoldable pub exhaust : Time → Option Text → PdfTask → Db → Db
unfolding fail_case
exhaust now reason task db =
    let written = record db { tasks = update_where (same_attempt task) (give_up now) db.tasks } in
    if count (same_attempt task) db.tasks == 1
    then (audit_as system_actor pdf_generation_failed TargetType.business_case task.case_id
        (fail_case task.case_id reason written))
    else written

-- The filter of the claim itself.
abbrev pub is_claimable : Time → Time → Key → PdfTask → Bool
is_claimable now timeout id t =
    t.id == id
    && ltb t.attempts t.max_attempts
    && (has_status queued t || lease_expired now timeout t)

abbrev pub lease_to : Time → Key → PdfTask → PdfTask
lease_to now lease t = record t {
  status = processing;
  attempts = t.attempts + 1;
  claim_generation = t.claim_generation + 1;
  lease_token = some lease;
  started_at = some now;
  finished_at = none;
}

unfoldable pub take_lease : Time → Time → Key → PdfTask → Db → ClaimState × Db
take_lease now timeout lease task db =
    let free = is_claimable now timeout task.id in
    (
      if count free db.tasks == 1 then claimed else busy,
      record db { tasks = update_where free (lease_to now lease) db.tasks },
    )

abbrev duplicate_of : Option Key → Option Hash → Db → Result (ClaimState × Db)
duplicate_of (some file) (some sha) db = ok (duplicate_claim file sha, db)
duplicate_of _ _ db = err (internal pdf_output_missing)

unfoldable pub claim_open :
    Time → Time → Key → Option Text → PdfTask → Db → Result (ClaimState × Db)
unfolding exhaust take_lease
claim_open now timeout lease reason task db =
    if has_status succeeded task
    then (duplicate_of task.output_file task.output_sha db)
    else (if lease_expired now timeout task && exhausted task
        then (ok (busy, exhaust now reason task db))
        else (if has_status failed task && exhausted task
            then (ok (busy, db))
            else (ok (take_lease now timeout lease task db))))

-- The transaction of `claim`.
unfoldable pub claim_job :
    Time → Time → Key → Option Text → Key → Key → ℕ → Db → Result (ClaimState × Db)
unfolding find_task signing_of claim_open
claim_job now timeout lease reason id case_id version db = do
  task ←
      from_option (internal pdf_identity_mismatch)
        (matching (λ t. t.case_id == case_id && t.snapshot_version == version) (find_task id db))
  c ← from_option (internal row_missing) (db.cases task.case_id)
  require (same_status c.status finalizing) (internal pdf_case_not_finalizing)
  signing ← from_option (internal row_missing) (signing_of task db)
  require signing.valid (internal pdf_signing_invalid)
  claim_open now timeout lease reason task db

-- Who holds the lease: `status: PROCESSING, leaseToken, claimGeneration`.
abbrev pub holds_lease : Key → Key → ℕ → PdfTask → Bool
holds_lease id lease generation t =
    t.id == id
    && has_status processing t
    && same_id t.lease_token (some lease)
    && t.claim_generation == generation

abbrev pub can_journal : Key → Hash → ℕ → PdfTask → Bool
can_journal key sha size t =
    (is_none t.pending_key && is_none t.pending_sha && is_none t.pending_size)
    || (same_id t.pending_key (some key)
        && same_id t.pending_sha (some sha)
        && same_id t.pending_size (some size))

abbrev pub may_journal : Key → Key → ℕ → Key → Hash → ℕ → PdfTask → Bool
may_journal id lease generation key sha size t =
    holds_lease id lease generation t && can_journal key sha size t

-- `journalPending`
unfoldable pub journal_pending : Key → Key → ℕ → Key → Hash → ℕ → Db → Result Db
journal_pending id lease generation key sha size db = do
  require (count (may_journal id lease generation key sha size) db.tasks == 1)
      (internal pdf_fencing_rejected)
  ok (record db {
    tasks =
        update_where (may_journal id lease generation key sha size)
          (λ t. record t {
            pending_key = some key;
            pending_sha = some sha;
            pending_size = some size;
          })
          db.tasks;
  })

abbrev pub release : Time → Bool → PdfTask → PdfTask
release now terminal t = record t {
  status = if terminal then failed else queued;
  lease_token = none;
  finished_at = if terminal then some now else none;
  started_at = none;
}

unfoldable pub fail_held : Time → Key → Key → ℕ → Option Text → Bool → PdfTask → Db → Db
unfolding fail_case
fail_held now id lease generation reason terminal task db =
    let held = holds_lease id lease generation in
    let written = record db { tasks = update_where held (release now terminal) db.tasks } in
    if not (count held db.tasks == 1)
    then written
    else (if terminal
        then (audit_as system_actor pdf_generation_failed TargetType.business_case task.case_id
            (fail_case task.case_id reason written))
        else (audit_as system_actor pdf_generation_attempt_failed TargetType.pdf_task id written))

abbrev fail_found : Time → Key → Key → ℕ → Option Text → Bool → Option PdfTask → Db → Db
unfolding fail_held
fail_found now id lease generation reason terminal none db = db
fail_found now id lease generation reason terminal (some task) db =
    if holds_lease id lease generation task
    then (fail_held now id lease generation reason terminal task db)
    else db

-- `fail`
unfoldable pub fail_job : Time → Key → Key → ℕ → Option Text → Bool → Db → Db
unfolding find_task fail_found
fail_job now id lease generation reason terminal db =
    fail_found now id lease generation reason terminal (find_task id db) db
