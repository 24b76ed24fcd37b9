-- ===== src/Pdf/Parts.antt =====
-- What each operation on a task has done when it succeeds.
use authorization_document.Storage.Policy.{max_case_bytes}
use authorization_document.Files.Capacity.{create_file, evidence_retained_bytes}
use authorization_document.Pdf.Complete.{
  complete_job, Output, CompleteState, complete_open, may_complete, succeed, final_file,
  final_version, duplicate_output, completed_with,
}
use authorization_document.Pdf.Jobs.{
  find_task, fail_case, claim_open, ClaimState, claim_job, has_status, journal_pending, fail_job,
  may_journal, fail_held, holds_lease, release, signing_of,
}
use authorization_document.Model.Db.{Db, matching}
use authorization_document.Model.Rows.{Key, PdfTask, Time, Hash, FileRecord, FileVersion}
use authorization_document.Model.Status.{finalizing, processing, succeeded, same_status}
use authorization_document.Base.{
  ℕ, some, inl, inr, ok, update_where, Bool, Option, ◌≡◌, Text, arith, Bool-cases, ◌&&◌, ◌⊎◌, ◌==◌,
  >>=-eq-ok, Option-cases, from_option, require, ◌+◌, same_id, leb, count,
}

pub tasks-fail_case :
    (id : Key) (reason : Option Text) (db : Db) → (fail_case id reason db).tasks ≡ db.tasks
unfolding fail_case
tasks-fail_case id reason db = ground arith

pub claim_job_parts :
    (now timeout : Time) (lease : Key) (reason : Option Text) (id case_id : Key) (version : ℕ)
    (s : ClaimState) (db db' : Db)
    → claim_job now timeout lease reason id case_id version db ≡ ok (s, db')
    → (task : PdfTask) × (matching
          (λ t. t.case_id == case_id && t.snapshot_version == version)
          (find_task id db)
        ≡ some task)
      × (claim_open now timeout lease reason task db ≡ ok (s, db'))
unfolding claim_job
claim_job_parts now timeout lease reason id case_id version s db db' h =
    let (task, e, h₁) =
      >>=-eq-ok
        (from_option _
          (matching (λ t. t.case_id == case_id && t.snapshot_version == version) (find_task id db)))
        _ h in
    let (c, e₂, h₂) = >>=-eq-ok (from_option _ (db.cases task.case_id)) _ h₁ in
    let (u, e₃, h₃) = >>=-eq-ok (require (same_status c.status finalizing) _) _ h₂ in
    let (signing, e₄, h₄) = >>=-eq-ok (from_option _ (signing_of task db)) _ h₃ in
    let (v, e₅, h₅) = >>=-eq-ok (require signing.valid _) _ h₄ in (task, ground arith, h₅)

pub journal_tasks :
    (id lease : Key) (generation : ℕ) (key : Key) (sha : Hash) (size : ℕ) (db db' : Db)
    → journal_pending id lease generation key sha size db ≡ ok db'
    → db'.tasks
      ≡ update_where
          (may_journal id lease generation key sha size)
          (λ t. record t {
            pending_key = some key;
            pending_sha = some sha;
            pending_size = some size;
          })
          db.tasks
unfolding journal_pending
journal_tasks id lease generation key sha size db db' h = ground arith

pub tasks-create_file :
    (f : FileRecord) (v : FileVersion) (db db' : Db)
    → create_file f v db ≡ ok db'
    → db'.tasks ≡ db.tasks
unfolding create_file
tasks-create_file f v db db' h = ground arith

pub complete_tasks :
    (id lease : Key) (generation : ℕ) (case_id : Key) (version : ℕ) (o : Output) (task : PdfTask)
    (s : CompleteState) (db db' : Db)
    → complete_open id lease generation case_id version o task db ≡ ok (s, db')
    → (db'.tasks
        ≡ update_where
            (may_complete id lease generation task.delivery_generation o.sha)
            (succeed o (task.delivery_generation + 1))
            db.tasks)
      × (count (may_complete id lease generation task.delivery_generation o.sha) db.tasks ≡ 1)
      × (s ≡ completed_with o.version_id)
unfolding complete_open
complete_tasks id lease generation case_id version o task s db db' h =
    let (u, e, h₁) =
      >>=-eq-ok
        (require
          (has_status processing task
            && same_id task.lease_token (some lease)
            && task.claim_generation == generation)
          _)
        _ h in
    let (u₂, e₂, h₂) =
      >>=-eq-ok
        (require (same_id task.pending_sha (some o.sha) && same_id task.pending_size (some o.size))
          _)
        _ h₁ in
    let (u₃, e₃, h₃) =
      >>=-eq-ok (require (leb (evidence_retained_bytes case_id db + o.size) max_case_bytes) _) _
        h₂ in
    let (signing, e₄, h₄) = >>=-eq-ok (from_option _ (signing_of task db)) _ h₃ in
    let (created, e₅, h₅) =
      >>=-eq-ok (create_file (final_file case_id o) (final_version case_id o signing) db) _ h₄ in
    let same =
      tasks-create_file (final_file case_id o) (final_version case_id o signing) db created e₅ in
    (ground arith, ground arith, ground arith)

pub complete_job_split :
    (id lease : Key) (generation : ℕ) (case_id : Key) (version : ℕ) (o : Output) (s : CompleteState)
    (db db' : Db)
    → complete_job id lease generation case_id version o db ≡ ok (s, db')
    → ((u : Option Key) × (s ≡ duplicate_output u) × (db' ≡ db))
      ⊎ ((task : PdfTask) × (find_task id db ≡ some task)
          × (complete_open id lease generation case_id version o task db ≡ ok (s, db'))
          × (task.case_id ≡ case_id)
          × (task.snapshot_version ≡ version))
unfolding complete_job
complete_job_split id lease generation case_id version o s db db' h =
    let (task, e, h₁) = >>=-eq-ok (from_option _ (find_task id db)) _ h in
    let (u, e₂, h₂) =
      >>=-eq-ok (require (task.case_id == case_id && task.snapshot_version == version) _) _ h₁ in
    elim (Bool-cases (has_status succeeded task)) [
      | inl f ↦ inl (task.output_file, ground arith, ground arith)
      | inr f ↦ inr (task, ground arith, ground arith, ground arith, ground arith)
    ]

pub fail_tasks :
    (now : Time) (id lease : Key) (generation : ℕ) (reason : Option Text) (terminal : Bool)
    (task : PdfTask) (db : Db)
    → (fail_held now id lease generation reason terminal task db).tasks
      ≡ update_where (holds_lease id lease generation) (release now terminal) db.tasks
unfolding fail_held
fail_tasks now id lease generation reason terminal task db = ground (
  arith,
  tasks-fail_case task.case_id reason (record db {
    tasks = update_where (holds_lease id lease generation) (release now terminal) db.tasks;
  }),
)

pub fail_job_split :
    (now : Time) (id lease : Key) (generation : ℕ) (reason : Option Text) (terminal : Bool)
    (db : Db)
    → (fail_job now id lease generation reason terminal db ≡ db)
      ⊎ ((task : PdfTask) × (fail_job now id lease generation reason terminal db
            ≡ fail_held now id lease generation reason terminal task db))
unfolding fail_job
fail_job_split now id lease generation reason terminal db = elim (Option-cases (find_task id db)) [
  | inl e ↦ inl (rw e)
  | inr (task, e) ↦ elim (Bool-cases (holds_lease id lease generation task)) [
    | inl f ↦ inr (task, rw (e, f))
    | inr f ↦ inl (rw (e, f))
  ]
]
