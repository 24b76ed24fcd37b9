-- ===== src/Pdf/Requeue.antt =====
-- What a retry makes possible.
use authorization_document.Pdf.Retry.{
  retry, newest_task, requeued, is_delivery_failed, requeue, retry_task,
}
use authorization_document.Pdf.Jobs.{
  find_task, claim_open, has_status, take_lease, is_claimable, claimed, signing_of, lease_to,
  claim_job,
}
use authorization_document.Model.Db.{Db}
use authorization_document.Model.Rows.{Key, PdfTask, Time, Signing, Case}
use authorization_document.Model.Status.{finalizing, pdf_failed, queued, failed, same_status}
use authorization_document.Base.{
  some, true, refl, ok, Option, find, Text, ◌&&◌, ◌==◌, ◌≡◌, from_option, count, update_where, ◌≤◌,
  ◌||◌, require, >>=-eq-ok, ◌<◌, not, is_none, arith, find_key, ==_refl, find_updated, ◌∙◌,
  find_sound, found_counts, count-update_where, sym,
}

retry_parts :
    (case_id actor : Key) (reason : Option Text) (db db' : Db) (task : PdfTask)
    → retry case_id actor reason db ≡ ok db'
    → newest_task case_id db ≡ some task
    → (item : Case) × (db' ≡ requeued case_id actor reason item task db)
unfolding retry
retry_parts case_id actor reason db db' task h newest =
    let (item, e, h₁) = >>=-eq-ok (from_option _ (db.cases case_id)) _ h in
    let (u₁, e₁, h₂) = >>=-eq-ok (require (same_status item.status pdf_failed) _) _ h₁ in
    let (t, e₂, h₃) = >>=-eq-ok (from_option _ (newest_task case_id db)) _ h₂ in
    let (u₂, e₃, h₄) = >>=-eq-ok (require (is_delivery_failed t || has_status failed t) _) _ h₃ in
    let (u₃, e₄, h₅) =
      >>=-eq-ok
        (require (not (is_delivery_failed t && (is_none t.output_file || is_none t.output_sha))) _)
        _ h₄ in
    let same : t ≡ task = ground arith in
    let e₅ : requeued case_id actor reason item t db ≡ db' = ground arith in
    (item, sym (rw same at e₅))

-- The claim of a queued task with attempts left.
claimable_claim :
    (now timeout : Time) (lease : Key) (why : Option Text) (task : PdfTask) (db : Db)
    → task.status ≡ queued
    → count (is_claimable now timeout task.id) db.tasks ≡ 1
    → claim_open now timeout lease why task db
      ≡ ok (
        claimed,
        record db {
          tasks = update_where (is_claimable now timeout task.id) (lease_to now lease) db.tasks;
        },
      )
unfolding claim_open take_lease
claimable_claim now timeout lease why task db q c = rw (q, c) refl

-- What a claim needs of the tables after a retry.
requeued_row :
    (case_id actor : Key) (reason : Option Text) (item : Case) (task : PdfTask) (db : Db)
    (now timeout : Time)
    → newest_task case_id db ≡ some task
    → task.status ≡ failed
    → count (λ t. t.id == task.id) db.tasks ≤ 1
    → 0 < task.max_attempts
    → (task.case_id ≡ case_id)
      × (find_task task.id (requeued case_id actor reason item task db) ≡ some (requeue task))
      × (count (is_claimable now timeout task.id) (requeued case_id actor reason item task db).tasks
          ≡ 1)
unfolding newest_task requeued find_task
requeued_row case_id actor reason item task db now timeout newest f one left =
    let key = λ (t : PdfTask). t.id == task.id in
    let found = find_key (λ t. t.case_id == case_id) key db.tasks newest (==_refl task.id) one in
    let same : retry_task task task ≡ requeue task = ground arith in
    let after : find key (update_where key (retry_task task) db.tasks) ≡ some (requeue task) =
      find_updated key (retry_task task) key (λ x. ground arith) db.tasks found
      ∙ rw (==_refl task.id, same) refl in
    (
      ground (arith, find_sound (λ t. t.case_id == case_id) db.tasks newest),
      after,
      found_counts key (is_claimable now timeout task.id) (λ x p. ground arith)
          (update_where key (retry_task task) db.tasks) after
          (omega
            (arith, count-update_where key key (retry_task task) (λ x. ground arith) db.tasks, one))
          (ground arith),
    )

-- A claim of the task that is found, of a case that is `FINALIZING`.
found_claim :
    (now timeout : Time) (lease : Key) (why : Option Text) (id case_id : Key) (db : Db)
    (task : PdfTask) (c : Case) (s : Signing)
    → find_task id db ≡ some task
    → task.case_id ≡ case_id
    → db.cases case_id ≡ some c
    → c.status ≡ finalizing
    → signing_of task db ≡ some s
    → s.valid ≡ true
    → claim_job now timeout lease why id case_id task.snapshot_version db
      ≡ claim_open now timeout lease why task db
unfolding claim_job
found_claim now timeout lease why id case_id db task c s found mine e status sign valid =
    let here : db.cases task.case_id ≡ some c = rw mine e in
    let kept : (task.case_id == case_id && task.snapshot_version == task.snapshot_version) ≡ true =
      ground arith in
    rw (found, kept, here, status, sign, valid) refl

requeued_case :
    (case_id actor : Key) (reason : Option Text) (item : Case) (task : PdfTask) (db : Db)
    → ((requeued case_id actor reason item task db).cases case_id
        ≡ some (record item { status = finalizing }))
      × (signing_of (requeue task) (requeued case_id actor reason item task db)
          ≡ signing_of task db)
unfolding requeued signing_of
requeued_case case_id actor reason item task db = (rw (==_refl case_id) refl, refl)

leased_row :
    (now timeout : Time) (lease id : Key) (task : PdfTask) (db : Db)
    → find_task id db ≡ some task
    → is_claimable now timeout id task ≡ true
    → find_task id (record db {
      tasks = update_where (is_claimable now timeout id) (lease_to now lease) db.tasks;
    })
      ≡ some (lease_to now lease task)
unfolding find_task
leased_row now timeout lease id task db found free =
    find_updated (is_claimable now timeout id) (lease_to now lease) (λ t. t.id == id) (λ x. refl)
      db.tasks found
    ∙ rw free refl

granted :
    (case_id actor : Key) (reason : Option Text) (item : Case) (db d : Db) (task : PdfTask)
    (s : Signing) (now timeout : Time) (lease : Key) (why : Option Text)
    → d ≡ requeued case_id actor reason item task db
    → newest_task case_id db ≡ some task
    → task.status ≡ failed
    → count (λ t. t.id == task.id) db.tasks ≤ 1
    → signing_of task db ≡ some s
    → s.valid ≡ true
    → 0 < task.max_attempts
    → (find_task task.id d ≡ some (requeue task))
      × (claim_job now timeout lease why task.id case_id task.snapshot_version d
          ≡ ok (
            claimed,
            record d {
              tasks = update_where (is_claimable now timeout task.id) (lease_to now lease) d.tasks;
            },
          ))
granted case_id actor reason item db d task s now timeout lease why e newest f one sign valid left =
    let (mine, found, counted) =
      requeued_row case_id actor reason item task db now timeout newest f one left in
    let (case_row, same_signing) = requeued_case case_id actor reason item task db in
    let row : d.cases case_id ≡ some (record item { status = finalizing }) = rw e case_row in
    let there : find_task task.id d ≡ some (requeue task) = rw e found in
    let signed : signing_of (requeue task) d ≡ some s = rw e (same_signing ∙ sign) in
    (
      there,
      found_claim now timeout lease why task.id case_id d (requeue task)
            (record item { status = finalizing }) s there mine row refl signed valid
          ∙ claimable_claim now timeout lease why (requeue task) d refl (rw e counted),
    )

-- After a retry of a task whose generation failed, a worker's next claim of that task is granted, as
-- its first attempt, when its signing is still valid and it may be attempted at all.
pub retry-claim_job :
    (case_id actor : Key) (reason : Option Text) (db db' : Db) (task : PdfTask) (s : Signing)
    (now timeout : Time) (lease : Key) (why : Option Text)
    → retry case_id actor reason db ≡ ok db'
    → newest_task case_id db ≡ some task
    → task.status ≡ failed
    → count (λ t. t.id == task.id) db.tasks ≤ 1
    → signing_of task db ≡ some s
    → s.valid ≡ true
    → 0 < task.max_attempts
    → (after : Db) × (claim_job now timeout lease why task.id case_id task.snapshot_version db'
        ≡ ok (claimed, after))
      × ((t : PdfTask) × (find_task task.id after ≡ some t)
          × (t.attempts ≡ 1)
          × (t.lease_token ≡ some lease))
retry-claim_job case_id actor reason db db' task s now timeout lease why h newest f one sign valid
      left =
    let (item, e) = retry_parts case_id actor reason db db' task h newest in
    let (found, taken) =
      granted case_id actor reason item db db' task s now timeout lease why e newest f one sign
        valid left in
    (
      record db' {
        tasks = update_where (is_claimable now timeout task.id) (lease_to now lease) db'.tasks;
      },
      taken,
      (
        lease_to now lease (requeue task),
        leased_row now timeout lease task.id (requeue task) db' found (ground arith),
        refl,
        refl,
      ),
    )
