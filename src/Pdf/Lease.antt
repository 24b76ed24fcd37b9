-- ===== src/Pdf/Lease.antt =====
-- What an old lease can still do, and what happens after a completion.
use authorization_document.Pdf.Parts.{claim_job_parts, complete_job_split, complete_tasks}
use authorization_document.Pdf.Complete.{
  complete_job, complete_open, Output, completed_with, duplicate_output, may_complete, succeed,
}
use authorization_document.Pdf.Jobs.{
  find_task, claim_open, take_lease, claim_job, journal_pending, claimed, is_claimable, lease_to,
  fail_job, may_journal,
}
use authorization_document.Model.Db.{Db}
use authorization_document.Model.Rows.{Key, PdfTask, Time, Hash}
use authorization_document.Model.Status.{succeeded}
use authorization_document.Base.{
  ℕ, some, true, refl, inl, inr, ok, err, count, ◌==◌, Option, ◌≤◌, Text, ◌≡◌, update_where, find,
  ◌≢◌, arith, find_sound, found_passes, Bool, find_updated, internal, count-update_where,
  pdf_fencing_rejected, found_fails, sym, ◌∙◌, ◌+◌, ap,
}

-- `id` is the tasks' key.
abbrev pub HasOneTask : Key → Db → Type 0
HasOneTask id db = count (λ t. t.id == id) db.tasks ≤ 1

claimed_tasks :
    (now timeout : Time) (lease : Key) (reason : Option Text) (task : PdfTask) (db db' : Db)
    → claim_open now timeout lease reason task db ≡ ok (claimed, db')
    → (count (is_claimable now timeout task.id) db.tasks ≡ 1)
      × (db'.tasks ≡ update_where (is_claimable now timeout task.id) (lease_to now lease) db.tasks)
unfolding claim_open take_lease
claimed_tasks now timeout lease reason task db db' h = ground arith

find_task_eq : (id : Key) (db : Db) → find_task id db ≡ find (λ t. t.id == id) db.tasks
unfolding find_task
find_task_eq id db = refl

module _ (now timeout : Time) (lease : Key) (reason : Option Text) (id case_id : Key) (version : ℕ)
    (db db' : Db) where
  claimed_row :
      HasOneTask id db
      → claim_job now timeout lease reason id case_id version db ≡ ok (claimed, db')
      → (t : PdfTask) × (find_task id db' ≡ some (lease_to now lease t))
        × (t.case_id ≡ case_id)
        × (t.snapshot_version ≡ version)
        × (count (λ t. t.id == id) db'.tasks ≤ 1)
  unfolding find_task
  claimed_row one h =
      let (task, e, k) =
        claim_job_parts now timeout lease reason id case_id version claimed db db' h in
      let (c, tasks) = claimed_tasks now timeout lease reason task db db' k in
      let found : find (λ t. t.id == id) db.tasks ≡ some task = ground arith in
      let mine : task.id ≡ id = ground (arith, find_sound (λ t. t.id == id) db.tasks found) in
      let free : is_claimable now timeout task.id task ≡ true =
        found_passes (λ t. t.id == id) (is_claimable now timeout task.id) (λ x p. ground arith)
          db.tasks found one (omega (arith, c)) in
      let after =
        find_updated (is_claimable now timeout task.id) (lease_to now lease) (λ t. t.id == id)
          (λ x. refl) db.tasks found in
      let keeps =
        count-update_where (λ t. t.id == id) (is_claimable now timeout task.id) (lease_to now lease)
          (λ x. refl) db.tasks in
      (
        task,
        rw tasks (rw free at after),
        ground arith,
        ground arith,
        rw tasks (omega (arith, keeps, one)),
      )

  -- After a claim that is granted, with one row for the task, every other lease is void: the
  -- worker that holds it can neither record a pending output nor complete the task, and its
  -- report of a failure changes nothing.
  pub claim_job-old_lease :
      HasOneTask id db
      → claim_job now timeout lease reason id case_id version db ≡ ok (claimed, db')
      → (old : Key) → old ≢ lease
      → (later : Time) (generation : ℕ) (key : Key) (sha : Hash) (size : ℕ) (o : Output)
        (why : Option Text) (terminal : Bool)
      → (journal_pending id old generation key sha size db' ≡ err (internal pdf_fencing_rejected))
        × (complete_job id old generation case_id version o db'
            ≡ err (internal pdf_fencing_rejected))
        × (fail_job later id old generation why terminal db' ≡ db')
  unfolding journal_pending complete_job complete_open fail_job
  claim_job-old_lease one h old other later generation key sha size o why terminal =
      let (t, found, c, v, one') = claimed_row one h in
      let differs : lease ≢ old = λ e. other (sym e) in
      let none_left : count (may_journal id old generation key sha size) db'.tasks ≡ 0 =
        found_fails (λ t. t.id == id) (may_journal id old generation key sha size)
          (λ x p. ground arith) db'.tasks (sym (find_task_eq id db') ∙ found) one'
          (ground (arith, differs)) in
      (rw none_left, rw found (ground arith), rw found (ground arith))

completed_row :
    (id lease : Key) (generation : ℕ) (case_id : Key) (version : ℕ) (o : Output) (f : Key)
    (db db' : Db)
    → HasOneTask id db
    → complete_job id lease generation case_id version o db ≡ ok (completed_with f, db')
    → (t : PdfTask) × (find_task id db' ≡ some t)
      × (t.status ≡ succeeded)
      × (t.output_file ≡ some f)
      × (t.case_id ≡ case_id)
      × (t.snapshot_version ≡ version)
unfolding find_task
completed_row id lease generation case_id version o f db db' one h =
    elim (complete_job_split id lease generation case_id version o (completed_with f) db db' h) [
      | inl (u, e, k) ↦ cc
      | inr (task, e, k, c, v) ↦
          let (tasks, counted, out) =
            complete_tasks id lease generation case_id version o task (completed_with f) db db' k in
          let same_file : o.version_id ≡ f = ground arith in
          let hit = may_complete id lease generation task.delivery_generation o.sha in
          let passes : hit task ≡ true =
            found_passes (λ t. t.id == id) hit (λ x p. ground arith) db.tasks e one
              (omega (arith, counted)) in
          let after =
            find_updated hit (succeed o (task.delivery_generation + 1)) (λ t. t.id == id)
              (λ x. refl) db.tasks e in
          (
            succeed o (task.delivery_generation + 1) task,
            rw tasks (rw passes at after),
            refl,
            ap some same_file,
            c,
            v,
          )
    ]

-- A task, with one row for it, is completed once: after a completion every further one for the
-- same case and version, under whatever lease, is answered as a duplicate with the first output,
-- and changes nothing.
pub complete_job-complete_job :
    (id lease lease' : Key) (generation generation' : ℕ) (case_id : Key) (version : ℕ)
    (o o' : Output) (f : Key) (db db' : Db)
    → HasOneTask id db
    → complete_job id lease generation case_id version o db ≡ ok (completed_with f, db')
    → complete_job id lease' generation' case_id version o' db'
      ≡ ok (duplicate_output (some f), db')
unfolding complete_job
complete_job-complete_job id lease lease' generation generation' case_id version o o' f db db' one
      h =
    let (t, found, status, file, c, v) =
      completed_row id lease generation case_id version o f db db' one h in
    rw found (ground arith)
