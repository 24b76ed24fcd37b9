-- ===== src/Pdf/Attempts.antt =====
-- How many attempts a task gets.
use authorization_document.Pdf.Parts.{
  claim_job_parts, journal_tasks, complete_job_split, complete_tasks, fail_job_split, fail_tasks,
  tasks-fail_case,
}
use authorization_document.Pdf.Complete.{complete_job, Output, CompleteState, may_complete, succeed}
use authorization_document.Pdf.Jobs.{
  exhaust, claim_open, take_lease, ClaimState, same_attempt, claim_job, give_up, has_status,
  journal_pending, lease_expired, exhausted, fail_job, is_claimable, lease_to, may_journal,
  holds_lease, release,
}
use authorization_document.Model.Db.{Db}
use authorization_document.Model.Rows.{Key, PdfTask, Time, Hash}
use authorization_document.Model.Status.{succeeded, failed}
use authorization_document.Base.{
  ℕ, some, true, refl, [], ◌∷◌, inl, inr, ok, All, update_where, ◌≤◌, Bool, Option, ◌≡◌, Text, List,
  arith, Bool-cases, ◌&&◌, ◌+◌, subst, sym,
}

abbrev pub WithinAttempts : Db → Type 0
WithinAttempts db = All (λ t. t.attempts ≤ t.max_attempts) db.tasks

All-update_where :
    {A : Type 0} (P : A → Type 0) (q : A → Bool) (f : A → A)
    → ((x : A) → q x ≡ true → P x → P (f x))
    → (xs : List A) → All P xs
    → All P (update_where q f xs)
unfolding update_where
All-update_where P q f keep [] h = tt
All-update_where P q f keep (x ∷ xs) h = elim (Bool-cases (q x)) [
  | inl e ↦ rw e (keep x e h.0, All-update_where P q f keep xs h.1)
  | inr e ↦ rw e (h.0, All-update_where P q f keep xs h.1)
]

tasks-exhaust :
    (now : Time) (reason : Option Text) (task : PdfTask) (db : Db)
    → (exhaust now reason task db).tasks ≡ update_where (same_attempt task) (give_up now) db.tasks
unfolding exhaust
tasks-exhaust now reason task db = ground (
  arith,
  tasks-fail_case task.case_id reason
      (record db { tasks = update_where (same_attempt task) (give_up now) db.tasks }),
)

-- What a claim leaves of the tasks.
claim_tasks :
    (now timeout : Time) (lease : Key) (reason : Option Text) (task : PdfTask) (s : ClaimState)
    (db db' : Db)
    → claim_open now timeout lease reason task db ≡ ok (s, db')
    → WithinAttempts db
    → WithinAttempts db'
unfolding claim_open take_lease
claim_tasks now timeout lease reason task s db db' h w =
    elim (Bool-cases (has_status succeeded task)) [
      | inl e ↦ let same : db' ≡ db = ground arith in rw same w
      | inr e ↦ elim (Bool-cases (lease_expired now timeout task && exhausted task)) [
        | inl f ↦
            let same : db' ≡ exhaust now reason task db = ground arith in
            rw (same, tasks-exhaust now reason task db)
              (All-update_where (λ t. t.attempts ≤ t.max_attempts) (same_attempt task) (give_up now)
                (λ t q k. k) db.tasks w)
        | inr f ↦ elim (Bool-cases (has_status failed task && exhausted task)) [
          | inl g ↦ let same : db' ≡ db = ground arith in rw same w
          | inr g ↦
              let same : db'.tasks
                  ≡ update_where (is_claimable now timeout task.id) (lease_to now lease) db.tasks =
                ground arith in
              rw same (
                All-update_where (λ t. t.attempts ≤ t.max_attempts)
                  (is_claimable now timeout task.id) (lease_to now lease) (λ t q k. ground arith)
                  db.tasks w)
        ]
      ]
    ]

-- One step of a worker on the tables.
pub data WorkerStep : Db → Db → Type 0 where
  claims :
      (now timeout : Time) (lease : Key) (reason : Option Text) (id case_id : Key) (version : ℕ)
      (s : ClaimState) (db db' : Db)
      → claim_job now timeout lease reason id case_id version db ≡ ok (s, db')
      → WorkerStep db db'
  journals :
      (id lease : Key) (generation : ℕ) (key : Key) (sha : Hash) (size : ℕ) (db db' : Db)
      → journal_pending id lease generation key sha size db ≡ ok db'
      → WorkerStep db db'
  completes :
      (id lease : Key) (generation : ℕ) (case_id : Key) (version : ℕ) (o : Output)
      (s : CompleteState) (db db' : Db)
      → complete_job id lease generation case_id version o db ≡ ok (s, db')
      → WorkerStep db db'
  fails :
      (now : Time) (id lease : Key) (generation : ℕ) (reason : Option Text) (terminal : Bool)
      (db db' : Db)
      → fail_job now id lease generation reason terminal db ≡ db'
      → WorkerStep db db'

-- Any number of them.
pub data WorkerSteps : Db → Db → Type 0 where
  done : {db : Db} → WorkerSteps db db
  step : {a b c : Db} → WorkerStep a b → WorkerSteps b c → WorkerSteps a c

kept :
    (q : PdfTask → Bool) (f : PdfTask → PdfTask)
    → ((t : PdfTask) → (f t).attempts ≡ t.attempts)
    → ((t : PdfTask) → (f t).max_attempts ≡ t.max_attempts)
    → (db : Db) → WithinAttempts db
    → All (λ t. t.attempts ≤ t.max_attempts) (update_where q f db.tasks)
kept q f same same_max db w =
    All-update_where (λ t. t.attempts ≤ t.max_attempts) q f (λ t _ k. rw (same t, same_max t) k)
      db.tasks w

step-WithinAttempts : (db db' : Db) → WorkerStep db db' → WithinAttempts db → WithinAttempts db'
step-WithinAttempts _ _ (claims now timeout lease reason id case_id version s db db' h) w =
    let (task, e, k) = claim_job_parts now timeout lease reason id case_id version s db db' h in
    claim_tasks now timeout lease reason task s db db' k w
step-WithinAttempts _ _ (journals id lease generation key sha size db db' h) w =
    rw (journal_tasks id lease generation key sha size db db' h) (
      kept (may_journal id lease generation key sha size)
        (λ t. record t { pending_key = some key; pending_sha = some sha; pending_size = some size })
        (λ t. refl) (λ t. refl) db w)
step-WithinAttempts _ _ (completes id lease generation case_id version o s db db' h) w =
    elim (complete_job_split id lease generation case_id version o s db db' h) [
      | inl (u, k, e) ↦ subst WithinAttempts (sym e) w
      | inr (task, f, k, same, v) ↦
          let (e, hit, out) =
            complete_tasks id lease generation case_id version o task s db db' k in
          let after =
            kept (may_complete id lease generation task.delivery_generation o.sha)
              (succeed o (task.delivery_generation + 1)) (λ t. refl) (λ t. refl) db w in
          rw e after
    ]
step-WithinAttempts _ _ (fails now id lease generation reason terminal db db' h) w =
    rw (← h) (elim (fail_job_split now id lease generation reason terminal db) [
      | inl e ↦ rw e w
      | inr (task, e) ↦
          rw (e, fail_tasks now id lease generation reason terminal task db)
            (kept (holds_lease id lease generation) (release now terminal) (λ t. refl) (λ t. refl)
              db w)
    ])

-- Whatever the workers do, in any order and with any leases, no task is attempted more often than
-- its `maxAttempts`, when none was before.
pub steps-WithinAttempts :
    (db db' : Db) → WorkerSteps db db' → WithinAttempts db → WithinAttempts db'
steps-WithinAttempts _ _ (done {db}) w = w
steps-WithinAttempts _ _ (step {a} {b} {c} s rest) w =
    steps-WithinAttempts b c rest (step-WithinAttempts a b s w)
