-- ===== src/Cases/Laws.antt =====
-- What the operations of `CaseRepository` keep.
use authorization_document.Review.Confirm.{latest_snapshot, required_ids}
use authorization_document.Cases.Evidence.{
  record_signing, SigningInput, next_signing, is_signing_of,
}
use authorization_document.Cases.Repository.{
  transition, create_case, CreateCaseInput, create_writes, new_case,
}
use authorization_document.Model.Db.{Db, matching}
use authorization_document.Model.Rows.{Key, Time, Case, SnapshotRequirement, Snapshot}
use authorization_document.Model.Status.{
  same_status→eq, draft, draft, closed, CaseStatus, same_status,
}
use authorization_document.Base.{
  refl, inl, inr, [], ◌∷◌, none, some, false, ℕ, refl, none, some, false, [], ◌∷◌, inl, inr, ok,
  err, greatest, count, Option, Bool, ◌==◌, ◌≡◌, Text, List, ◌&&◌, arith, any, ◌≢◌, ◌<◌, ◌≤◌,
  >>=-eq-ok, conflict, from_option, status_conflict, if◌then◌else◌, ok_injective, ==_refl,
  Bool-cases, find_latest, map, sym, ◌∙◌, ap,
}

transition-eq-ok :
    (now : Time) (id : Key) (expected target : CaseStatus) (actor : Key) (reason : Option Text)
    (db db' : Db)
    → transition now id expected target actor reason db ≡ ok db'
    → (c : Case) × (db'.cases id ≡ some c) × (c.status ≡ target)
unfolding transition
transition-eq-ok now id expected target actor reason db db' h =
    let (c, e, k) =
      >>=-eq-ok
        (from_option (conflict status_conflict)
          (matching (λ (c : Case). same_status c.status expected) (db.cases id)))
        _ h in
    let closed_time = if same_status target closed then some now else c.closed_at in
    let same = ok_injective k in
    (record c { status = target; closed_at = closed_time }, rw (← same, ==_refl id) refl, refl)

moved_on : (a b c : CaseStatus) → a ≡ b → b ≢ c → same_status a c ≡ false
moved_on a b c e other = elim (Bool-cases (same_status a c)) [
  | inl h ↦ absurd (other (sym e ∙ same_status→eq a c h))
  | inr h ↦ h
]

-- A transition takes effect once: when two start from the same expected status, and the first has
-- moved the case to another one, the second is refused as a conflict.
pub transition-transition :
    (now later : Time) (id : Key) (expected target target' : CaseStatus) (actor actor' : Key)
    (reason reason' : Option Text) (db db' : Db)
    → transition now id expected target actor reason db ≡ ok db'
    → target ≢ expected
    → transition later id expected target' actor' reason' db' ≡ err (conflict status_conflict)
unfolding transition
transition-transition now later id expected target target' actor actor' reason reason' db db' h
      other =
    let (c, row, status) = transition-eq-ok now id expected target actor reason db db' h in
    let differs : same_status c.status expected ≡ false =
      moved_on c.status target expected status other in
    rw (row, differs) refl

count_above :
    {A : Type 0} (number : A → ℕ) (p : A → Bool) (xs : List A) (n : ℕ)
    → greatest number p xs < n
    → count (λ x. p x && number x == n) xs ≡ 0
unfolding greatest count
count_above number p [] n h = refl
count_above number p (x ∷ xs) n h = ground (arith, count_above number p xs n)

-- A signing's version is unique in its case, as the schema has it.
abbrev pub HasUniqueVersions : Db → Type 0
HasUniqueVersions db =
    (case_id : Key) (n : ℕ) → count (λ s. s.case_id == case_id && s.version == n) db.signings ≤ 1

record_signing-eq-ok :
    (id : Key) (input : SigningInput) (db db' : Db)
    → record_signing id input db ≡ ok db'
    → db'.signings ≡ next_signing id input db ∷ db.signings
unfolding record_signing
record_signing-eq-ok id input db db' h = ground arith

-- Recording a signing keeps the versions of each case's signings apart: the new one comes after all.
pub record_signing-HasUniqueVersions :
    (id : Key) (input : SigningInput) (db db' : Db)
    → record_signing id input db ≡ ok db'
    → HasUniqueVersions db
    → HasUniqueVersions db'
unfolding count
record_signing-HasUniqueVersions id input db db' h u c n =
    rw (record_signing-eq-ok id input db db' h) (
      ground
        (arith, u c n, count_above (λ s. s.version) (is_signing_of input.case_id) db.signings n))

not_any-find_latest :
    {A : Type 0} (number : A → ℕ) (p : A → Bool) (xs : List A)
    → any p xs ≡ false
    → find_latest number p xs ≡ none
unfolding any find_latest
not_any-find_latest number p [] h = refl
not_any-find_latest number p (x ∷ xs) h = ground (arith, not_any-find_latest number p xs)

requirement_ids :
    (key : Key → Key) (ids : List Key)
    → map
        (λ (r : SnapshotRequirement). r.requirement_version)
        (map (λ r. record { requirement_version = r; key = key r }) ids)
      ≡ ids
requirement_ids key [] = refl
requirement_ids key (r ∷ ids) = ap (λ rest. r ∷ rest) (requirement_ids key ids)

create_case-eq-ok :
    (id : Key) (input : CreateCaseInput) (db db' : Db)
    → create_case id input db ≡ ok db'
    → db' ≡ create_writes id input db
unfolding create_case
create_case-eq-ok id input db db' h = ground arith

create_writes_lem :
    (id : Key) (input : CreateCaseInput) (db : Db)
    → any (λ s. s.case_id == id) db.snapshots ≡ false
    → (required_ids (latest_snapshot id (create_writes id input db)) ≡ input.requirement_versions)
      × ((c : Case) × ((create_writes id input db).cases id ≡ some c) × (c.status ≡ draft))
unfolding create_writes latest_snapshot find_latest
create_writes_lem id input db fresh = (
  rw
      (
        ==_refl id,
        not_any-find_latest (λ (s : Snapshot). s.version) (λ (s : Snapshot). s.case_id == id)
            db.snapshots fresh,
      )
      (requirement_ids db.requirement_keys input.requirement_versions),
  (new_case input, rw (==_refl id) refl, refl),
)

-- A new case, with no snapshot under its identifier before, is a draft, and its latest snapshot
-- asks for the given items, in their order.
pub create_case-latest_snapshot :
    (id : Key) (input : CreateCaseInput) (db db' : Db)
    → create_case id input db ≡ ok db'
    → any (λ s. s.case_id == id) db.snapshots ≡ false
    → (required_ids (latest_snapshot id db') ≡ input.requirement_versions)
      × ((c : Case) × (db'.cases id ≡ some c) × (c.status ≡ draft))
create_case-latest_snapshot id input db db' h fresh =
    let same = create_case-eq-ok id input db db' h in rw same (create_writes_lem id input db fresh)
