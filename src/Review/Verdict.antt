-- ===== src/Review/Verdict.antt =====
-- What a confirmed review has established.
use authorization_document.Links.Operations.{disable_all}
use authorization_document.Links.Resolution.{resolve_congr}
use authorization_document.Links.SingleOpen.{disable_all-none_open}
use authorization_document.Links.Rotation.{create_link-IsSoleToken}
use authorization_document.Review.Confirm.{
  confirm, is_complete, has_reject, is_reviewed, finalize, supplement, required_ids,
  latest_snapshot, latest_valid_signing, same_task, new_task, confirm_rejected, upsert_task,
  Outcome, confirm_approved, seven_days,
}
use authorization_document.Review.Items.{is_review_of, locked_case}
use authorization_document.Links.Access.{resolve, create_link}
use authorization_document.Model.Db.{Db, set_case}
use authorization_document.Model.Rows.{
  Key, Review, Hash, Time, Snapshot, Signing, Link, Case, PdfTask,
}
use authorization_document.Model.Status.{needs_supplement, finalizing, approve, queued, is_reject}
use authorization_document.Base.{
  ℕ, some, true, false, refl, inl, inr, ok, find, ◌≡◌, All, ◌≤◌, All-map, ◌<◌, any, length,
  any-find, find_sound, any-false_found, ◌==◌, ◌&&◌, arith, ◌∙◌, not-any-All, sym,
  find_latest_sound, List, ◌⊎◌, ◌+◌, >>=-eq-ok, Bool-cases, from_option, find_updated, require,
}

-- The item has a review of this case, and it is an approval.
abbrev pub IsApprovedItem : Key → Db → Key → Type 0
IsApprovedItem case_id db requirement =
    (v : Review) × (find (is_review_of case_id requirement) db.reviews ≡ some v)
    × (v.decision ≡ approve)

complete-All :
    (case_id : Key) (db : Db)
    → is_complete case_id db ≡ true
    → has_reject case_id db ≡ false
    → All (IsApprovedItem case_id db) (required_ids (latest_snapshot case_id db))
unfolding is_complete has_reject is_reviewed
complete-All case_id db full clean =
    All-map (λ r. any (is_review_of case_id r) db.reviews ≡ true) (IsApprovedItem case_id db)
      (λ r h.
        let (v, f) = any-find (is_review_of case_id r) db.reviews h in
        let mine = find_sound (is_review_of case_id r) db.reviews f in
        let not_rejected =
          any-false_found (is_review_of case_id r)
            (λ x. x.case_id == case_id && is_reject x.decision) db.reviews clean f in
        (v, f, ground arith))
      (required_ids (latest_snapshot case_id db))
      (not-any-All (λ r. any (is_review_of case_id r) db.reviews)
        (required_ids (latest_snapshot case_id db)) (ground arith))

find-upsert_task :
    (id case_id template : Key) (snapshot signature : ℕ) (tasks : List PdfTask)
    → (t : PdfTask) × (find
          (same_task case_id template snapshot signature)
          (upsert_task id case_id template snapshot signature tasks)
        ≡ some t)
      × (t.status ≡ queued)
unfolding upsert_task find
find-upsert_task id case_id template snapshot signature tasks =
    let p = same_task case_id template snapshot signature in
    elim (Bool-cases (any p tasks)) [
      | inl e ↦
          let (t, f) = any-find p tasks e in
          (
            record t { status = queued },
            rw e (
                find_updated p (λ t. record t { status = queued }) p (λ x. refl) tasks f
                ∙ rw (find_sound p tasks f)),
            refl,
          )
      | inr e ↦ (new_task id case_id template snapshot signature, rw e (ground arith), refl)
    ]

module _ (digest : Key → Hash) (now : Time) (link_id token task_id case_id reviewer : Key)
    (db db' : Db) where
  -- The two ways to confirm.
  confirm_split :
      (o : Outcome)
      → confirm digest now link_id token task_id case_id reviewer db ≡ ok (o, db')
      → (item : Case) × (is_complete case_id db ≡ true)
        × (((has_reject case_id db ≡ true)
              × (confirm_rejected digest now link_id token task_id case_id reviewer item db
                  ≡ ok (o, db')))
            ⊎ ((has_reject case_id db ≡ false)
                × (confirm_approved digest now link_id token task_id case_id reviewer item db
                    ≡ ok (o, db'))))
  unfolding confirm
  confirm_split o h =
      let (item, e, h₁) = >>=-eq-ok (from_option _ (locked_case case_id reviewer db)) _ h in
      let (u, full, h₂) = >>=-eq-ok (require (is_complete case_id db) _) _ h₁ in
      (
        item,
        ground arith,
        elim (Bool-cases (has_reject case_id db)) [
          | inl r ↦ inl (r, rw r at h₂)
          | inr r ↦ inr (r, rw r at h₂)
        ],
      )

  rejected_outcome :
      (item : Case) (o : Outcome)
      → confirm_rejected digest now link_id token task_id case_id reviewer item db ≡ ok (o, db')
      → o ≡ supplement token (now + seven_days)
  unfolding confirm_rejected
  rejected_outcome item o h = ground arith

  approved_outcome :
      (item : Case) (o : Outcome)
      → confirm_approved digest now link_id token task_id case_id reviewer item db ≡ ok (o, db')
      → (o ≡ finalize)
        × ((s : Signing) × (latest_valid_signing case_id db ≡ some s)
            × ((n : Snapshot) × (latest_snapshot case_id db ≡ some n)
                × (db'.cases case_id ≡ some (record item { status = finalizing }))
                × (db'.tasks
                    ≡ upsert_task task_id case_id item.template_version n.version s.version
                        db.tasks)))
  unfolding confirm_approved
  approved_outcome item o h =
      let (s, es, h₁) = >>=-eq-ok (from_option _ (latest_valid_signing case_id db)) _ h in
      let (n, en, h₂) = >>=-eq-ok (from_option _ (latest_snapshot case_id db)) _ h₁ in
      (ground arith, (s, ground arith, (n, ground arith, ground arith, ground arith)))

  -- The finalizing way.
  finalized :
      confirm digest now link_id token task_id case_id reviewer db ≡ ok (finalize, db')
      → (item : Case) × (is_complete case_id db ≡ true)
        × (has_reject case_id db ≡ false)
        × (confirm_approved digest now link_id token task_id case_id reviewer item db
            ≡ ok (finalize, db'))
  finalized h =
      let (item, full, ways) = confirm_split finalize h in
      elim ways [
        | inl (r, k) ↦ cc (rejected_outcome item finalize k)
        | inr (r, k) ↦ (item, full, r, k)
      ]

  -- A confirmation that finalizes the case has an approval for every item of its latest snapshot,
  -- at least one item, and a valid signing.
  pub confirm-every_approved :
      confirm digest now link_id token task_id case_id reviewer db ≡ ok (finalize, db')
      → All (IsApprovedItem case_id db) (required_ids (latest_snapshot case_id db))
        × (0 < length (required_ids (latest_snapshot case_id db)))
        × ((s : Signing) × (latest_valid_signing case_id db ≡ some s) × (s.valid ≡ true))
  unfolding is_complete latest_valid_signing
  confirm-every_approved h =
      let (item, full, clean, k) = finalized h in
      let (o, (s, es, rest)) = approved_outcome item finalize k in
      let sound =
        find_latest_sound (λ s. s.version) (λ s. s.case_id == case_id && s.valid) db.signings es in
      (complete-All case_id db full clean, ground arith, (s, es, ground arith))

  -- A confirmation that finalizes the case moves it to `FINALIZING`, and leaves a queued PDF task for
  -- its latest snapshot and its latest valid signing, which there are.
  pub confirm-task_queued :
      (n : Snapshot) (s : Signing)
      → latest_snapshot case_id db ≡ some n
      → latest_valid_signing case_id db ≡ some s
      → confirm digest now link_id token task_id case_id reviewer db ≡ ok (finalize, db')
      → (c : Case) × (db'.cases case_id ≡ some c)
        × (c.status ≡ finalizing)
        × ((t : PdfTask) × (find
                (same_task case_id c.template_version n.version s.version)
                db'.tasks
              ≡ some t)
            × (t.status ≡ queued))
  confirm-task_queued n s en es h =
      let (item, full, clean, k) = finalized h in
      let (o, (s', es', (n', en', moved, tasks))) = approved_outcome item finalize k in
      let same_s : s' ≡ s = cc in
      let same_n : n' ≡ n = cc in
      let (t, f, q) =
        find-upsert_task task_id case_id item.template_version n.version s.version db.tasks in
      (record item { status = finalizing }, moved, refl, (t, rw (tasks, same_n, same_s) f, q))

  -- After a confirmation that asks for a supplement, no token of the case but the new one
  -- resolves, from then on.
  pub confirm-sole_token :
      (expires : Time)
      → confirm digest now link_id token task_id case_id reviewer db
        ≡ ok (supplement token expires, db')
      → (later : Time) (t : Key) (l : Link) → now ≤ later
      → resolve digest later t db' ≡ ok l
      → l.case_id ≡ case_id
      → l.hash ≡ digest token
  unfolding confirm_rejected
  confirm-sole_token expires h later t l le r =
      let (item, full, ways) = confirm_split (supplement token expires) h in
      elim ways [
        | inr (e, k) ↦ cc ((approved_outcome item (supplement token expires) k).0)
        | inl (e, k) ↦
            let moved = set_case case_id (record item { status = needs_supplement }) db in
            let (linked, made, h₂) =
              >>=-eq-ok
                (create_link link_id case_id (digest token) (now + seven_days)
                  (disable_all now case_id moved))
                _ k in
            let same : (db'.links ≡ linked.links) × (db'.cases ≡ linked.cases) = ground arith in
            create_link-IsSoleToken digest now (now + seven_days) link_id token case_id
              (disable_all now case_id moved) linked (disable_all-none_open now case_id moved) made
              later t l le (sym (resolve_congr digest later t linked db' same.0 same.1) ∙ r)
      ]
