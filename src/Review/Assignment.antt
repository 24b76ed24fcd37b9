-- ===== src/Review/Assignment.antt =====
-- `claim` and `assign` of apps/api/src/review/review.service.ts.
use authorization_document.Base.{
  same_id_iff, and-eq-false, Bool-cases, Result, Option, is_blank, ◌≡◌, Text, ok, err, some,
  conflict, review_already_claimed, false, is_some, ◌&&◌, review_assignment_changed, ◌↔◌, ◌≢◌, ◌⊎◌,
  arith, ◌>>=◌, ◌>>◌, none, inl, inr, from_option, not_found, is_none, case_missing, require, not,
  bad_request, case_terminal, reason_required, same_id, >>=-eq-ok, ok_injective, ==_refl, refl, sym,
  ◌∙◌,
}
use authorization_document.Model.Status.{same_status_iff, is_terminal, is_reviewable, same_status}
use authorization_document.Model.Rows.{
  Key, Action, review_assigned, Case, review_reassigned, review_claimed,
}
use authorization_document.Model.Db.{Db, matching, audit_user, set_case}

unfoldable pub claim : Key → Key → Db → Result Db
claim id reviewer db = do
  c ←
      from_option (conflict review_already_claimed)
        (matching (λ c. is_none c.reviewer && is_reviewable c.status) (db.cases id))
  ok (
      audit_user reviewer review_claimed id
        (set_case id (record c { reviewer = some reviewer }) db))

abbrev assignment_action : Option Key → Action
assignment_action none = review_assigned
assignment_action (some _) = review_reassigned

-- `seen` is the row that the transaction has read, and `db` the tables when it writes: other
-- transactions may have committed between the two.
unfoldable pub assign : Key → Key → Key → Option Text → Option Case → Db → Result Db
unfolding is_blank
assign id reviewer actor reason seen db = do
  item ← from_option (not_found case_missing) seen
  require (not (is_terminal item.status)) (bad_request case_terminal)
  require (not (is_some item.reviewer && is_blank reason)) (bad_request reason_required)
  c ← from_option (conflict review_assignment_changed) (
      matching (λ c. same_status c.status item.status && same_id c.reviewer item.reviewer)
        (db.cases id))
  ok (
      audit_user actor (assignment_action item.reviewer) id
        (set_case id (record c { reviewer = some reviewer }) db))

-- A case is claimed once: after a claim every further claim is refused, whoever makes it.
pub claim-claim :
    (id first second : Key) (db db' : Db)
    → claim id first db ≡ ok db'
    → claim id second db' ≡ err (conflict review_already_claimed)
unfolding claim
claim-claim id first second db db' h = ground arith

-- Where the case that was read has not ended, and a reason is given if it had a reviewer, an
-- assignment is refused as a conflict exactly when the status or the reviewer of the row at the
-- time of the write is another one.
assign-conflict :
    (id reviewer actor : Key) (reason : Option Text) (item now : Case) (db : Db)
    → db.cases id ≡ some now
    → is_terminal item.status ≡ false
    → (is_some item.reviewer && is_blank reason) ≡ false
    → (assign id reviewer actor reason (some item) db ≡ err (conflict review_assignment_changed))
      ↔ ((now.status ≢ item.status) ⊎ (now.reviewer ≢ item.reviewer))
unfolding assign
assign-conflict id reviewer actor reason item now db e running given =
    let test = same_status now.status item.status && same_id now.reviewer item.reviewer in
    let refused : test ≡ false
        → assign id reviewer actor reason (some item) db
          ≡ err (conflict review_assignment_changed) =
      λ f. rw (e, running, given, f) in
    (
      λ h. elim (Bool-cases test) [
        | inl t ↦ ground (arith, t)
        | inr f ↦
            elim (and-eq-false (same_status now.status item.status)
              (same_id now.reviewer item.reviewer) f) [
                | inl s ↦ inl (λ q. cc (s, (same_status_iff now.status item.status).1 q))
                | inr r ↦ inr (λ q. cc (r, (same_id_iff now.reviewer item.reviewer).1 q))
              ]
      ],
      λ d. elim (Bool-cases test) [
        | inl t ↦ absurd (elim d [
          | inl s ↦ s ((same_status_iff now.status item.status).0 (ground (arith, t)))
          | inr r ↦ r ((same_id_iff now.reviewer item.reviewer).0 (ground (arith, t)))
        ])
        | inr f ↦ refused f
      ],
    )

-- An assignment that goes through has written its reviewer.
assign_written :
    (id reviewer actor : Key) (reason : Option Text) (item : Case) (db db' : Db)
    → assign id reviewer actor reason (some item) db ≡ ok db'
    → (c : Case) × (db'.cases id ≡ some c) × (c.reviewer ≡ some reviewer)
unfolding assign
assign_written id reviewer actor reason item db db' h =
    let (u, e, h₁) =
      >>=-eq-ok (require (not (is_terminal item.status)) (bad_request case_terminal)) _ h in
    let (v, e₁, h₂) =
      >>=-eq-ok
        (require (not (is_some item.reviewer && is_blank reason)) (bad_request reason_required)) _
        h₁ in
    let (c, e₂, h₃) =
      >>=-eq-ok
        (from_option (conflict review_assignment_changed) (
          matching (λ c. same_status c.status item.status && same_id c.reviewer item.reviewer)
            (db.cases id)))
        _ h₂ in
    (record c { reviewer = some reviewer }, rw (← ok_injective h₃, ==_refl id) refl, refl)

assign_running :
    (id reviewer actor : Key) (reason : Option Text) (item : Case) (db db' : Db)
    → assign id reviewer actor reason (some item) db ≡ ok db'
    → is_terminal item.status ≡ false
unfolding assign
assign_running id reviewer actor reason item db db' h =
    let (u, e, h₁) =
      >>=-eq-ok (require (not (is_terminal item.status)) (bad_request case_terminal)) _ h in
    ground arith

-- No assignment is lost: of two that have read the same row, and of which the first gives the case
-- another reviewer than it had, the second is refused as a conflict once the first has committed,
-- whoever makes it, where it has a reason to give if the case had a reviewer.
pub assign-assign :
    (id reviewer reviewer' actor actor' : Key) (reason reason' : Option Text) (item : Case)
    (db db' : Db)
    → assign id reviewer actor reason (some item) db ≡ ok db'
    → item.reviewer ≢ some reviewer
    → (is_some item.reviewer && is_blank reason') ≡ false
    → assign id reviewer' actor' reason' (some item) db' ≡ err (conflict review_assignment_changed)
assign-assign id reviewer reviewer' actor actor' reason reason' item db db' h other given =
    let (c, row, written) = assign_written id reviewer actor reason item db db' h in
    (assign-conflict id reviewer' actor' reason' item c db' row
        (assign_running id reviewer actor reason item db db' h) given).1
      (inr (λ e. other (sym e ∙ written)))
