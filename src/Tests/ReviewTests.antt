-- ===== src/Tests/ReviewTests.antt =====
-- Runs of the review desk.
use authorization_document.Links.Access.{resolve, create_link, find_open, disable_if_open}
use authorization_document.Review.Messages.{
  copy_message, Message, generate_message, generate_message-copy_message,
}
use authorization_document.Review.Verdict.{
  confirm-every_approved, IsApprovedItem, confirm-sole_token, confirm-task_queued,
}
use authorization_document.Review.Confirm.{
  confirm, Outcome, finalize, confirm_rejected, required_ids, same_task, confirm_approved,
  latest_snapshot, seven_days, is_complete, has_reject, is_reviewed, latest_valid_signing,
  upsert_task,
}
use authorization_document.Review.Ledger.{
  IsLedger, review_item-IsLedger, review_item-keeps_approved,
}
use authorization_document.Review.Items.{review_item, upsert_review, is_review_of, version_of}
use authorization_document.Review.Assignment.{claim, assign, claim-claim, assign-assign}
use authorization_document.Tests.Data.{no_rows, one_case, get_ok, hash_of, some_case, some_link}
use authorization_document.Model.Db.{Db}
use authorization_document.Model.Rows.{Key, Review, Snapshot, Signing, Case, PdfTask}
use authorization_document.Model.Status.{
  pending_review, needs_supplement, pending_rereview, finalizing, approve, reject, queued,
  hand_signature, ReviewDecision, CaseStatus,
}
use authorization_document.Base.{
  none, some, true, refl, [], ◌∷◌, err, any, ◌≡◌, find, All, List, conflict, review_already_claimed,
  review_assignment_changed, ◌+◌, arith, link_already_active, ◌<◌, length, count, update_where,
  find_latest, filter, is_blank, if◌then◌else◌,
}

runs : Unit {0}
unfolding claim assign review_item upsert_review confirm confirm_rejected confirm_approved
    is_complete has_reject is_reviewed latest_snapshot latest_valid_signing upsert_task
    generate_message copy_message resolve create_link find any count update_where find_open
    disable_if_open find_latest filter is_blank
runs = tt

abbrev snapshot_one : Snapshot
snapshot_one = record {
  case_id = 1;
  version = 1;
  template_version = 50;
  materials = 0;
  requirements =
      record { requirement_version = 70; key = 170 }
      ∷ record { requirement_version = 71; key = 171 }
      ∷ [];
}

abbrev signing_one : Signing
signing_one = record {
  id = 80;
  case_id = 1;
  version = 1;
  draft_version = 1;
  content_digest = 90;
  mode = hand_signature;
  resource = 81;
  preview = 82;
  preview_sha = 91;
  valid = true;
  invalidated_at = none;
}

abbrev review_of : Key → ReviewDecision → Review
review_of r d = record {
  case_id = 1;
  requirement_version = r;
  decision = d;
  reason = none;
  reviewer = 62;
  version = 1;
}

-- Case 1 is under review by user 62, with two items.
abbrev desk : CaseStatus → List Review → Db
desk status rows = record (one_case status (some 62)) {
  snapshots = snapshot_one ∷ [];
  signings = signing_one ∷ [];
  reviews = rows;
  review_history = rows;
}

abbrev unclaimed : Db
unclaimed = one_case pending_review none

abbrev claimed : Db
claimed = get_ok (claim 1 62 unclaimed) no_rows

claim-claim_example : claim 1 63 claimed ≡ err (conflict review_already_claimed)
unfolding runs
claim-claim_example = claim-claim 1 62 63 unclaimed claimed refl

abbrev reassigned : Db
reassigned =
    get_ok
      (assign 1 63 60 (some (b'r' ∷ [])) (some (some_case pending_review (some 62)))
        (one_case pending_review (some 62)))
      no_rows

assign-assign_example :
    assign 1 64 61 (some (b's' ∷ [])) (some (some_case pending_review (some 62))) reassigned
    ≡ err (conflict review_assignment_changed)
unfolding runs
assign-assign_example =
    assign-assign 1 63 64 60 61 (some (b'r' ∷ [])) (some (b's' ∷ []))
      (some_case pending_review (some 62)) (one_case pending_review (some 62)) reassigned refl
      (ground arith) refl

abbrev first_pass : Db
first_pass = desk pending_rereview (review_of 70 approve ∷ review_of 71 reject ∷ [])

abbrev second : Review × Db
second = get_ok (review_item 1 71 approve none 62 first_pass) (review_of 0 approve, no_rows)

desk-IsLedger : IsLedger (desk pending_rereview [])
unfolding runs
desk-IsLedger c q = refl

abbrev first_item : Review × Db
first_item =
    get_ok (review_item 1 70 approve none 62 (desk pending_rereview []))
      (review_of 0 approve, no_rows)

review_item-IsLedger_example :
    IsLedger first_item.1
    × (find (is_review_of 1 70) first_item.1.reviews ≡ some first_item.0)
    × (is_review_of 1 70 first_item.0 ≡ true)
    × ((c q : Key)
        → (version_of (find (is_review_of c q) first_item.1.reviews)
            ≡ (if is_review_of c q first_item.0 then 1 else 0)
              + version_of (find (is_review_of c q) (desk pending_rereview []).reviews))
          × (count (is_review_of c q) first_item.1.review_history
              ≡ (if is_review_of c q first_item.0 then 1 else 0)
                + count (is_review_of c q) (desk pending_rereview []).review_history))
unfolding runs
review_item-IsLedger_example =
    review_item-IsLedger 1 70 approve none 62 (desk pending_rereview []) first_item.1 first_item.0
      refl desk-IsLedger

review_item-keeps_approved_example :
    find (is_review_of 1 70) second.1.reviews ≡ some (review_of 70 approve)
unfolding runs
review_item-keeps_approved_example =
    review_item-keeps_approved 1 71 approve none 62 first_pass second.1 second.0 refl
      (some_case pending_rereview (some 62)) 70 (review_of 70 approve) refl refl refl refl

abbrev approved_desk : Db
approved_desk = desk pending_review (review_of 70 approve ∷ review_of 71 approve ∷ [])

abbrev finalized_run : Outcome × Db
finalized_run = get_ok (confirm hash_of 1000 21 8 30 1 62 approved_desk) (finalize, no_rows)

confirm-every_approved_example :
    All (IsApprovedItem 1 approved_desk) (required_ids (latest_snapshot 1 approved_desk))
    × (0 < length (required_ids (latest_snapshot 1 approved_desk)))
    × ((s : Signing) × (latest_valid_signing 1 approved_desk ≡ some s) × (s.valid ≡ true))
unfolding runs
confirm-every_approved_example =
    confirm-every_approved hash_of 1000 21 8 30 1 62 approved_desk finalized_run.1 refl

confirm-task_queued_example :
    (c : Case) × (finalized_run.1.cases 1 ≡ some c)
    × (c.status ≡ finalizing)
    × ((t : PdfTask) × (find (same_task 1 c.template_version 1 1) finalized_run.1.tasks ≡ some t)
        × (t.status ≡ queued))
unfolding runs
confirm-task_queued_example =
    confirm-task_queued hash_of 1000 21 8 30 1 62 approved_desk finalized_run.1 snapshot_one
      signing_one refl refl refl

abbrev rejected_desk : Db
rejected_desk = desk pending_review (review_of 70 approve ∷ review_of 71 reject ∷ [])

abbrev supplement_run : Outcome × Db
supplement_run = get_ok (confirm hash_of 1000 21 8 30 1 62 rejected_desk) (finalize, no_rows)

confirm-sole_token_example : 1008 ≡ hash_of 8
unfolding runs
confirm-sole_token_example =
    confirm-sole_token hash_of 1000 21 8 30 1 62 rejected_desk supplement_run.1 (1000 + seven_days)
      refl 2000 8 (some_link 21 1 8 (1000 + seven_days)) (omega arith) refl refl

abbrev waiting_desk : Db
waiting_desk = desk needs_supplement (review_of 70 approve ∷ review_of 71 reject ∷ [])

abbrev no_message : Message
no_message = record { rejected = []; token = 0; deadline = 0 }

abbrev message_run : Message × Db
message_run =
    get_ok (generate_message hash_of 1000 21 8 1 60 true waiting_desk) (no_message, no_rows)

generate_message-copy_message_example :
    copy_message hash_of 2000 23 9 1 60 message_run.1 ≡ err (conflict link_already_active)
unfolding runs
generate_message-copy_message_example =
    generate_message-copy_message hash_of 1000 2000 21 23 8 9 1 60 60 true waiting_desk
      message_run.1 message_run.0 refl (omega arith)
