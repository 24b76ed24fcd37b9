-- ===== src/Model/Status.antt =====
-- The enumerations of packages/contracts/src/enums.ts and of prisma/schema.prisma.
use authorization_document.Base.{ℕ, ◌≡◌, Bool, true, false, arith, ◌==◌, ◌↔◌}

pub data CaseStatus : Type 0 where
  draft awaiting_customer customer_editing pending_review needs_supplement : CaseStatus
  pending_rereview finalizing pdf_failed completed closed : CaseStatus

-- The position in `CASE_STATUSES`.
abbrev pub status_code : CaseStatus → ℕ
status_code draft = 0
status_code awaiting_customer = 1
status_code customer_editing = 2
status_code pending_review = 3
status_code needs_supplement = 4
status_code pending_rereview = 5
status_code finalizing = 6
status_code pdf_failed = 7
status_code completed = 8
status_code closed = 9

abbrev pub same_status : CaseStatus → CaseStatus → Bool
same_status a b = status_code a == status_code b

pub same_status→eq : (a b : CaseStatus) → same_status a b ≡ true → a ≡ b
same_status→eq a b h = ground arith

pub same_status_iff : (a b : CaseStatus) → (same_status a b ≡ true) ↔ (a ≡ b)
same_status_iff a b = ground arith

-- `['COMPLETED', 'CLOSED'].includes(status)`
abbrev pub is_terminal : CaseStatus → Bool
is_terminal completed = true
is_terminal closed = true
is_terminal _ = false

-- `{ in: [PENDING_REVIEW, PENDING_REREVIEW] }`
abbrev pub is_reviewable : CaseStatus → Bool
is_reviewable pending_review = true
is_reviewable pending_rereview = true
is_reviewable _ = false

-- `[AWAITING_CUSTOMER, CUSTOMER_EDITING, NEEDS_SUPPLEMENT].includes(status)`
abbrev pub is_editable : CaseStatus → Bool
is_editable awaiting_customer = true
is_editable customer_editing = true
is_editable needs_supplement = true
is_editable _ = false

pub data ReviewDecision : Type 0 where
  approve reject : ReviewDecision

abbrev pub is_reject : ReviewDecision → Bool
is_reject approve = false
is_reject reject = true

pub data ActorType : Type 0 where
  internal_actor customer_actor system_actor : ActorType

pub data FilePurpose : Type 0 where
  material handwritten seal_original seal_processed presign_pdf final_pdf : FilePurpose

abbrev pub purpose_code : FilePurpose → ℕ
purpose_code material = 0
purpose_code handwritten = 1
purpose_code seal_original = 2
purpose_code seal_processed = 3
purpose_code presign_pdf = 4
purpose_code final_pdf = 5

abbrev pub same_purpose : FilePurpose → FilePurpose → Bool
same_purpose a b = purpose_code a == purpose_code b

pub data SignatureMode : Type 0 where
  hand_signature stamp_upload : SignatureMode

pub data PdfTaskStatus : Type 0 where
  queued processing succeeded failed : PdfTaskStatus

pub data DeliveryStatus : Type 0 where
  not_ready pending delivered delivery_failed : DeliveryStatus

pub same_status_refl : (a : CaseStatus) → same_status a a ≡ true
same_status_refl a = ground arith
