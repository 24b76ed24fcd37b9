-- ===== src/Base/Failures.antt =====
-- Fallible code: what the services throw, and `do` blocks over it.
use mathlib.Core.Path.{◌≡◌, refl}
use mathlib.Core.Bool.{Bool, true, false}
use mathlib.Core.Option.{Option, none, some}

-- The exceptions, by their HTTP class and the place that throws them.
pub data Reason : Type 0 where
  link_unavailable link_state_changed link_expiry_invalid active_link_missing : Reason
  link_already_active reason_required case_missing case_terminal status_not_allowed : Reason
  review_already_claimed review_assignment_changed requirement_not_in_case : Reason
  approved_item_locked review_incomplete signing_missing no_supplement_pending : Reason
  confirmation_required draft_version_conflict supplement_only consent_required : Reason
  draft_missing signing_stale changed_during_verification unique_violation : Reason
  row_missing storage_unavailable storage_mismatch signing_request_invalid : Reason
  signing_mode_invalid declaration_invalid positions_invalid positions_incomplete : Reason
  position_out_of_slot resource_mode_mismatch seal_relation_invalid : Reason
  resource_missing seal_original_required seal_original_missing preview_missing : Reason
  render_data_incomplete template_not_published catalog_empty requirement_none : Reason
  quotation_source_invalid status_conflict file_case_mismatch : Reason
  pdf_identity_mismatch pdf_case_not_finalizing pdf_signing_invalid pdf_output_missing : Reason
  pdf_fencing_rejected pdf_journal_mismatch case_capacity_exceeded : Reason
  pdf_not_failed failed_task_missing file_invalid file_count_or_size_exceeded : Reason
  file_too_large file_missing too_many_requests token_missing not_authorized : Reason
  upstream_unavailable version_not_draft version_not_published template_invalid : Reason
  file_name_invalid file_type_not_allowed file_size_exceeded file_content_invalid : Reason
  material_count_exceeded case_size_exceeded storage_key_invalid content_address_invalid : Reason
  signing_fields_untrusted position_fields_untrusted requirement_invalid : Reason
  link_case_mismatch preview_changed : Reason

pub data Failure : Type 0 where
  bad_request unauthorized forbidden not_found conflict too_many unavailable internal :
      Reason → Failure

pub data Result {ℓ} (A : Type ℓ) : Type ℓ where
  err : Failure → Result A
  ok : A → Result A

-- `if (!test) throw failure`.
abbrev pub require : Bool → Failure → Result (Unit {0})
require false failure = err failure
require true failure = ok tt

module _ {ℓ} {A : Type ℓ} where
  abbrev pub from_option : Failure → Option A → Result A
  from_option failure none = err failure
  from_option failure (some value) = ok value

  infixl 5 ◌>>=◌ ◌>>◌
  abbrev pub ◌>>=◌ {κ} : {B : Type κ} → Result A → (A → Result B) → Result B
  err failure >>= next = err failure
  ok value >>= next = next value

  abbrev pub ◌>>◌ {κ} : {B : Type κ} → Result A → Result B → Result B
  first >> next = first >>= λ _. next

  module _ {κ} {B : Type κ} where
    -- What a chain that succeeds has gone through.
    pub >>=-eq-ok :
        (first : Result A) (next : A → Result B) {result : B}
        → (first >>= next) ≡ ok result
        → (value : A) × (first ≡ ok value) × (next value ≡ ok result)
    >>=-eq-ok (err failure) next h = cc
    >>=-eq-ok (ok value) next h = (value, refl, h)

pub from_option-eq-ok {ℓ} :
    {A : Type ℓ} (failure : Failure) (o : Option A) {value : A}
    → from_option failure o ≡ ok value
    → o ≡ some value
from_option-eq-ok failure none h = cc
from_option-eq-ok failure (some a) h = cc

pub ok_injective {ℓ} : {A : Type ℓ} {a b : A} → ok a ≡ ok b → a ≡ b
ok_injective h = cc

pub require-eq-ok :
    (test : Bool) (failure : Failure) {u : Unit {0}} → require test failure ≡ ok u → test ≡ true
require-eq-ok false failure h = cc
require-eq-ok true failure h = refl

-- A step that succeeds hands its value on.
pub >>=-ok {ℓ κ} :
    {A : Type ℓ} {B : Type κ} (first : Result A) (next : A → Result B) {value : A}
    {result : Result B}
    → first ≡ ok value
    → next value ≡ result
    → (first >>= next) ≡ result
>>=-ok first next e h = rw e h

pub from_option-ok {ℓ} :
    {A : Type ℓ} (failure : Failure) (o : Option A) {value : A}
    → o ≡ some value
    → from_option failure o ≡ ok value
from_option-ok failure o e = rw e refl

pub require-ok : (test : Bool) (failure : Failure) → test ≡ true → require test failure ≡ ok tt
require-ok test failure e = rw e refl
