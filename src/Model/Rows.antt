-- ===== src/Model/Rows.antt =====
-- One record for each table's row. Identifiers, user names, hashes, media types and serialised JSON
-- values are only compared for equality: a number stands for each. A time is in milliseconds.
use authorization_document.Base.{ℕ, Bool, Option, List, Text, true, false}
use authorization_document.Model.Status.{
  CaseStatus, ReviewDecision, ActorType, FilePurpose, SignatureMode, PdfTaskStatus, DeliveryStatus,
}

abbrev pub Key : Type 0
Key = ℕ

abbrev pub Hash : Type 0
Hash = ℕ

-- A JSON value, by its serialised text.
abbrev pub Json : Type 0
Json = ℕ

abbrev pub Time : Type 0
Time = ℕ

-- The row's key is the position in the table `cases`.
pub record Case : Type 0 where
  pub status : CaseStatus
  pub template_version : Key
  pub customer_name : Text
  pub contact_name : Text
  pub factory_department : Text
  pub owner : Key
  pub reviewer : Option Key
  pub department : Key
  pub created_by : Key
  pub closed_at : Option Time

pub record Link : Type 0 where
  pub id : Key
  pub case_id : Key
  pub hash : Hash
  pub expires_at : Time
  pub disabled_at : Option Time
  pub consumed_at : Option Time
  pub completed_at : Option Time

-- Who is named as `actorUserId`.
pub data Actor : Type 0 where
  user : Key → Actor
  the_customer the_system unknown : Actor

pub record StatusChange : Type 0 where
  pub case_id : Key
  pub from : Option CaseStatus
  pub to : CaseStatus
  pub actor : Actor
  pub reason : Option Text

-- An entry of `caseSnapshot.requirements`, with its requirement's key.
pub record SnapshotRequirement : Type 0 where
  pub requirement_version : Key
  pub key : Key

pub record Snapshot : Type 0 where
  pub case_id : Key
  pub version : ℕ
  pub template_version : Key
  pub materials : Json
  pub requirements : List SnapshotRequirement

-- `content` of a draft.
pub record Content : Type 0 where
  pub answers : List (Key × Json)
  pub materials : Option Json
  pub file_versions : List Key

pub record Draft : Type 0 where
  pub case_id : Key
  pub version : ℕ
  pub base_version : ℕ
  pub content : Content
  pub actor_type : ActorType

pub record AnswerEntry : Type 0 where
  pub case_id : Key
  pub draft_version : ℕ
  pub answers : List (Key × Json)
  pub actor_type : ActorType

pub record Signing : Type 0 where
  pub id : Key
  pub case_id : Key
  pub version : ℕ
  pub draft_version : ℕ
  pub content_digest : Hash
  pub mode : SignatureMode
  pub resource : Key
  pub preview : Key
  pub preview_sha : Hash
  pub valid : Bool
  pub invalidated_at : Option Time

pub record Review : Type 0 where
  pub case_id : Key
  pub requirement_version : Key
  pub decision : ReviewDecision
  pub reason : Option Text
  pub reviewer : Key
  pub version : ℕ

-- The numbers of the media types that the code names.
abbrev pub pdf_type : Key
pdf_type = 1

abbrev pub png_type : Key
png_type = 2

abbrev pub jpeg_type : Key
jpeg_type = 3

pub data CatalogStatus : Type 0 where
  draft_version published_version disabled_version : CatalogStatus

abbrev pub is_published_status : CatalogStatus → Bool
is_published_status published_version = true
is_published_status _ = false

abbrev pub is_disabled_status : CatalogStatus → Bool
is_disabled_status disabled_version = true
is_disabled_status _ = false

pub record TemplateVersion : Type 0 where
  pub status : CatalogStatus
  pub ast : Json

pub record FileRecord : Type 0 where
  pub id : Key
  pub case_id : Key
  pub requirement_version : Option Key
  pub removed_at : Option Time

pub record FileVersion : Type 0 where
  pub id : Key
  pub file_id : Key
  pub case_id : Key
  pub version : ℕ
  pub original_name : Text
  pub mime_type : Key
  pub size_bytes : ℕ
  pub sha256 : Hash
  pub storage_key : Key
  pub actor_type : ActorType
  pub purpose : FilePurpose
  pub draft_version : Option ℕ
  pub content_digest : Option Hash
  pub original : Option Key
  pub cache_active : Bool

pub record PdfTask : Type 0 where
  pub id : Key
  pub case_id : Key
  pub template_version : Key
  pub snapshot_version : ℕ
  pub signature_version : ℕ
  pub status : PdfTaskStatus
  pub attempts : ℕ
  pub max_attempts : ℕ
  pub started_at : Option Time
  pub finished_at : Option Time
  pub lease_token : Option Key
  pub claim_generation : ℕ
  pub queue_generation : ℕ
  pub delivery_generation : ℕ
  pub pending_key : Option Key
  pub pending_sha : Option Hash
  pub pending_size : Option ℕ
  pub output_file : Option Key
  pub output_sha : Option Hash
  pub delivery : DeliveryStatus
  pub delivery_attempts : ℕ
  pub finalized_at : Option Time

pub record Outbox : Type 0 where
  pub task_id : Key
  pub finalized_queue : Bool
  pub generation : ℕ
  pub case_id : Key
  pub version : ℕ
  pub output_file : Option Key
  pub output_sha : Option Hash

pub data TargetType : Type 0 where
  business_case file_record file_version pdf_task requirement_version template_version : TargetType

pub data AuditSource : Type 0 where
  from_system public_h5 internal_api admin_api : AuditSource

pub data Action : Type 0 where
  case_created case_status_transitioned case_closed case_formally_submitted : Action
  public_link_created public_link_regenerated public_link_renewed public_link_disabled : Action
  public_draft_saved public_draft_new_version draft_saved : Action
  ordinary_signing_prepared signing_recorded signing_invalidated : Action
  review_claimed review_assigned review_reassigned requirement_reviewed : Action
  review_confirmed_rejected review_confirmed_finalizing : Action
  rejection_message_generated rejection_link_regenerated : Action
  file_version_added file_version_appended file_removed file_downloaded : Action
  file_download_failed download_authorized : Action
  pdf_generation_attempt_failed pdf_generation_failed pdf_retry_queued : Action
  pdf_delivery_failed pdf_delivery_retry_queued case_completed : Action
  requirement_draft_save requirement_published requirement_disabled : Action
  template_draft_save template_published template_disabled : Action

-- A row of the audit table; its `detail` is not modelled.
pub record AuditEvent : Type 0 where
  pub actor_type : ActorType
  pub actor : Actor
  pub action : Action
  pub target_type : TargetType
  pub target : Key
  pub source : AuditSource
