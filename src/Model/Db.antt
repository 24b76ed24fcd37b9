-- ===== src/Model/Db.antt =====
-- The tables together, and the writes that every service shares. An operation takes the tables and
-- returns `Result`: an error is a transaction that is rolled back.
use authorization_document.Base.{ℕ, Bool, Option, none, some, List, ◌∷◌, ◌==◌, if◌then◌else◌}
use authorization_document.Model.Status.{
  CaseStatus, ActorType, internal_actor, customer_actor, system_actor,
}
use authorization_document.Model.Rows.{
  Key, Case, Link, StatusChange, Snapshot, Draft, AnswerEntry, Signing, Review, FileRecord,
  FileVersion, PdfTask, Outbox, Actor, user, the_customer, the_system, unknown, TargetType,
  AuditSource, from_system, public_h5, internal_api, Action, AuditEvent, TemplateVersion,
}

pub record Db : Type 0 where
  pub cases : Key → Option Case
  pub templates : Key → Option TemplateVersion
  pub requirement_keys : Key → Key
  pub links : List Link
  pub status_changes : List StatusChange
  pub snapshots : List Snapshot
  pub drafts : List Draft
  pub answers : List AnswerEntry
  pub signings : List Signing
  pub reviews : List Review
  pub review_history : List Review
  pub files : List FileRecord
  pub versions : List FileVersion
  pub tasks : List PdfTask
  pub outbox : List Outbox
  pub audits : List AuditEvent

-- A table keyed by its identifier.
abbrev pub put {ℓ} : {A : Type ℓ} → (Key → A) → Key → A → Key → A
put t k v j = if j == k then v else t j

abbrev pub set_case : Key → Case → Db → Db
set_case id c db = record db { cases = put db.cases id (some c) }

-- The row, if it passes the rest of a filter.
abbrev pub matching {ℓ} : {A : Type ℓ} → (A → Bool) → Option A → Option A
matching test none = none
matching test (some row) = if test row then some row else none

pub record AuditInput : Type 0 where
  pub actor_user : Option Actor
  pub actor_type : Option ActorType
  pub action : Action
  pub target_type : TargetType
  pub target : Key
  pub source : Option AuditSource

abbrev default_actor : ActorType → Actor
default_actor internal_actor = unknown
default_actor customer_actor = the_customer
default_actor system_actor = the_system

abbrev default_source : ActorType → AuditSource
default_source internal_actor = internal_api
default_source customer_actor = public_h5
default_source system_actor = from_system

abbrev or_else {ℓ} : {A : Type ℓ} → Option A → A → A
or_else none a = a
or_else (some b) a = b

-- `AuditWriter.append`
abbrev pub append_audit : AuditInput → Db → Db
append_audit input db =
    let type = or_else input.actor_type internal_actor in
    record db {
      audits =
          record {
            actor_type = type;
            actor = or_else input.actor_user (default_actor type);
            action = input.action;
            target_type = input.target_type;
            target = input.target;
            source = or_else input.source (default_source type);
          }
          ∷ db.audits;
    }

-- The forms of it that the services use on a business case.
abbrev pub audit_user : Key → Action → Key → Db → Db
audit_user u action id = append_audit (record {
  actor_user = some (user u);
  actor_type = none;
  action = action;
  target_type = TargetType.business_case;
  target = id;
  source = none;
})

abbrev pub audit_as : ActorType → Action → TargetType → Key → Db → Db
audit_as type action target_type id = append_audit (record {
  actor_user = none;
  actor_type = some type;
  action = action;
  target_type = target_type;
  target = id;
  source = none;
})

-- `caseStatusHistory.create`
abbrev pub record_status : Key → Option CaseStatus → CaseStatus → Actor → Option (List ℕ) → Db → Db
record_status id before after actor reason db = record db {
  status_changes =
      record { case_id = id; from = before; to = after; actor = actor; reason = reason }
      ∷ db.status_changes;
}
