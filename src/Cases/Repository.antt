-- ===== src/Cases/Repository.antt =====
-- `CaseRepository` of apps/api/src/database/repositories/case.repository.ts: cases, links, drafts and
-- reviews. The columns of the quotation are not modelled.
use authorization_document.Links.Access.{disable_link}
use authorization_document.Files.Capacity.{invalidate_signings}
use authorization_document.Model.Db.{Db, set_case, audit_user, record_status, matching, audit_as}
use authorization_document.Model.Rows.{
  Key, Time, Json, case_created, user, draft_saved, TargetType, case_status_transitioned, Case,
}
use authorization_document.Model.Status.{draft, closed, CaseStatus, ActorType, same_status}
use authorization_document.Base.{
  ℕ, ◌>>=◌, ◌>>◌, none, some, [], ◌∷◌, ok, Text, Result, List, map, require, is_none, Option, any,
  internal, from_option, ◌==◌, unique_violation, conflict, row_missing, greatest, status_conflict,
  update_where, draft_version_conflict, if◌then◌else◌, ◌+◌,
}

pub record CreateCaseInput : Type 0 where
  pub customer_name : Text
  pub contact_name : Text
  pub factory_department : Text
  pub template_version : Key
  pub requirement_versions : List Key
  pub materials : Json
  pub owner : Key
  pub reviewer : Option Key
  pub department : Key
  pub actor : Key

abbrev pub new_case : CreateCaseInput → Case
new_case input = record {
  status = draft;
  template_version = input.template_version;
  customer_name = input.customer_name;
  contact_name = input.contact_name;
  factory_department = input.factory_department;
  owner = input.owner;
  reviewer = input.reviewer;
  department = input.department;
  created_by = input.actor;
  closed_at = none;
}

-- The rows of a new case.
unfoldable pub create_writes : Key → CreateCaseInput → Db → Db
create_writes id input db =
    let opened = set_case id (new_case input) db in
    let frozen = record opened {
      snapshots =
          record {
            case_id = id;
            version = 1;
            template_version = input.template_version;
            materials = input.materials;
            requirements =
                map (λ r. record { requirement_version = r; key = db.requirement_keys r })
                  input.requirement_versions;
          }
          ∷ db.snapshots;
    } in
    audit_user input.actor case_created id
      (record_status id none draft (user input.actor) none frozen)

-- `create`; `id` is drawn, and unique.
unfoldable pub create_case : Key → CreateCaseInput → Db → Result Db
unfolding create_writes
create_case id input db = do
  require (is_none (db.cases id)) (internal unique_violation)
  ok (create_writes id input db)

-- `transition`
unfoldable pub transition :
    Time → Key → CaseStatus → CaseStatus → Key → Option Text → Db → Result Db
transition now id expected target actor reason db = do
  c ←
      from_option (conflict status_conflict)
        (matching (λ c. same_status c.status expected) (db.cases id))
  let closed_time = if same_status target closed then some now else c.closed_at
  ok (
      audit_user actor case_status_transitioned id (
        record_status id (some expected) target (user actor) reason
          (set_case id (record c { status = target; closed_at = closed_time }) db)))

-- `disablePublicLink`
unfoldable pub disable_public_link : Key → Time → Db → Result Db
disable_public_link id at db = do
  require (any (λ l. l.id == id) db.links) (internal row_missing)
  ok (record db { links = update_where (λ l. l.id == id) (disable_link at) db.links })

-- `saveDraft`
unfoldable pub save_draft : Time → Key → ℕ → List (Key × Json) → ActorType → Db → Result Db
unfolding invalidate_signings
save_draft now id base answers actor_type db =
    let current = greatest (λ d. d.version) (λ d. d.case_id == id) db.drafts in
    do
      require (current == base) (conflict draft_version_conflict)
      ok (
          audit_as actor_type draft_saved TargetType.business_case id (
            invalidate_signings now id (record db {
              drafts =
                  record {
                    case_id = id;
                    version = current + 1;
                    base_version = base;
                    content = record { answers = answers; materials = none; file_versions = [] };
                    actor_type = actor_type;
                  }
                  ∷ db.drafts;
              answers =
                  record {
                    case_id = id;
                    draft_version = current + 1;
                    answers = answers;
                    actor_type = actor_type;
                  }
                  ∷ db.answers;
            })))
