-- ===== src/Tests/CaseTests.antt =====
-- Runs of the case repository, the retry loop and the abilities.
use authorization_document.Links.Access.{resolve, create_link}
use authorization_document.Links.Operations.{submit_draft}
use authorization_document.Cases.Opened.{open_case-resolve}
use authorization_document.Cases.Open.{
  Configuration, RawCase, CaseActor, source_absent, open_case, prepare_case, template_for, after,
  submit_until,
}
use authorization_document.Cases.Selection.{
  resolve_requirements, is_requested, has_item, Configured, distinct_ids, resolve_template,
  last_published,
}
use authorization_document.Auth.Grants.{authorize-mapping_grants}
use authorization_document.Cases.Transactions.{
  Attempt, serializable_transaction, retryable, serializable_transaction-eq-ok, attempt_from,
  committed,
}
use authorization_document.Review.Confirm.{required_ids, latest_snapshot}
use authorization_document.Cases.Evidence.{SigningInput, record_signing}
use authorization_document.Cases.Repository.{
  transition, CreateCaseInput, create_case, create_writes,
}
use authorization_document.Cases.Laws.{transition-transition}
use authorization_document.Auth.Abilities.{
  RoleMapping, ResolvedAbilities, capability, case_read, pdf_retry, dept_scope, mapping_grants,
  enabled_mappings, widest, resolve_abilities, authorize,
}
use authorization_document.Tests.Data.{no_rows, one_case, get_ok, hash_of}
use authorization_document.Model.Db.{Db}
use authorization_document.Model.Rows.{Key, png_type, FileVersion, Link}
use authorization_document.Model.Status.{
  customer_editing, finalizing, pdf_failed, completed, customer_actor, handwritten, hand_signature,
}
use authorization_document.Base.{
  ℕ, refl, none, some, true, [], ◌∷◌, ok, err, find, ◌≤◌, Option, any, arith, ◌<◌, if◌then◌else◌,
  count, Failure, ◌==◌, filter, ◌≡◌, greatest, find_latest, update_where, conflict, ltb,
  status_conflict, internal, unique_violation, List, map,
}

runs : Unit {0}
unfolding find any count filter greatest find_latest update_where transition record_signing
    create_case create_writes latest_snapshot attempt_from serializable_transaction enabled_mappings
    mapping_grants widest resolve_abilities authorize is_requested has_item distinct_ids
    resolve_requirements resolve_template open_case prepare_case template_for last_published
    submit_until submit_draft create_link resolve
runs = tt

abbrev finalizing_case : Db
finalizing_case = one_case finalizing none

abbrev moved : Db
moved = get_ok (transition 1000 1 finalizing completed 60 none finalizing_case) no_rows

transition-transition_example :
    transition 1001 1 finalizing pdf_failed 61 none moved ≡ err (conflict status_conflict)
unfolding runs
transition-transition_example =
    transition-transition 1000 1001 1 finalizing completed pdf_failed 60 61 none none
      finalizing_case moved refl (ground arith)

abbrev file_one : Key → FileVersion
file_one id = record {
  id = id;
  file_id = 83;
  case_id = 1;
  version = 1;
  original_name = [];
  mime_type = png_type;
  size_bytes = 10;
  sha256 = 91;
  storage_key = 84;
  actor_type = customer_actor;
  purpose = handwritten;
  draft_version = none;
  content_digest = none;
  original = none;
  cache_active = true;
}

abbrev signing_input : SigningInput
signing_input = record {
  case_id = 1;
  mode = hand_signature;
  resource = 81;
  draft_version = some 1;
  content_digest = none;
  preview = 82;
  preview_sha = 91;
}

abbrev with_files : Db
with_files = record (one_case customer_editing none) { versions = file_one 81 ∷ file_one 82 ∷ [] }

abbrev recorded : Db
recorded = get_ok (record_signing 80 signing_input with_files) no_rows

recorded_run : map (λ s. s.version) recorded.signings ≡ 1 ∷ []
unfolding runs
recorded_run = refl

abbrev case_input : CreateCaseInput
case_input = record {
  customer_name = [];
  contact_name = [];
  factory_department = [];
  template_version = 50;
  requirement_versions = 70 ∷ 71 ∷ [];
  materials = 0;
  owner = 60;
  reviewer = none;
  department = 61;
  actor = 60;
}

abbrev created : Db
created = get_ok (create_case 2 case_input no_rows) no_rows

created_run : required_ids (latest_snapshot 2 created) ≡ (70 ∷ 71 ∷ [])
unfolding runs
created_run = refl

-- Two write conflicts, then a commit.
abbrev third_time : ℕ → Attempt ℕ
third_time n = if ltb n 3 then retryable (internal unique_violation) else committed 7

third_time_conflicts : (k : ℕ) → 1 ≤ k → k < 3 → (e : Failure) × (third_time k ≡ retryable e)
third_time_conflicts k low high = (internal unique_violation, ground arith)

serializable_transaction-eq-ok_example : serializable_transaction 4 third_time ≡ ok 7
unfolding runs
serializable_transaction-eq-ok_example =
    serializable_transaction-eq-ok 4 third_time 3 7 (omega arith) (omega arith) third_time_conflicts
      refl

abbrev mapping_one : RoleMapping
mapping_one = record {
  role = 5;
  enabled = true;
  capabilities = capability case_read ∷ capability pdf_retry ∷ [];
  data_scope = dept_scope;
}

abbrev mappings : Key → Option RoleMapping
mappings k = if k == 5 then some mapping_one else none

abbrev abilities_one : ResolvedAbilities
abilities_one = record {
  granted = case_read ∷ pdf_retry ∷ [];
  data_scope = dept_scope;
  matched_roles = 5 ∷ [];
}

authorize-mapping_grants_example :
    (k : Key) × (m : RoleMapping) × (any (λ x. x == k) (4 ∷ 5 ∷ []) ≡ true)
    × (mappings k ≡ some m)
    × (m.enabled ≡ true)
    × (mapping_grants pdf_retry m ≡ true)
unfolding runs
authorize-mapping_grants_example =
    authorize-mapping_grants mappings (4 ∷ 5 ∷ []) pdf_retry abilities_one refl

-- Item 71 is asked for by its key 171; the letter is item 70.
abbrev configured : List Configured
configured =
    record { requirement_version = 71; key = 171 }
    ∷ record { requirement_version = 70; key = 170 }
    ∷ record { requirement_version = 72; key = 172 }
    ∷ []

selection_run : resolve_requirements 170 (some (171 ∷ [])) configured ≡ ok (70 ∷ 71 ∷ [])
unfolding runs
selection_run = refl

abbrev config : Configuration
config = record {
  templates = record { id = 50; key = 5; published = true; published_at = 100 } ∷ [];
  unreferenced = none;
  configured = λ t. configured;
  letter = 170;
  unassigned = 61;
}

abbrev raw_case : RawCase
raw_case = record {
  customer_name = [];
  contact_name = [];
  factory_department = [];
  materials = 0;
  template_version = some 5;
  references = some (171 ∷ []);
  quotation_source = source_absent;
  link_expires = after 604800000;
}

abbrev owner : CaseActor
owner = record { user = 60; department = none }

abbrev opened : Db
opened = (open_case hash_of config 1000 2 21 8 raw_case owner no_rows).1

open_case-resolve_example :
    (any (λ s. s == 70) (required_ids (latest_snapshot 2 opened)) ≡ true)
    × ((l : Link) × (resolve hash_of 2000 8 opened ≡ ok l) × (l.case_id ≡ 2))
unfolding runs
open_case-resolve_example =
    open_case-resolve hash_of config 1000 2000 2 21 8 raw_case owner no_rows opened
      (record { id = 50; key = 5; published = true; published_at = 100 })
      (record { requirement_version = 70; key = 170 }) 604800000 refl (omega arith) refl refl refl
      refl
