-- ===== src/Cases/Open.antt =====
-- `create` of apps/api/src/cases/case.service.ts: the case and, where an expiry is asked for, its
-- link. The quotation that is stored with the case is not modelled, only the check of its source.
use authorization_document.Links.Operations.{submit_draft}
use authorization_document.Cases.Repository.{CreateCaseInput, create_case}
use authorization_document.Cases.Selection.{
  TemplateRow, Configured, resolve_template, resolve_requirements, last_published,
}
use authorization_document.Model.Rows.{Key, Json, Time, Hash}
use authorization_document.Base.{
  Text, ℕ, Option, none, some, List, Bool, true, false, Result, ok, err, require, bad_request,
  quotation_source_invalid, ◌>>=◌, ◌>>◌, ◌+◌, ◌-◌, internal, link_expiry_invalid,
}
use authorization_document.Model.Db.{Db}

-- `quotationSource`
pub data SourceField : Type 0 where
  source_absent source_known source_unknown : SourceField

abbrev pub is_source : SourceField → Bool
is_source source_unknown = false
is_source _ = true

-- `linkExpiresInDays` times 86400000, in whole milliseconds as `Date` takes it: `no_expiry` is a value
-- that is false (absent, zero or NaN), `after` one that is positive, `before` one that is negative, and
-- `no_date` one with which there is no date (no number, or out of the range of dates).
pub data ExpiryField : Type 0 where
  no_expiry no_date : ExpiryField
  after before : ℕ → ExpiryField

-- The body is not checked before. Fields of another JSON type than the one here are left out.
pub record RawCase : Type 0 where
  pub customer_name : Text
  pub contact_name : Text
  pub factory_department : Text
  pub materials : Json
  pub template_version : Option Key
  pub references : Option (List Key)
  pub quotation_source : SourceField
  pub link_expires : ExpiryField

pub record CaseActor : Type 0 where
  pub user : Key
  pub department : Option Key

-- What is read before the case is created: the templates, the published one that Prisma answers with
-- where the reference is `undefined`, the items of each template version, the key
-- `authorization_letter` and the department `unassigned`.
pub record Configuration : Type 0 where
  pub templates : List TemplateRow
  pub unreferenced : Option TemplateRow
  pub configured : Key → List Configured
  pub letter : Key
  pub unassigned : Key

abbrev department_or : Option Key → Key → Key
department_or none unassigned = unassigned
department_or (some department) unassigned = department

-- `resolveTemplate`, also where there is no reference.
unfoldable pub template_for : Configuration → Option Key → Result TemplateRow
unfolding resolve_template last_published
template_for config (some reference) = resolve_template reference config.templates
template_for config none = elim config.unreferenced [
  | some t ↦ ok t
  | none ↦ last_published config.templates
]

unfoldable pub prepare_case : Configuration → RawCase → CaseActor → Result CreateCaseInput
unfolding template_for resolve_requirements
prepare_case config raw actor = do
  template ← template_for config raw.template_version
  ids ← resolve_requirements config.letter raw.references (config.configured template.id)
  require (is_source raw.quotation_source) (bad_request quotation_source_invalid)
  ok (record {
    customer_name = raw.customer_name;
    contact_name = raw.contact_name;
    factory_department = raw.factory_department;
    template_version = template.id;
    requirement_versions = ids;
    materials = raw.materials;
    owner = actor.user;
    reviewer = none;
    department = department_or actor.department config.unassigned;
    actor = actor.user;
  })

-- The rows that are left, whether the last call succeeds or not.
abbrev pub settled : Result Db → Db → Result (Unit {0}) × Db
settled (err e) db = (err e, db)
settled (ok db') db = (ok tt, db')

abbrev pub then_open : ExpiryField → (Db → Result Db) → Result Db → Db → Result (Unit {0}) × Db
then_open _ submit (err e) db = (err e, db)
then_open no_expiry submit (ok made) db = (ok tt, made)
then_open _ submit (ok made) db = settled (submit made) made

module _ (digest : Key → Hash) where
  -- `submitDraft` with the date; without one `toISOString` throws.
  unfoldable pub submit_until : Time → Key → Key → Key → Key → ExpiryField → Db → Result Db
  unfolding submit_draft
  submit_until now link_id token user id (after ms) db =
      submit_draft digest now link_id token user id (now + ms) db
  submit_until now link_id token user id (before ms) db =
      submit_draft digest now link_id token user id (now - ms) db
  submit_until now link_id token user id _ db = err (internal link_expiry_invalid)

  -- `link_id`, `id` and `token` are drawn.
  unfoldable pub open_case :
      Configuration → Time → Key → Key → Key → RawCase → CaseActor → Db → Result (Unit {0}) × Db
  unfolding prepare_case create_case submit_until
  open_case config now id link_id token raw actor db =
      then_open raw.link_expires (submit_until now link_id token actor.user id raw.link_expires)
        (prepare_case config raw actor >>= λ input. create_case id input db) db
