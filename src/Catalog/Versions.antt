-- ===== src/Catalog/Versions.antt =====
-- The versions of requirements and templates:
-- apps/api/src/database/repositories/catalog-version.repository.ts. The two kinds differ in their
-- content, for which `C` stands.
use authorization_document.Model.Db.{Db, append_audit, put}
use authorization_document.Model.Rows.{
  Key, published_version, draft_version, disabled_version, CatalogStatus, Json, Action, Time,
  TargetType, requirement_published, requirement_disabled, template_published, template_disabled,
  user, template_draft_save, requirement_draft_save,
}
use authorization_document.Model.Status.{SignatureMode}
use authorization_document.Base.{
  ℕ, ◌>>=◌, ◌>>◌, none, some, true, false, ◌∷◌, ok, Option, List, Text, Bool, find_latest, find,
  update_where, Result, ◌==◌, from_option, not_found, row_missing, require, if◌then◌else◌, conflict,
  not, same_id, version_not_draft, version_not_published, any, bad_request, internal,
  template_invalid, unique_violation, ◌+◌,
}

pub record Version (C : Type 0) : Type 0 where
  pub id : Key
  pub owner : Key
  pub version : ℕ
  pub status : CatalogStatus
  pub content : C
  pub created_by : Key
  pub published_at : Option Time
  pub disabled_at : Option Time

abbrev pub TemplateContent : Type 0
TemplateContent = Json × SignatureMode × List Key

pub record Catalog : Type 0 where
  pub requirement_keys : Key → Option Key
  pub requirement_versions : List (Version Json)
  pub template_names : Key → Option (Text × Option Text)
  pub template_versions : List (Version TemplateContent)
  pub tables : Db

abbrev pub is_draft : CatalogStatus → Bool
is_draft draft_version = true
is_draft _ = false

abbrev pub is_published_status : CatalogStatus → Bool
is_published_status published_version = true
is_published_status _ = false

abbrev pub audit_version : Key → Action → TargetType → Key → Db → Db
audit_version actor action type id = append_audit (record {
  actor_user = some (user actor);
  actor_type = none;
  action = action;
  target_type = type;
  target = id;
  source = none;
})

module _ {C : Type 0} where
  unfoldable pub latest_version : Key → List (Version C) → Option (Version C)
  latest_version owner rows = find_latest (λ v. v.version) (λ v. v.owner == owner) rows

  unfoldable pub version_row : Key → List (Version C) → Option (Version C)
  version_row id rows = find (λ v. v.id == id) rows

  -- `update` of one row's status, with the time of it.
  unfoldable pub mark_published : Time → Key → List (Version C) → List (Version C)
  mark_published now id rows =
      update_where (λ v. v.id == id)
        (λ v. record v { status = published_version; published_at = some now }) rows

  unfoldable pub mark_disabled : Time → Key → List (Version C) → List (Version C)
  mark_disabled now id rows =
      update_where (λ v. v.id == id)
        (λ v. record v { status = disabled_version; disabled_at = some now }) rows

  -- `transitionRequirement` and `transitionTemplate` to `PUBLISHED`.
  unfoldable pub publish : Time → Key → List (Version C) → Result (List (Version C))
  unfolding version_row mark_published
  publish now id rows = do
    current ← from_option (not_found row_missing) (version_row id rows)
    require (is_draft current.status) (conflict version_not_draft)
    ok (mark_published now id rows)

  -- `transitionRequirement` and `transitionTemplate` to `DISABLED`.
  unfoldable pub disable_version : Time → Key → List (Version C) → Result (List (Version C))
  unfolding version_row mark_disabled
  disable_version now id rows = do
    current ← from_option (not_found row_missing) (version_row id rows)
    require (is_published_status current.status) (conflict version_not_published)
    ok (mark_disabled now id rows)

  -- Saving: a draft is overwritten, and any other version gets a successor; `new_id` is drawn, and
  -- identifiers are unique.
  unfoldable pub save_version :
      Key → Key → Key → C → List (Version C) → Result (Key × List (Version C))
  unfolding latest_version
  save_version new_id owner actor content rows = do
    latest ← from_option (not_found row_missing) (latest_version owner rows)
    (if is_draft latest.status
        then (ok (
          latest.id,
          update_where (λ v. v.id == latest.id) (λ v. record v { content = content }) rows,
        ))
        else (require (not (any (λ v. v.id == new_id) rows)) (internal unique_violation)
            >> ok (
              new_id,
              record {
                id = new_id;
                owner = owner;
                version = latest.version + 1;
                status = draft_version;
                content = content;
                created_by = actor;
                published_at = none;
                disabled_at = none;
              }
                  ∷ rows,
            )))

-- `publishRequirementAtomically`: `validate` is the caller's check of the version.
unfoldable pub publish_requirement_atomically :
    (Version Json → Result (Unit {0})) → Time → Key → Key → Catalog → Result Catalog
unfolding version_row publish
publish_requirement_atomically validate now actor id c = do
  current ← from_option (not_found row_missing) (version_row id c.requirement_versions)
  rows ← publish now id c.requirement_versions
  validate current
  ok (record c {
    requirement_versions = rows;
    tables = audit_version actor requirement_published TargetType.requirement_version id c.tables;
  })

-- `publishTemplateAtomically`, which leaves the status to the caller's check.
unfoldable pub publish_template_atomically :
    (Version TemplateContent → Result (Unit {0})) → Time → Key → Key → Catalog → Result Catalog
unfolding version_row mark_published
publish_template_atomically validate now actor id c = do
  current ← from_option (not_found row_missing) (version_row id c.template_versions)
  validate current
  ok (record c {
    template_versions = mark_published now id c.template_versions;
    tables = audit_version actor template_published TargetType.template_version id c.tables;
  })

-- `publishRequirement`, `disableRequirement`
unfoldable pub publish_requirement : Time → Key → Key → Catalog → Result Catalog
unfolding publish
publish_requirement now actor id c = do
  rows ← publish now id c.requirement_versions
  ok (record c {
    requirement_versions = rows;
    tables = audit_version actor requirement_published TargetType.requirement_version id c.tables;
  })

unfoldable pub disable_requirement : Time → Key → Key → Catalog → Result Catalog
unfolding disable_version
disable_requirement now actor id c = do
  rows ← disable_version now id c.requirement_versions
  ok (record c {
    requirement_versions = rows;
    tables = audit_version actor requirement_disabled TargetType.requirement_version id c.tables;
  })

-- `saveRequirementDraft`; `key_of` reads the `key` of a definition. Without concurrent writers the
-- version observed before the transaction is the latest one in it.
unfoldable pub save_requirement_draft :
    (Json → Option Key) → Key → Key → Key → Json → Catalog → Result Catalog
unfolding save_version
save_requirement_draft key_of new_id id actor definition c = do
  key ← from_option (not_found row_missing) (c.requirement_keys id)
  require (same_id (key_of definition) (some key)) (bad_request template_invalid)
  saved ← save_version new_id id actor definition c.requirement_versions
  ok (record c {
    requirement_versions = saved.1;
    tables =
        audit_version actor requirement_draft_save TargetType.requirement_version saved.0 c.tables;
  })

-- `publishTemplate`, `disableTemplate`
unfoldable pub publish_template : Time → Key → Key → Catalog → Result Catalog
unfolding publish
publish_template now actor id c = do
  rows ← publish now id c.template_versions
  ok (record c {
    template_versions = rows;
    tables = audit_version actor template_published TargetType.template_version id c.tables;
  })

unfoldable pub disable_template : Time → Key → Key → Catalog → Result Catalog
unfolding disable_version
disable_template now actor id c = do
  rows ← disable_version now id c.template_versions
  ok (record c {
    template_versions = rows;
    tables = audit_version actor template_disabled TargetType.template_version id c.tables;
  })

abbrev changed_name : Option Text → Option Text → Text × Option Text → Text × Option Text
changed_name none none old = old
changed_name (some name) none old = (name, old.1)
changed_name none (some d) old = (old.0, some d)
changed_name (some name) (some d) old = (name, some d)

-- `saveTemplateDraft`
unfoldable pub save_template_draft :
    Key → Key → Key → Option Text → Option Text → TemplateContent → Catalog → Result Catalog
unfolding save_version
save_template_draft new_id id actor name description content c = do
  old ← from_option (not_found row_missing) (c.template_names id)
  saved ← save_version new_id id actor content c.template_versions
  ok (record c {
    template_names = put c.template_names id (some (changed_name name description old));
    template_versions = saved.1;
    tables = audit_version actor template_draft_save TargetType.template_version saved.0 c.tables;
  })
