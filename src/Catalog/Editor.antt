-- ===== src/Catalog/Editor.antt =====
-- `parseTemplate`, `validateEditor` and `saveDraft` of apps/api/src/templates/templates.service.ts.
use authorization_document.Catalog.Versions.{Catalog, save_template_draft}
use authorization_document.Templates.Validator.{RequirementSource, validate_template_structure}
use authorization_document.Templates.Tree.{TemplateAst}
use authorization_document.Model.Status.{SignatureMode, hand_signature, stamp_upload}
use authorization_document.Model.Rows.{Key, Json}
use authorization_document.Base.{
  Option, none, some, List, [], ◌∷◌, ◌++◌, Bool, true, false, ℕ, suc, ◌+◌, Text, leb, ◌&&◌, ◌||◌,
  ◌==◌, not, any, if◌then◌else◌, is_some, is_blank, Result, ok, require, from_option, bad_request,
  template_invalid, ◌>>=◌, ◌>>◌, filter, length, map,
}

pub data ModeField : Type 0 where
  mode_absent mode_handwritten mode_stamp mode_other : ModeField

-- The body of a request; `none` is a field that is absent or of another type, for `ast` one that
-- the schema refuses, and for the identifiers no list of texts that are not empty.
pub record RawTemplate : Type 0 where
  pub key : Option Text
  pub name : Option Text
  pub description : Option Text
  pub ast : Option TemplateAst
  pub requirement_versions : Option (List Key)
  pub mode : ModeField

pub record TemplateInput : Type 0 where
  pub key : Option Text
  pub name : Option Text
  pub description : Option Text
  pub ast : TemplateAst
  pub mode : SignatureMode
  pub requirement_versions : List Key

pub data Field : Type 0 where
  ast_field versions_field mode_field key_or_name : Field
  repeated : ℕ → Field

abbrev is_letter : ℕ → Bool
is_letter c = leb b'a' c && leb c b'z'

abbrev is_key_code : ℕ → Bool
is_key_code c = is_letter c || (leb b'0' c && leb c b'9') || c == b'_'

-- `/^[a-z][a-z0-9_]*$/`
unfoldable pub machine_key : Option Text → Bool
machine_key none = false
machine_key (some []) = false
machine_key (some (c ∷ s)) = is_letter c && not (any (λ d. not (is_key_code d)) s)

abbrev pub mode_of : ModeField → Option SignatureMode
mode_of mode_absent = some hand_signature
mode_of mode_handwritten = some hand_signature
mode_of mode_stamp = some stamp_upload
mode_of mode_other = none

-- The positions of the identifiers that stand in the list before.
unfoldable pub repeated_from : List Key → ℕ → List Key → List Field
repeated_from seen index [] = []
repeated_from seen index (id ∷ rest) =
    let later = repeated_from (id ∷ seen) (index + 1) rest in
    if any (λ s. s == id) seen then repeated index ∷ later else later

abbrev pub versions_named : Option (List Key) → Bool
versions_named none = false
versions_named (some []) = false
versions_named (some (id ∷ rest)) = true

abbrev pub repeats : Option (List Key) → List Field
repeats none = []
repeats (some ids) = repeated_from [] 0 ids

abbrev pub unless : Bool → Field → List Field
unless true field = []
unless false field = field ∷ []

-- `invalid`
unfoldable pub invalid_fields : Bool → RawTemplate → List Field
unfolding machine_key repeated_from
invalid_fields creating raw =
    unless (is_some raw.ast) ast_field
    ++ unless (versions_named raw.requirement_versions) versions_field
    ++ unless (is_some (mode_of raw.mode)) mode_field
    ++ unless (not creating || (machine_key raw.key && not (is_blank raw.name))) key_or_name
    ++ repeats raw.requirement_versions

abbrev pub no_fields : List Field → Bool
no_fields [] = true
no_fields (field ∷ rest) = false

-- `parseTemplate`
unfoldable pub parse_template : Bool → RawTemplate → Result TemplateInput
unfolding invalid_fields
parse_template creating raw = do
  require (no_fields (invalid_fields creating raw)) (bad_request template_invalid)
  ast ← from_option (bad_request template_invalid) raw.ast
  ids ← from_option (bad_request template_invalid) raw.requirement_versions
  mode ← from_option (bad_request template_invalid) (mode_of raw.mode)
  ok (record {
    key = if creating then raw.key else none;
    name = raw.name;
    description = raw.description;
    ast = ast;
    mode = mode;
    requirement_versions = ids;
  })

-- A row of the requirement versions, with what the checks of a template read of it.
pub record SourceRow : Type 0 where
  pub id : Key
  pub source : RequirementSource

-- `getRequirementVersions`
unfoldable pub sources_of : List Key → List SourceRow → List SourceRow
sources_of ids rows = filter (λ r. any (λ id. r.id == id) ids) rows

-- `new Set(requirementVersionIds).size`
unfoldable pub set_size : List Key → ℕ
set_size [] = 0
set_size (id ∷ rest) =
    let others = set_size rest in if any (λ d. d == id) rest then others else suc others

-- `validateEditor`, whose callers are not publishing.
unfoldable pub validate_editor : TemplateAst → List Key → List SourceRow → Result (Unit {0})
unfolding sources_of set_size validate_template_structure
validate_editor ast ids rows = do
  require (length (sources_of ids rows) == set_size ids) (bad_request template_invalid)
  validate_template_structure ast (map (λ r. r.source) (sources_of ids rows))

-- What `create` and `saveDraft` check before they write.
unfoldable pub accept_template : Bool → RawTemplate → List SourceRow → Result TemplateInput
unfolding parse_template validate_editor
accept_template creating raw rows = do
  input ← parse_template creating raw
  validate_editor input.ast input.requirement_versions rows
  ok input

-- `saveDraft`; `stored` is the JSON value of a template.
unfoldable pub save_template :
    (TemplateAst → Json) → Key → Key → Key → RawTemplate → List SourceRow → Catalog → Result Catalog
unfolding accept_template save_template_draft
save_template stored new_id id actor raw rows c = do
  input ← accept_template false raw rows
  save_template_draft new_id id actor input.name input.description
      (stored input.ast, input.mode, input.requirement_versions) c
