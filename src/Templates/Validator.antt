-- ===== src/Templates/Validator.antt =====
-- apps/api/src/templates/template-publish.validator.ts. Every refusal is one failure here; the code's
-- carry messages.
use authorization_document.Templates.Definition.{Definition, is_file, is_image, is_upload}
use authorization_document.Model.Rows.{CatalogStatus, Time, is_disabled_status, is_published_status}
use authorization_document.Base.{
  ok, ◌>>=◌, ◌>>◌, none, some, true, false, [], ◌∷◌, suc, ℕ, Text, List, Failure, Bool, Option,
  Result, codes, bad_request, find, from_option, text_eq, ltb, leb, require, ◌&&◌, template_invalid,
  ◌||◌, is_none, ◌+◌, not, is_some, starts_with, is_among, any, if◌then◌else◌,
}
use authorization_document.Templates.Tree.{
  Node, Nodes, Cells, Rows, Slot, Column, TemplateAst, heading, paragraph, text, image, table,
  loop_table, variable, signature_slot, page_break, end, node, end_row, cell, end_table, row, Style,
  accepts_ast,
}

-- A requirement version that a template refers to; `none` where its stored definition is no value of
-- the schema.
pub record RequirementSource : Type 0 where
  pub status : CatalogStatus
  pub disabled_at : Option Time
  pub definition : Option Definition
  pub key : Text

abbrev pub page_width : ℕ
page_width = 595

abbrev pub page_height : ℕ
page_height = 842

abbrev authorization_letter : Text
authorization_letter = codes "authorization_letter"

-- `BUILTIN_VARIABLES` and `MATERIAL_VARIABLES`
abbrev pub builtin_variables : List Text
builtin_variables =
    codes "customer_name"
    ∷ codes "contact_name"
    ∷ codes "factory_department"
    ∷ codes "case_number"
    ∷ []

abbrev pub material_variables : List Text
material_variables =
    codes "name"
    ∷ codes "specification"
    ∷ codes "quantity"
    ∷ codes "material"
    ∷ codes "craft"
    ∷ codes "optionalPrice"
    ∷ []

abbrev pub invalid : Failure
invalid = bad_request template_invalid

abbrev is_disabled : RequirementSource → Bool
is_disabled s = is_disabled_status s.status || is_some s.disabled_at

-- `definitions.get(key)`
unfoldable pub definition_of : List Definition → Text → Option Definition
definition_of ds key = find (λ (d : Definition). text_eq d.key key) ds

-- One round of the loop over the sources.
unfoldable pub add_source : Bool → RequirementSource → List Definition → Result (List Definition)
unfolding definition_of
add_source publishing s ds = do
  d ← from_option invalid s.definition
  require (text_eq d.key s.key) invalid
  require (is_none (definition_of ds d.key)) invalid
  require (not (publishing && (is_disabled s || not (is_published_status s.status)))) invalid
  ok (d ∷ ds)

unfoldable pub collect_definitions :
    Bool → List RequirementSource → List Definition → Result (List Definition)
unfolding add_source
collect_definitions publishing [] ds = ok ds
collect_definitions publishing (s ∷ rest) ds = do
  more ← add_source publishing s ds
  collect_definitions publishing rest more

abbrev is_letter : Definition → Bool
is_letter d = text_eq d.key authorization_letter && d.required

-- The system's authorization letter is among the sources, required, and a file.
unfoldable pub require_authorization : Bool → List RequirementSource → Result (Unit {0})
require_authorization publishing sources = do
  s ←
      from_option invalid
        (find (λ (s : RequirementSource). text_eq s.key authorization_letter) sources)
  d ← from_option invalid s.definition
  require (is_letter d) invalid
  require (is_file d.type) invalid
  require (not (publishing && (is_disabled s || not (is_published_status s.status)))) invalid

abbrev margin : Option ℕ → ℕ
margin none = 0
margin (some n) = n

unfoldable pub margins_fit : Option Style → Bool
margins_fit none = true
margins_fit (some s) =
    ltb (margin s.margin_left + margin s.margin_right) page_width
    && ltb (margin s.margin_top + margin s.margin_bottom) page_height

-- What a visit of the tree gathers; the sets are lists.
pub record Visit : Type 0 where
  pub referenced : List Text
  pub slot_ids : List Text
  pub required_signatures : ℕ
  pub page_count : ℕ

pub data Region : Type 0 where
  body page_header page_footer : Region

abbrev pub is_body : Region → Bool
is_body body = true
is_body _ = false

unfoldable pub slot_fits : Slot → Bool
slot_fits s = leb (s.x + s.width) page_width && leb (s.y + s.height) page_height

-- The text variable of a known source, or a built-in one.
unfoldable pub visit_variable : List Definition → Text → Visit → Result Visit
unfolding definition_of
visit_variable ds key st = do
  require (not (starts_with (codes "material.") key)) invalid
  require (is_among builtin_variables key || is_some (definition_of ds key)) invalid
  elim (definition_of ds key) [
    | none ↦ ok st
    | some d ↦ do
      require (not (is_upload d.type)) invalid
      ok (record st { referenced = key ∷ st.referenced })
  ]

unfoldable pub visit_image : List Definition → Text → Visit → Result Visit
unfolding definition_of
visit_image ds source st = do
  d ← from_option invalid (definition_of ds source)
  require (is_image d.type) invalid
  ok (record st { referenced = source ∷ st.referenced })

unfoldable pub visit_slot : Slot → Visit → Result Visit
unfolding slot_fits
visit_slot s st = do
  require (not (is_among st.slot_ids s.slot_id)) invalid
  require (slot_fits s) invalid
  ok (record st {
    slot_ids = s.slot_id ∷ st.slot_ids;
    required_signatures = if s.required then suc st.required_signatures else st.required_signatures;
  })

-- `visit`
unfoldable mutual
  unfolding visit_variable visit_image visit_slot

  pub visit : List Definition → Region → Node → Visit → Result Visit
  visit ds r (heading level children s) st = visit_nodes ds r children st
  visit ds r (paragraph children s) st = visit_nodes ds r children st
  visit ds r (text t s) st = ok st
  visit ds r (image source alt s) st = visit_image ds source st
  visit ds r (table rows s) st = visit_rows ds r rows st
  visit ds r (loop_table columns s) st = do
    require (is_body r) invalid
    require (not (any (λ (c : Column). not (is_among material_variables c.variable)) columns))
        invalid
    ok st
  visit ds r (variable key s) st = visit_variable ds key st
  visit ds r (signature_slot slot s) st = do require (is_body r) invalid; visit_slot slot st
  visit ds r page_break st = do
    require (is_body r) invalid
    ok (record st { page_count = suc st.page_count })

  pub visit_nodes : List Definition → Region → Nodes → Visit → Result Visit
  visit_nodes ds r end st = ok st
  visit_nodes ds r (node n ns) st = visit ds r n st >>= visit_nodes ds r ns

  pub visit_cells : List Definition → Region → Cells → Visit → Result Visit
  visit_cells ds r end_row st = ok st
  visit_cells ds r (cell children s cs) st = visit_nodes ds r children st >>= visit_cells ds r cs

  pub visit_rows : List Definition → Region → Rows → Visit → Result Visit
  visit_rows ds r end_table st = ok st
  visit_rows ds r (row cs rs) st = visit_cells ds r cs st >>= visit_rows ds r rs

-- `validateSignaturePage`
unfoldable mutual
  pub pages_exist : ℕ → Node → Bool
  pages_exist count (heading level children s) = pages_exist_nodes count children
  pages_exist count (paragraph children s) = pages_exist_nodes count children
  pages_exist count (table rows s) = pages_exist_rows count rows
  pages_exist count (signature_slot slot s) = leb slot.page count
  pages_exist count (text t s) = true
  pages_exist count (image source alt s) = true
  pages_exist count (loop_table columns s) = true
  pages_exist count (variable key s) = true
  pages_exist count page_break = true

  pub pages_exist_nodes : ℕ → Nodes → Bool
  pages_exist_nodes count end = true
  pages_exist_nodes count (node n ns) = pages_exist count n && pages_exist_nodes count ns

  pub pages_exist_cells : ℕ → Cells → Bool
  pages_exist_cells count end_row = true
  pages_exist_cells count (cell children s cs) =
      pages_exist_nodes count children && pages_exist_cells count cs

  pub pages_exist_rows : ℕ → Rows → Bool
  pages_exist_rows count end_table = true
  pages_exist_rows count (row cs rs) = pages_exist_cells count cs && pages_exist_rows count rs

-- A required definition that no component shows.
abbrev pub is_unused : Visit → Definition → Bool
is_unused st d =
    d.required
    && not (text_eq d.key authorization_letter)
    && not (is_upload d.type)
    && not (is_among st.referenced d.key)

abbrev pub start : Visit
start = record { referenced = []; slot_ids = []; required_signatures = 0; page_count = 1 }

-- `validate`
unfoldable pub validate : Bool → TemplateAst → List RequirementSource → Result (Unit {0})
unfolding accepts_ast collect_definitions require_authorization margins_fit visit_nodes
    pages_exist_nodes
validate publishing ast sources = do
  require (accepts_ast ast) invalid
  ds ← collect_definitions publishing sources []
  require_authorization publishing sources
  require (margins_fit ast.styles) invalid
  inside ← visit_nodes ds body ast.children start
  headed ← visit_nodes ds page_header ast.header inside
  st ← visit_nodes ds page_footer ast.footer headed
  require (pages_exist_nodes st.page_count ast.children) invalid
  require (not publishing || ltb 0 st.required_signatures) invalid
  require (not publishing || not (any (is_unused st) ds)) invalid

-- `validateTemplateStructure` and `validateTemplateForPublish`
unfoldable pub validate_template_structure :
    TemplateAst → List RequirementSource → Result (Unit {0})
unfolding validate
validate_template_structure = validate false

unfoldable pub validate_template_for_publish :
    TemplateAst → List RequirementSource → Result (Unit {0})
unfolding validate
validate_template_for_publish = validate true
