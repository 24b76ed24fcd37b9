-- ===== src/Templates/Tree.antt =====
-- packages/contracts/src/template.ts: the tree of a template, and the conditions that its schema puts
-- on the values. A length is a natural number, as the schema lets no negative one pass; a value that
-- has not the shape of the tree is no value of these types.
use authorization_document.Base.{
  ℕ, none, some, true, false, [], ◌∷◌, Option, List, Bool, Text, ltb, leb, ◌==◌, ◌&&◌, ◌||◌,
  is_empty, not,
}

pub data TextAlign : Type 0 where
  left center right justify : TextAlign

pub record Style : Type 0 where
  pub font_family : Option Text
  pub font_size : Option ℕ
  pub font_weight : Option ℕ
  pub color : Option Text
  pub background_color : Option Text
  pub text_align : Option TextAlign
  pub line_height : Option ℕ
  pub paragraph_spacing : Option ℕ
  pub width : Option ℕ
  pub height : Option ℕ
  pub margin_top : Option ℕ
  pub margin_right : Option ℕ
  pub margin_bottom : Option ℕ
  pub margin_left : Option ℕ

-- `signer` has one value, `PARTY_A`.
pub record Slot : Type 0 where
  pub slot_id : Text
  pub page : ℕ
  pub x : ℕ
  pub y : ℕ
  pub width : ℕ
  pub height : ℕ
  pub required : Bool

pub record Column : Type 0 where
  pub header : Text
  pub variable : Text
  pub styles : Option Style

mutual
  pub data Node : Type 0 where
    heading : ℕ → Nodes → Option Style → Node
    paragraph : Nodes → Option Style → Node
    text : Text → Option Style → Node
    image : Text → Text → Option Style → Node
    table : Rows → Option Style → Node
    loop_table : List Column → Option Style → Node
    variable : Text → Option Style → Node
    signature_slot : Slot → Option Style → Node
    page_break : Node

  pub data Nodes : Type 0 where
    end : Nodes
    node : Node → Nodes → Nodes

  -- The cells of a row, and the rows of a table.
  pub data Cells : Type 0 where
    end_row : Cells
    cell : Nodes → Option Style → Cells → Cells

  pub data Rows : Type 0 where
    end_table : Rows
    row : Cells → Rows → Rows

pub record TemplateAst : Type 0 where
  pub children : Nodes
  pub header : Nodes
  pub footer : Nodes
  pub styles : Option Style

-- The conditions of `z.number().positive()`, `z.string().min(1)` and their `.optional()`.
abbrev optionally {ℓ} : {A : Type ℓ} → (A → Bool) → Option A → Bool
optionally test none = true
optionally test (some a) = test a

abbrev is_positive : ℕ → Bool
is_positive n = ltb 0 n

abbrev is_filled : Text → Bool
is_filled s = not (is_empty s)

-- `TemplateStyleSchema`
unfoldable pub accepts_style : Style → Bool
accepts_style s =
    optionally is_filled s.font_family
    && optionally is_positive s.font_size
    && optionally (λ w. w == 400 || w == 500 || w == 600 || w == 700) s.font_weight
    && optionally is_filled s.color
    && optionally is_filled s.background_color
    && optionally is_positive s.line_height
    && optionally is_positive s.width
    && optionally is_positive s.height

unfoldable pub accepts_slot : Slot → Bool
accepts_slot s =
    is_filled s.slot_id && is_positive s.page && is_positive s.width && is_positive s.height

unfoldable pub accepts_column : Column → Bool
unfolding accepts_style
accepts_column c = is_filled c.header && is_filled c.variable && optionally accepts_style c.styles

unfoldable pub accepts_columns : List Column → Bool
unfolding accepts_column
accepts_columns [] = true
accepts_columns (c ∷ cs) = accepts_column c && accepts_columns cs

abbrev some_column : List Column → Bool
some_column [] = false
some_column (c ∷ cs) = true

abbrev some_cell : Cells → Bool
some_cell end_row = false
some_cell (cell n s c) = true

abbrev some_row : Rows → Bool
some_row end_table = false
some_row (row c r) = true

-- `TemplateNodeSchema`
unfoldable mutual
  unfolding accepts_style accepts_slot accepts_columns

  pub accepts : Node → Bool
  accepts (heading level children s) =
      leb 1 level && leb level 3 && accepts_nodes children && optionally accepts_style s
  accepts (paragraph children s) = accepts_nodes children && optionally accepts_style s
  accepts (text t s) = optionally accepts_style s
  accepts (image source alt s) = is_filled source && optionally accepts_style s
  accepts (table rows s) = some_row rows && accepts_rows rows && optionally accepts_style s
  accepts (loop_table columns s) =
      some_column columns && accepts_columns columns && optionally accepts_style s
  accepts (variable key s) = is_filled key && optionally accepts_style s
  accepts (signature_slot slot s) = accepts_slot slot && optionally accepts_style s
  accepts page_break = true

  pub accepts_nodes : Nodes → Bool
  accepts_nodes end = true
  accepts_nodes (node n ns) = accepts n && accepts_nodes ns

  pub accepts_cells : Cells → Bool
  accepts_cells end_row = true
  accepts_cells (cell children s cs) =
      accepts_nodes children && optionally accepts_style s && accepts_cells cs

  pub accepts_rows : Rows → Bool
  accepts_rows end_table = true
  accepts_rows (row cs rs) = some_cell cs && accepts_cells cs && accepts_rows rs

-- `TemplateAstSchema`
unfoldable pub accepts_ast : TemplateAst → Bool
unfolding accepts_nodes accepts_style
accepts_ast ast =
    accepts_nodes ast.children
    && accepts_nodes ast.header
    && accepts_nodes ast.footer
    && optionally accepts_style ast.styles
