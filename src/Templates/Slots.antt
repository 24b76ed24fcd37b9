-- ===== src/Templates/Slots.antt =====
-- `signatureSlots` of apps/api/src/cases/case.service.ts on the tree of a template. It walks every
-- value of the stored tree; only these nodes are objects with the type of a slot.
use authorization_document.Base.{[], ◌∷◌, suc, List, Bool, ℕ}
use authorization_document.Templates.Tree.{
  Node, Nodes, Cells, Rows, Slot, TemplateAst, heading, paragraph, text, image, table, loop_table,
  variable, signature_slot, page_break, end, node, end_row, cell, end_table, row,
}

-- `visit`, which pushes onto what was found; the last found stands first here.
unfoldable mutual
  pub collect : Node → List Slot → List Slot
  collect (heading level children s) found = collect_nodes children found
  collect (paragraph children s) found = collect_nodes children found
  collect (table rows s) found = collect_rows rows found
  collect (signature_slot slot s) found = slot ∷ found
  collect (text t s) found = found
  collect (image source alt s) found = found
  collect (loop_table columns s) found = found
  collect (variable key s) found = found
  collect page_break found = found

  pub collect_nodes : Nodes → List Slot → List Slot
  collect_nodes end found = found
  collect_nodes (node n ns) found = collect_nodes ns (collect n found)

  pub collect_cells : Cells → List Slot → List Slot
  collect_cells end_row found = found
  collect_cells (cell children s cs) found = collect_cells cs (collect_nodes children found)

  pub collect_rows : Rows → List Slot → List Slot
  collect_rows end_table found = found
  collect_rows (row cs rs) found = collect_rows rs (collect_cells cs found)

unfoldable pub signature_slots : TemplateAst → List Slot
unfolding collect_nodes
signature_slots ast =
    collect_nodes ast.footer (collect_nodes ast.header (collect_nodes ast.children []))

abbrev pub is_required : Slot → Bool
is_required s = s.required

-- Page breaks outside every other component start a page each.
unfoldable mutual
  pub breaks : Node → ℕ → ℕ
  breaks (heading level children s) n = breaks_nodes children n
  breaks (paragraph children s) n = breaks_nodes children n
  breaks (table rows s) n = breaks_rows rows n
  breaks page_break n = suc n
  breaks (signature_slot slot s) n = n
  breaks (text t s) n = n
  breaks (image source alt s) n = n
  breaks (loop_table columns s) n = n
  breaks (variable key s) n = n

  pub breaks_nodes : Nodes → ℕ → ℕ
  breaks_nodes end n = n
  breaks_nodes (node m ns) n = breaks_nodes ns (breaks m n)

  pub breaks_cells : Cells → ℕ → ℕ
  breaks_cells end_row n = n
  breaks_cells (cell children s cs) n = breaks_cells cs (breaks_nodes children n)

  pub breaks_rows : Rows → ℕ → ℕ
  breaks_rows end_table n = n
  breaks_rows (row cs rs) n = breaks_rows rs (breaks_cells cs n)

-- The pages of a template: one, and one for each page break.
unfoldable pub page_count : TemplateAst → ℕ
unfolding breaks_nodes
page_count ast = breaks_nodes ast.children 1
