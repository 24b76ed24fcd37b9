-- ===== src/Templates/Published.antt =====
-- What a template that may be published is like.
use authorization_document.Templates.Definition.{Definition}
use authorization_document.Templates.Visited.{
  Holds, FitsPage, HasDistinct, ids_of, visit_nodes-Holds,
}
use authorization_document.Templates.Slots.{
  collect, is_required, signature_slots, breaks, page_count, collect_nodes, collect_cells,
  collect_rows, breaks_nodes, breaks_cells, breaks_rows,
}
use authorization_document.Templates.Validator.{
  body, page_header, page_footer, pages_exist, Region, visit, validate_template_for_publish,
  validate, Visit, is_body, invalid, start, RequirementSource, pages_exist_nodes,
  collect_definitions, require_authorization, margins_fit, pages_exist_cells, visit_nodes,
  pages_exist_rows, visit_cells, visit_rows,
}
use authorization_document.Templates.Tree.{
  heading, paragraph, text, image, table, loop_table, variable, signature_slot, page_break, end,
  node, end_row, cell, end_table, row, TemplateAst, Slot, Node, Nodes, accepts_ast, Cells, Rows,
}
use authorization_document.Base.{
  ok, ◌>>◌, true, false, refl, [], ℕ, List, count, Result, ◌≤◌, ◌≡◌, ◌∙◌, require, All, arith,
  >>=-eq-ok, and-eq-true, not, ◌||◌, ltb, subst, sym,
}

abbrev pub OnPage : ℕ → Slot → Type 0
OnPage pages s = s.page ≤ pages

mutual
  unfolding pages_exist collect

  on_pages :
      (pages : ℕ) (n : Node) (found : List Slot)
      → pages_exist pages n ≡ true
      → All (OnPage pages) found
      → All (OnPage pages) (collect n found)
  on_pages pages (heading level children s) found h a = on_pages_nodes pages children found h a
  on_pages pages (paragraph children s) found h a = on_pages_nodes pages children found h a
  on_pages pages (table rows s) found h a = on_pages_rows pages rows found h a
  on_pages pages (signature_slot slot s) found h a = (ground arith, a)
  on_pages pages (text t s) found h a = a
  on_pages pages (image source alt s) found h a = a
  on_pages pages (loop_table columns s) found h a = a
  on_pages pages (variable key s) found h a = a
  on_pages pages page_break found h a = a

  on_pages_nodes :
      (pages : ℕ) (ns : Nodes) (found : List Slot)
      → pages_exist_nodes pages ns ≡ true
      → All (OnPage pages) found
      → All (OnPage pages) (collect_nodes ns found)
  on_pages_nodes pages end found h a = a
  on_pages_nodes pages (node n ns) found h a =
      let (l, r) = and-eq-true (pages_exist pages n) (pages_exist_nodes pages ns) h in
      on_pages_nodes pages ns (collect n found) r (on_pages pages n found l a)

  on_pages_cells :
      (pages : ℕ) (cs : Cells) (found : List Slot)
      → pages_exist_cells pages cs ≡ true
      → All (OnPage pages) found
      → All (OnPage pages) (collect_cells cs found)
  on_pages_cells pages end_row found h a = a
  on_pages_cells pages (cell children s cs) found h a =
      let (l, r) = and-eq-true (pages_exist_nodes pages children) (pages_exist_cells pages cs) h in
      on_pages_cells pages cs (collect_nodes children found) r
        (on_pages_nodes pages children found l a)

  on_pages_rows :
      (pages : ℕ) (rs : Rows) (found : List Slot)
      → pages_exist_rows pages rs ≡ true
      → All (OnPage pages) found
      → All (OnPage pages) (collect_rows rs found)
  on_pages_rows pages end_table found h a = a
  on_pages_rows pages (row cs rs) found h a =
      let (l, r) = and-eq-true (pages_exist_cells pages cs) (pages_exist_rows pages rs) h in
      on_pages_rows pages rs (collect_cells cs found) r (on_pages_cells pages cs found l a)

-- Outside the body there is no slot and no page break.
abbrev Bare : (List Slot → List Slot) → (ℕ → ℕ) → Type 0
Bare slots pages = ((found : List Slot) → slots found ≡ found) × ((n : ℕ) → pages n ≡ n)

Bare-then :
    (f g : List Slot → List Slot) (p q : ℕ → ℕ)
    → Bare f p
    → Bare g q
    → Bare (λ l. g (f l)) (λ n. q (p n))
Bare-then f g p q b c = ((λ found. c.0 (f found) ∙ b.0 found), (λ n. c.1 (p n) ∙ b.1 n))

refused :
    (r : Region) (next : Result Visit) (st : Visit)
    → is_body r ≡ false
    → (require (is_body r) invalid >> next) ≡ ok st
    → ⊥
refused body next st outside h = cc
refused page_header next st outside h = cc
refused page_footer next st outside h = cc

mutual
  unfolding visit collect breaks

  visit-Bare :
      (ds : List Definition) (r : Region) (n : Node) (st st' : Visit)
      → is_body r ≡ false
      → visit ds r n st ≡ ok st'
      → Bare (collect n) (breaks n)
  visit-Bare ds r (heading level children s) st st' o e = visit_nodes-Bare ds r children st st' o e
  visit-Bare ds r (paragraph children s) st st' o e = visit_nodes-Bare ds r children st st' o e
  visit-Bare ds r (table rows s) st st' o e = visit_rows-Bare ds r rows st st' o e
  visit-Bare ds r (signature_slot slot s) st st' o e = absurd (refused r _ st' o e)
  visit-Bare ds r page_break st st' o e = absurd (refused r _ st' o e)
  visit-Bare ds r (text t s) st st' o e = ((λ found. refl), (λ n. refl))
  visit-Bare ds r (image source alt s) st st' o e = ((λ found. refl), (λ n. refl))
  visit-Bare ds r (loop_table columns s) st st' o e = ((λ found. refl), (λ n. refl))
  visit-Bare ds r (variable key s) st st' o e = ((λ found. refl), (λ n. refl))

  visit_nodes-Bare :
      (ds : List Definition) (r : Region) (ns : Nodes) (st st' : Visit)
      → is_body r ≡ false
      → visit_nodes ds r ns st ≡ ok st'
      → Bare (collect_nodes ns) (breaks_nodes ns)
  visit_nodes-Bare ds r end st st' o e = ((λ found. refl), (λ n. refl))
  visit_nodes-Bare ds r (node n ns) st st' o e =
      let (t, e₁, h₁) = >>=-eq-ok (visit ds r n st) _ e in
      Bare-then (collect n) (collect_nodes ns) (breaks n) (breaks_nodes ns)
        (visit-Bare ds r n st t o e₁) (visit_nodes-Bare ds r ns t st' o h₁)

  visit_cells-Bare :
      (ds : List Definition) (r : Region) (cs : Cells) (st st' : Visit)
      → is_body r ≡ false
      → visit_cells ds r cs st ≡ ok st'
      → Bare (collect_cells cs) (breaks_cells cs)
  visit_cells-Bare ds r end_row st st' o e = ((λ found. refl), (λ n. refl))
  visit_cells-Bare ds r (cell children s cs) st st' o e =
      let (t, e₁, h₁) = >>=-eq-ok (visit_nodes ds r children st) _ e in
      Bare-then (collect_nodes children) (collect_cells cs) (breaks_nodes children)
        (breaks_cells cs) (visit_nodes-Bare ds r children st t o e₁)
        (visit_cells-Bare ds r cs t st' o h₁)

  visit_rows-Bare :
      (ds : List Definition) (r : Region) (rs : Rows) (st st' : Visit)
      → is_body r ≡ false
      → visit_rows ds r rs st ≡ ok st'
      → Bare (collect_rows rs) (breaks_rows rs)
  visit_rows-Bare ds r end_table st st' o e = ((λ found. refl), (λ n. refl))
  visit_rows-Bare ds r (row cs rs) st st' o e =
      let (t, e₁, h₁) = >>=-eq-ok (visit_cells ds r cs st) _ e in
      Bare-then (collect_cells cs) (collect_rows rs) (breaks_cells cs) (breaks_rows rs)
        (visit_cells-Bare ds r cs st t o e₁) (visit_rows-Bare ds r rs t st' o h₁)

-- A template that a customer can sign.
pub record IsSignable (ast : TemplateAst) : Type 0 where
  pub demanded : 1 ≤ count is_required (signature_slots ast)
  pub placed : All FitsPage (signature_slots ast)
  pub paged : All (OnPage (page_count ast)) (signature_slots ast)
  pub distinct : HasDistinct (ids_of (signature_slots ast))

start-Holds : Holds start [] 1
unfolding count
start-Holds = record { ids = refl; signatures = refl; fits = tt; distinct = tt; counted = refl }

-- A template that passes the check for a publication can be signed: it has a required signature
-- slot; every slot lies within the page and on a page that there is; and no two share an identifier.
pub validate-IsSignable :
    (ast : TemplateAst) (sources : List RequirementSource)
    → validate_template_for_publish ast sources ≡ ok tt
    → IsSignable ast
unfolding validate_template_for_publish validate signature_slots page_count
validate-IsSignable ast sources h =
    let (u, e₁, h₁) = >>=-eq-ok (require (accepts_ast ast) invalid) _ h in
    let (ds, e₂, h₂) = >>=-eq-ok (collect_definitions true sources []) _ h₁ in
    let (u₁, e₃, h₃) = >>=-eq-ok (require_authorization true sources) _ h₂ in
    let (u₂, e₄, h₄) = >>=-eq-ok (require (margins_fit ast.styles) invalid) _ h₃ in
    let (inside, e₅, h₅) = >>=-eq-ok (visit_nodes ds body ast.children start) _ h₄ in
    let (headed, e₆, h₆) = >>=-eq-ok (visit_nodes ds page_header ast.header inside) _ h₅ in
    let (st, e₇, h₇) = >>=-eq-ok (visit_nodes ds page_footer ast.footer headed) _ h₆ in
    let (u₃, e₈, h₈) =
      >>=-eq-ok (require (pages_exist_nodes st.page_count ast.children) invalid) _ h₇ in
    let (u₄, e₉, h₉) =
      >>=-eq-ok (require (not true || ltb 0 st.required_signatures) invalid) _ h₈ in
    let found = collect_nodes ast.children [] in
    let pages = breaks_nodes ast.children 1 in
    let inner = visit_nodes-Holds ds body ast.children start inside [] 1 start-Holds e₅ in
    let held = visit_nodes-Holds ds page_header ast.header inside headed found pages inner e₆ in
    let ended =
      visit_nodes-Holds ds page_footer ast.footer headed st (collect_nodes ast.header found)
        (breaks_nodes ast.header pages) held e₇ in
    let bare =
      Bare-then (collect_nodes ast.header) (collect_nodes ast.footer) (breaks_nodes ast.header)
        (breaks_nodes ast.footer) (visit_nodes-Bare ds page_header ast.header inside headed refl e₆)
        (visit_nodes-Bare ds page_footer ast.footer headed st refl e₇) in
    let same_pages : st.page_count ≡ pages = ended.counted ∙ bare.1 pages in
    let listed : All (OnPage st.page_count) found =
      on_pages_nodes st.page_count ast.children [] (ground arith) tt in
    record {
      demanded = ground (arith, ended.signatures);
      placed = ended.fits;
      paged =
          subst (λ l. All (OnPage pages) l) (sym (bare.0 found))
            (subst (λ n. All (OnPage n) found) same_pages listed);
      distinct = subst HasDistinct ended.ids ended.distinct;
    }
