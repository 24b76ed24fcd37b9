-- ===== src/Templates/Visited.antt =====
-- What a visit of the tree knows of the signature slots.
use authorization_document.Templates.Definition.{Definition, is_image, is_upload}
use authorization_document.Templates.Slots.{
  is_required, collect, breaks, collect_nodes, breaks_nodes, collect_cells, breaks_cells,
  collect_rows, breaks_rows,
}
use authorization_document.Templates.Validator.{
  page_width, Visit, visit_slot, page_height, slot_fits, invalid, visit, visit_variable,
  visit_image, Region, definition_of, builtin_variables, is_body, material_variables, visit_nodes,
  visit_cells, visit_rows,
}
use authorization_document.Base.{
  ok, false, [], ◌∷◌, List, ◌+◌, Text, ◌≤◌, map, is_among, ◌≡◌, ℕ, count, >>=-eq-ok, require, not,
  subst, ok_injective, ap, arith, All, starts_with, from_option, codes, ◌||◌, is_some, Option-cases,
  inl, inr, any, ◌>>◌, suc,
}
use authorization_document.Templates.Tree.{
  Slot, Node, heading, paragraph, text, image, table, loop_table, Column, variable, signature_slot,
  Nodes, node, Cells, cell, Rows, row, page_break, end, end_row, end_table,
}

abbrev pub ids_of : List Slot → List Text
ids_of = map (λ s. s.slot_id)

-- No identifier is twice in a list.
abbrev pub HasDistinct : List Text → Type 0
HasDistinct [] = Unit
HasDistinct (s ∷ ss) = (is_among ss s ≡ false) × HasDistinct ss

abbrev pub FitsPage : Slot → Type 0
FitsPage s = (s.x + s.width ≤ page_width) × (s.y + s.height ≤ page_height)

-- The visit's state agrees with the slots and the page breaks found so far.
pub record Holds (st : Visit) (found : List Slot) (pages : ℕ) : Type 0 where
  pub ids : st.slot_ids ≡ ids_of found
  pub signatures : st.required_signatures ≡ count is_required found
  pub fits : All FitsPage found
  pub distinct : HasDistinct st.slot_ids
  pub counted : st.page_count ≡ pages

visit_slot-Holds :
    (s : Slot) (st st' : Visit) (found : List Slot) (pages : ℕ)
    → Holds st found pages
    → visit_slot s st ≡ ok st'
    → Holds st' (s ∷ found) pages
unfolding visit_slot slot_fits count
visit_slot-Holds s st st' found pages h e =
    let (u, e₁, h₁) = >>=-eq-ok (require (not (is_among st.slot_ids s.slot_id)) invalid) _ e in
    let (u₁, e₂, h₂) = >>=-eq-ok (require (slot_fits s) invalid) _ h₁ in
    subst (λ t. Holds t (s ∷ found) pages) (ok_injective h₂)
      (record {
        ids = ap (λ l. s.slot_id ∷ l) h.ids;
        signatures = ground (arith, h.signatures);
        fits = ((ground arith, ground arith), h.fits);
        distinct = (ground arith, h.distinct);
        counted = h.counted;
      })

module _ (ds : List Definition) where
  visit_variable-Holds :
      (key : Text) (st st' : Visit) (found : List Slot) (pages : ℕ)
      → Holds st found pages
      → visit_variable ds key st ≡ ok st'
      → Holds st' found pages
  unfolding visit_variable
  visit_variable-Holds key st st' found pages h e =
      let (u, e₁, h₁) =
        >>=-eq-ok (require (not (starts_with (codes "material.") key)) invalid) _ e in
      let (u₁, e₂, h₂) =
        >>=-eq-ok
          (require (is_among builtin_variables key || is_some (definition_of ds key)) invalid) _
          h₁ in
      elim (Option-cases (definition_of ds key)) [
        | inl none_eq ↦ subst (λ t. Holds t found pages) (ok_injective (rw none_eq at h₂)) h
        | inr (d, some_eq) ↦
            let h₃ : (require (not (is_upload d.type)) invalid
                  >> ok (record st { referenced = key ∷ st.referenced }))
                ≡ ok st' =
              rw some_eq at h₂ in
            let (u₂, e₃, h₄) = >>=-eq-ok (require (not (is_upload d.type)) invalid) _ h₃ in
            subst (λ t. Holds t found pages) (ok_injective h₄)
              (record {
                ids = h.ids;
                signatures = h.signatures;
                fits = h.fits;
                distinct = h.distinct;
                counted = h.counted;
              })
      ]

  visit_image-Holds :
      (source : Text) (st st' : Visit) (found : List Slot) (pages : ℕ)
      → Holds st found pages
      → visit_image ds source st ≡ ok st'
      → Holds st' found pages
  unfolding visit_image
  visit_image-Holds source st st' found pages h e =
      let (d, e₁, h₁) = >>=-eq-ok (from_option invalid (definition_of ds source)) _ e in
      let (u, e₂, h₂) = >>=-eq-ok (require (is_image d.type) invalid) _ h₁ in
      subst (λ t. Holds t found pages) (ok_injective h₂)
        (record {
          ids = h.ids;
          signatures = h.signatures;
          fits = h.fits;
          distinct = h.distinct;
          counted = h.counted;
        })

mutual
  unfolding visit collect breaks

  pub visit-Holds :
      (ds : List Definition) (r : Region) (n : Node) (st st' : Visit) (found : List Slot)
      (pages : ℕ)
      → Holds st found pages
      → visit ds r n st ≡ ok st'
      → Holds st' (collect n found) (breaks n pages)
  visit-Holds ds r (heading level children s) st st' found pages h e =
      visit_nodes-Holds ds r children st st' found pages h e
  visit-Holds ds r (paragraph children s) st st' found pages h e =
      visit_nodes-Holds ds r children st st' found pages h e
  visit-Holds ds r (text t s) st st' found pages h e =
      subst (λ t. Holds t found pages) (ok_injective e) h
  visit-Holds ds r (image source alt s) st st' found pages h e =
      visit_image-Holds ds source st st' found pages h e
  visit-Holds ds r (table rows s) st st' found pages h e =
      visit_rows-Holds ds r rows st st' found pages h e
  visit-Holds ds r (loop_table columns s) st st' found pages h e =
      let (u, e₁, h₁) = >>=-eq-ok (require (is_body r) invalid) _ e in
      let (u₁, e₂, h₂) =
        >>=-eq-ok
          (require
            (not (any (λ (c : Column). not (is_among material_variables c.variable)) columns))
            invalid)
          _ h₁ in
      subst (λ t. Holds t found pages) (ok_injective h₂) h
  visit-Holds ds r (variable key s) st st' found pages h e =
      visit_variable-Holds ds key st st' found pages h e
  visit-Holds ds r (signature_slot slot s) st st' found pages h e =
      let (u, e₁, h₁) = >>=-eq-ok (require (is_body r) invalid) _ e in
      visit_slot-Holds slot st st' found pages h h₁
  visit-Holds ds r page_break st st' found pages h e =
      let (u, e₁, h₁) = >>=-eq-ok (require (is_body r) invalid) _ e in
      subst (λ t. Holds t found (suc pages)) (ok_injective h₁)
        (record {
          ids = h.ids;
          signatures = h.signatures;
          fits = h.fits;
          distinct = h.distinct;
          counted = ap (λ n. suc n) h.counted;
        })

  pub visit_nodes-Holds :
      (ds : List Definition) (r : Region) (ns : Nodes) (st st' : Visit) (found : List Slot)
      (pages : ℕ)
      → Holds st found pages
      → visit_nodes ds r ns st ≡ ok st'
      → Holds st' (collect_nodes ns found) (breaks_nodes ns pages)
  visit_nodes-Holds ds r end st st' found pages h e =
      subst (λ t. Holds t found pages) (ok_injective e) h
  visit_nodes-Holds ds r (node n ns) st st' found pages h e =
      let (t, e₁, h₁) = >>=-eq-ok (visit ds r n st) _ e in
      visit_nodes-Holds ds r ns t st' (collect n found) (breaks n pages)
        (visit-Holds ds r n st t found pages h e₁) h₁

  pub visit_cells-Holds :
      (ds : List Definition) (r : Region) (cs : Cells) (st st' : Visit) (found : List Slot)
      (pages : ℕ)
      → Holds st found pages
      → visit_cells ds r cs st ≡ ok st'
      → Holds st' (collect_cells cs found) (breaks_cells cs pages)
  visit_cells-Holds ds r end_row st st' found pages h e =
      subst (λ t. Holds t found pages) (ok_injective e) h
  visit_cells-Holds ds r (cell children s cs) st st' found pages h e =
      let (t, e₁, h₁) = >>=-eq-ok (visit_nodes ds r children st) _ e in
      visit_cells-Holds ds r cs t st' (collect_nodes children found) (breaks_nodes children pages)
        (visit_nodes-Holds ds r children st t found pages h e₁) h₁

  pub visit_rows-Holds :
      (ds : List Definition) (r : Region) (rs : Rows) (st st' : Visit) (found : List Slot)
      (pages : ℕ)
      → Holds st found pages
      → visit_rows ds r rs st ≡ ok st'
      → Holds st' (collect_rows rs found) (breaks_rows rs pages)
  visit_rows-Holds ds r end_table st st' found pages h e =
      subst (λ t. Holds t found pages) (ok_injective e) h
  visit_rows-Holds ds r (row cs rs) st st' found pages h e =
      let (t, e₁, h₁) = >>=-eq-ok (visit_cells ds r cs st) _ e in
      visit_rows-Holds ds r rs t st' (collect_cells cs found) (breaks_cells cs pages)
        (visit_cells-Holds ds r cs st t found pages h e₁) h₁
