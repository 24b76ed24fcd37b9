-- ===== src/Links/SingleOpen.antt =====
-- The link operations of the case service leave one usable token at most.
use authorization_document.Base.{
  refl, ◌∙◌, sym, ap, ℕ, count, Option, ◌≡◌, Text, ◌&&◌, ok, Bool, ◌<◌, Option-cases, ◌≢◌,
  count-update_where_zero, find, is_none, inl, arith, find-none-count, inr, find_sound,
  count-update_where_lt, ◌==◌, >>=-eq-ok, some, from_option, require, not, is_blank, ◌≤◌,
}
use authorization_document.Model.Status.{closed, awaiting_customer, same_status, draft, is_terminal}
use authorization_document.Model.Rows.{Key, Time, Hash, Action, Link}
use authorization_document.Model.Db.{Db, set_case, matching}
use authorization_document.Links.Access.{
  is_unused, resolve, disable_if_open, find_open, of_case, is_open, disable_link, is_unused,
  create_link,
}
use authorization_document.Links.Operations.{close, submit_draft, replace_link, disable_all}
use authorization_document.Links.Resolution.{resolve-IsAdmitted, resolve_congr}
use authorization_document.Links.Rotation.{
  AtMostOneOpen, create_link-IsSoleToken, create_link-resolve,
}

abbrev count_open : Time → Key → Db → ℕ
count_open now id db = count (λ l. of_case id l && is_open now l) db.links

-- Disabling the rows of the case leaves none open.
pub disable_all-none_open :
    (now : Time) (id : Key) (db : Db)
    → count (λ l. of_case id l && is_open now l) (disable_all now id db).links ≡ 0
disable_all-none_open now id db =
    count-update_where_zero (λ l. of_case id l && is_none l.disabled_at) (disable_link now)
      (λ l. of_case id l && is_open now l) (λ l h. ground arith) (λ l. ground arith) db.links

-- Disabling the open link, where there is at most one, leaves none open.
pub disable_if_open-none_open :
    (now : Time) (id : Key) (db db' : Db)
    → AtMostOneOpen now id db
    → disable_if_open now (find_open now id db) db ≡ ok db'
    → (count (λ l. of_case id l && is_open now l) db'.links ≡ 0) × (db'.cases ≡ db.cases)
unfolding disable_if_open find_open
disable_if_open-none_open now id db db' one h =
    elim (Option-cases (find (λ l. of_case id l && is_open now l) db.links)) [
      | inl e ↦
          let same : ok db ≡ ok db' = rw e at h in
          let zero_open = find-none-count (λ l. of_case id l && is_open now l) db.links e in
          ground (arith, zero_open)
      | inr (a, e) ↦
          let open_a = find_sound (λ l. of_case id l && is_open now l) db.links e in
          let fewer =
            count-update_where_lt (λ l. l.id == a.id && is_unused l) (disable_link now)
              (λ l. of_case id l && is_open now l) (λ l. ground arith) db.links e
              (ground (arith, open_a)) in
          let step = rw e at h in ground (arith, fewer)
    ]

module _ (digest : Key → Hash) (now : Time) (link_id token actor id : Key) where
  -- After `submitDraft` the returned token resolves, to a link of the case, until it expires.
  pub submit_draft-resolve :
      (expires later : Time) (db db' : Db)
      → submit_draft digest now link_id token actor id expires db ≡ ok db'
      → later < expires
      → (l : Link) × (resolve digest later token db' ≡ ok l) × (l.case_id ≡ id)
  unfolding submit_draft
  submit_draft-resolve expires later db db' h lt =
      let (c, e, h₁) =
        >>=-eq-ok (from_option _ (matching (λ c. same_status c.status draft) (db.cases id))) _ h in
      let moved = set_case id (record c { status = awaiting_customer }) db in
      let (linked, made, h₂) =
        >>=-eq-ok (create_link link_id id (digest token) expires (disable_all now id moved)) _ h₁ in
      let same : (db'.links ≡ linked.links) × (db'.cases ≡ linked.cases) = ground arith in
      let (l, r, k) =
        create_link-resolve digest now expires link_id token id (disable_all now id moved) linked
          (record c { status = awaiting_customer }) (ground arith) refl made later lt in
      (l, resolve_congr digest later token linked db' same.0 same.1 ∙ r, k)

  -- After `submitDraft` no token of the case but the returned one resolves, from then on.
  pub submit_draft-sole_token :
      (expires : Time) (db db' : Db)
      → submit_draft digest now link_id token actor id expires db ≡ ok db'
      → (later : Time) (t : Key) (l : Link) → now ≤ later
      → resolve digest later t db' ≡ ok l
      → l.case_id ≡ id
      → l.hash ≡ digest token
  unfolding submit_draft
  submit_draft-sole_token expires db db' h later t l le r =
      let (c, e, h₁) =
        >>=-eq-ok (from_option _ (matching (λ c. same_status c.status draft) (db.cases id))) _ h in
      let moved = set_case id (record c { status = awaiting_customer }) db in
      let (linked, made, h₂) =
        >>=-eq-ok (create_link link_id id (digest token) expires (disable_all now id moved)) _ h₁ in
      let same : (db'.links ≡ linked.links) × (db'.cases ≡ linked.cases) = ground arith in
      create_link-IsSoleToken digest now expires link_id token id (disable_all now id moved) linked
        (disable_all-none_open now id moved) made later t l le
        (sym (resolve_congr digest later t linked db' same.0 same.1) ∙ r)

  -- After `replaceLink` (`regenerateLink` or `renewLink`), from a state where at most one link of
  -- the case is open, no token of the case but the returned one resolves, from then on.
  pub replace_link-sole_token :
      (expires : Option Time) (action : Action) (require_existing : Bool) (db db' : Db)
      → AtMostOneOpen now id db
      → replace_link digest now link_id token actor id expires action require_existing db ≡ ok db'
      → (later : Time) (t : Key) (l : Link) → now ≤ later
      → resolve digest later t db' ≡ ok l
      → l.case_id ≡ id
      → l.hash ≡ digest token
  unfolding replace_link
  replace_link-sole_token expires action require_existing db db' one h later t l le r =
      let (expires_at, e, h₁) = >>=-eq-ok (from_option _ expires) _ h in
      let (c, present, h₂) = >>=-eq-ok (from_option _ (db.cases id)) _ h₁ in
      let active = find_open now id db in
      let (u, existing, h₃) =
        >>=-eq-ok (require (not (require_existing && is_none active)) _) _ h₂ in
      let (disabled, done, h₄) = >>=-eq-ok (disable_if_open now active db) _ h₃ in
      let (linked, made, h₅) =
        >>=-eq-ok (create_link link_id id (digest token) expires_at disabled) _ h₄ in
      let same : (db'.links ≡ linked.links) × (db'.cases ≡ linked.cases) = ground arith in
      let clear = disable_if_open-none_open now id db disabled one done in
      create_link-IsSoleToken digest now expires_at link_id token id disabled linked clear.0 made
        later t l le (sym (resolve_congr digest later t linked db' same.0 same.1) ∙ r)

-- After `close` no token of the case resolves, at any time.
pub close-resolve :
    (digest : Key → Hash) (now : Time) (actor id : Key) (reason : Option Text) (db db' : Db)
    → close now actor id reason db ≡ ok db'
    → (later : Time) (t : Key) (l : Link) → resolve digest later t db' ≡ ok l
    → l.case_id ≢ id
unfolding close
close-resolve digest now actor id reason db db' h later t l r same =
    let (u, filled, h₁) = >>=-eq-ok (require (not (is_blank reason)) _) _ h in
    let (c, e, h₂) = >>=-eq-ok (from_option _ (db.cases id)) _ h₁ in
    let (v, running, h₃) = >>=-eq-ok (require (not (is_terminal c.status)) _) _ h₂ in
    let shut : db'.cases id ≡ some (record c { status = closed; closed_at = some now }) =
      ground arith in
    let a = resolve-IsAdmitted digest later t db' l r in
    let there : db'.cases l.case_id ≡ db'.cases id = ap db'.cases same in
    ground (arith, a.of_link, a.not_terminal)
