-- ===== src/Review/Messages.antt =====
-- `generateRejectionMessage` of apps/api/src/review/review.service.ts, with its two callers. The
-- text of the message is not modelled: its parts are, the rejected items and the link's token.
use authorization_document.Links.Access.{create_link, find_open, disable_if_open, resolve}
use authorization_document.Links.Resolution.{resolve_congr}
use authorization_document.Links.SingleOpen.{disable_if_open-none_open}
use authorization_document.Links.Rotation.{
  create_link-IsSoleToken, AtMostOneOpen, create_link-eq-ok,
}
use authorization_document.Review.Confirm.{seven_days}
use authorization_document.Model.Db.{Db, audit_user}
use authorization_document.Model.Rows.{
  Key, Hash, Review, Action, Time, rejection_link_regenerated, rejection_message_generated, Link,
  Case,
}
use authorization_document.Model.Status.{needs_supplement, is_reject, same_status}
use authorization_document.Base.{
  ◌>>=◌, ◌>>◌, none, some, true, false, ok, err, arith, ◌∙◌, sym, filter, List, Bool, ◌==◌, Result,
  is_blank, ◌≡◌, ◌&&◌, Option, ◌<◌, ◌+◌, Text, conflict, ◌≤◌, from_option, require,
  link_already_active, not_found, not, >>=-eq-ok, case_missing, bad_request, ltb,
  confirmation_required, length, no_supplement_pending, is_some, find,
}

pub record Message : Type 0 where
  pub rejected : List Review
  pub token : Key
  pub deadline : Time

abbrev pub rejected_reviews : Key → Db → List Review
rejected_reviews case_id db = filter (λ r. r.case_id == case_id && is_reject r.decision) db.reviews

abbrev message_action : Bool → Action
message_action true = rejection_link_regenerated
message_action false = rejection_message_generated

module _ (digest : Key → Hash) (now : Time) (link_id token case_id actor : Key) where
  unfoldable pub generate_message : Bool → Db → Result (Message × Db)
  generate_message rotate db = do
    let expires = now + seven_days
    item ← from_option (not_found case_missing) (db.cases case_id)
    let rejected = rejected_reviews case_id db
    require (same_status item.status needs_supplement && ltb 0 (length rejected))
        (bad_request no_supplement_pending)
    let active = find_open now case_id db
    require (not (is_some active && not rotate)) (conflict link_already_active)
    disabled ← disable_if_open now active db
    linked ← create_link link_id case_id (digest token) expires disabled
    let message : Message = record { rejected = rejected; token = token; deadline = expires }
    ok (message, audit_user actor (message_action rotate) case_id linked)

  unfoldable pub copy_message : Db → Result (Message × Db)
  copy_message = generate_message false

  unfoldable pub regenerate_message : Bool → Option Text → Db → Result (Message × Db)
  unfolding is_blank
  regenerate_message confirmed reason db = do
    require (confirmed && not (is_blank reason)) (bad_request confirmation_required)
    generate_message true db

  -- After a rejection message has been generated, from a state with at most one open link of the
  -- case, no token of the case but the one in the message resolves, from then on.
  pub generate_message-sole_token :
      (rotate : Bool) (db db' : Db) (m : Message)
      → AtMostOneOpen now case_id db
      → generate_message rotate db ≡ ok (m, db')
      → (later : Time) (t : Key) (l : Link) → now ≤ later
      → resolve digest later t db' ≡ ok l
      → l.case_id ≡ case_id
      → l.hash ≡ digest m.token
  unfolding generate_message
  generate_message-sole_token rotate db db' m one h later t l le r =
      let active = find_open now case_id db in
      let (item, e, h₁) = >>=-eq-ok (from_option _ (db.cases case_id)) _ h in
      let rejected = rejected_reviews case_id db in
      let (u, waiting, h₂) =
        >>=-eq-ok (require (same_status item.status needs_supplement && ltb 0 (length rejected)) _)
          _ h₁ in
      let (v, fresh, h₃) = >>=-eq-ok (require (not (is_some active && not rotate)) _) _ h₂ in
      let (disabled, done, h₄) = >>=-eq-ok (disable_if_open now active db) _ h₃ in
      let (linked, made, h₅) =
        >>=-eq-ok (create_link link_id case_id (digest token) (now + seven_days) disabled) _ h₄ in
      let same : (db'.links ≡ linked.links) × (db'.cases ≡ linked.cases) × (token ≡ m.token) =
        ground arith in
      let clear = disable_if_open-none_open now case_id db disabled one done in
      rw (← same.2) (
        create_link-IsSoleToken digest now (now + seven_days) link_id token case_id disabled linked
          clear.0 made later t l le
          (sym (resolve_congr digest later t linked db' same.0 same.1) ∙ r))

frame :
    (now : Time) (active : Option Link) (db db' : Db)
    → disable_if_open now active db ≡ ok db'
    → (db'.cases ≡ db.cases) × (db'.reviews ≡ db.reviews)
unfolding disable_if_open
frame now none db db' h = ground arith
frame now (some a) db db' h = ground arith

copy_refused :
    (digest : Key → Hash) (now : Time) (link_id token case_id actor : Key) (db : Db) (c : Case)
    (l : Link)
    → db.cases case_id ≡ some c
    → (same_status c.status needs_supplement && ltb 0 (length (rejected_reviews case_id db))) ≡ true
    → find_open now case_id db ≡ some l
    → copy_message digest now link_id token case_id actor db ≡ err (conflict link_already_active)
unfolding generate_message copy_message
copy_refused digest now link_id token case_id actor db c l e w f = rw (e, w, f)

generate_parts :
    (digest : Key → Hash) (now : Time) (link_id token case_id actor : Key) (rotate : Bool)
    (db db' : Db) (m : Message)
    → generate_message digest now link_id token case_id actor rotate db ≡ ok (m, db')
    → (item : Case) × (disabled : Db) × (linked : Db) × (db.cases case_id ≡ some item)
      × ((same_status item.status needs_supplement && ltb 0 (length (rejected_reviews case_id db)))
          ≡ true)
      × (disable_if_open now (find_open now case_id db) db ≡ ok disabled)
      × (create_link link_id case_id (digest token) (now + seven_days) disabled ≡ ok linked)
      × (db'.links ≡ linked.links)
      × (db'.cases ≡ linked.cases)
      × (db'.reviews ≡ linked.reviews)
      × (m.deadline ≡ now + seven_days)
unfolding generate_message
generate_parts digest now link_id token case_id actor rotate db db' m h =
    let active = find_open now case_id db in
    let (item, e, h₁) = >>=-eq-ok (from_option _ (db.cases case_id)) _ h in
    let rejected = rejected_reviews case_id db in
    let (u, waiting, h₂) =
      >>=-eq-ok (require (same_status item.status needs_supplement && ltb 0 (length rejected)) _) _
        h₁ in
    let (v, fresh, h₃) = >>=-eq-ok (require (not (is_some active && not rotate)) _) _ h₂ in
    let (disabled, done, h₄) = >>=-eq-ok (disable_if_open now active db) _ h₃ in
    let (linked, made, h₅) =
      >>=-eq-ok (create_link link_id case_id (digest token) (now + seven_days) disabled) _ h₄ in
    (
      item,
      disabled,
      linked,
      ground arith,
      ground arith,
      done,
      made,
      ground arith,
      ground arith,
      ground arith,
      ground arith,
    )

-- The frame of `create_link`.
reviews-create_link :
    (id case_id : Key) (hash : Hash) (expires : Time) (db db' : Db)
    → create_link id case_id hash expires db ≡ ok db'
    → db'.reviews ≡ db.reviews
unfolding create_link
reviews-create_link id case_id hash expires db db' h = ground arith

found_first :
    (now later expires : Time) (link_id case_id : Key) (hash : Hash) (db disabled linked db' : Db)
    → create_link link_id case_id hash expires disabled ≡ ok linked
    → db'.links ≡ linked.links
    → later < expires
    → (l : Link) × (find_open later case_id db' ≡ some l)
unfolding find_open find
found_first now later expires link_id case_id hash db disabled linked db' made same lt =
    let (links, _) = create_link-eq-ok link_id case_id hash expires disabled linked made in
    (
      record {
        id = link_id;
        case_id = case_id;
        hash = hash;
        expires_at = expires;
        disabled_at = none;
        consumed_at = none;
        completed_at = none;
      },
      rw (same, links) (ground arith),
    )

-- A message is given out once: after one has been generated, `copyRejectionMessage` is refused
-- with `LINK_ALREADY_ACTIVE` at every time before the deadline in the message.
pub generate_message-copy_message :
    (digest : Key → Hash) (now later : Time)
    (link_id link_id' token token' case_id actor actor' : Key) (rotate : Bool) (db db' : Db)
    (m : Message)
    → generate_message digest now link_id token case_id actor rotate db ≡ ok (m, db')
    → later < m.deadline
    → copy_message digest later link_id' token' case_id actor' db'
      ≡ err (conflict link_already_active)
generate_message-copy_message digest now later link_id link_id' token token' case_id actor actor'
      rotate db db' m h lt =
    let (item, disabled, linked, e, waiting, done, made, links, cases, reviews, deadline) =
      generate_parts digest now link_id token case_id actor rotate db db' m h in
    let (cases₁, reviews₁) = frame now (find_open now case_id db) db disabled done in
    let (_, cases₂) =
      create_link-eq-ok link_id case_id (digest token) (now + seven_days) disabled linked made in
    let reviews₂ =
      reviews-create_link link_id case_id (digest token) (now + seven_days) disabled linked made in
    let (l, found) =
      found_first now later (now + seven_days) link_id case_id (digest token) db disabled linked db'
        made links (omega (arith, deadline)) in
    copy_refused digest later link_id' token' case_id actor' db' item l
      (rw (cases, cases₂, cases₁) e) (rw (reviews, reviews₂, reviews₁) waiting) found
