-- ===== src/Links/Access.antt =====
-- apps/api/src/cases/token.service.ts. `digest` is SHA-256 in hexadecimal; tokens are drawn outside.
use authorization_document.Base.{
  Bool, not, ◌&&◌, ◌||◌, Option, none, some, ◌∷◌, leb, ltb, ◌==◌, is_none, is_some, find, count,
  update_where, any, Result, ok, not_found, conflict, internal, link_unavailable,
  link_state_changed, unique_violation, row_missing, require, from_option, ◌>>=◌, ◌>>◌,
}
use authorization_document.Model.Status.{is_terminal}
use authorization_document.Model.Rows.{Key, Hash, Time, Link}
use authorization_document.Model.Db.{Db}

-- `disabledAt: null, consumedAt: null, completedAt: null`
abbrev pub is_unused : Link → Bool
is_unused l = is_none l.disabled_at && is_none l.consumed_at && is_none l.completed_at

-- The same with `expiresAt: { gt: now }`.
abbrev pub is_open : Time → Link → Bool
is_open now l = is_unused l && ltb now l.expires_at

abbrev pub of_case : Key → Link → Bool
of_case id l = l.case_id == id

abbrev pub disable_link : Time → Link → Link
disable_link now l = record l { disabled_at = some now }

-- `publicCaseLink.create`; `id` and `token_hash` are unique in the schema.
unfoldable pub create_link : Key → Key → Hash → Time → Db → Result Db
create_link id case_id hash expires db = do
  require (not (any (λ l. l.id == id || l.hash == hash) db.links)) (internal unique_violation)
  ok (record db {
    links =
        record {
          id = id;
          case_id = case_id;
          hash = hash;
          expires_at = expires;
          disabled_at = none;
          consumed_at = none;
          completed_at = none;
        }
        ∷ db.links;
  })

-- Disables the first open link of the case, if there is one; `LINK_STATE_CHANGED` unless exactly
-- one row is changed.
unfoldable pub disable_active : Time → Link → Db → Result Db
disable_active now active db = do
  require (count (λ l. l.id == active.id && is_unused l) db.links == 1)
      (conflict link_state_changed)
  ok (record db {
    links = update_where (λ l. l.id == active.id && is_unused l) (disable_link now) db.links;
  })

unfoldable pub find_open : Time → Key → Db → Option Link
find_open now case_id db = find (λ l. of_case case_id l && is_open now l) db.links

unfoldable pub disable_if_open : Time → Option Link → Db → Result Db
unfolding disable_active
disable_if_open now none db = ok db
disable_if_open now (some active) db = disable_active now active db

module _ (digest : Key → Hash) where
  -- `resolve` and `resolveForMutation`: the second takes a row lock first.
  unfoldable pub resolve : Time → Key → Db → Result Link
  resolve now token db = do
    link ← from_option (not_found link_unavailable) (find (λ l. l.hash == digest token) db.links)
    c ← from_option (internal row_missing) (db.cases link.case_id)
    require
        (not (
          leb link.expires_at now
          || is_some link.disabled_at
          || is_some link.consumed_at
          || is_some link.completed_at
          || is_terminal c.status))
        (not_found link_unavailable)
    ok link

  -- `create`
  unfoldable pub create : Key → Key → Key → Time → Db → Result Db
  unfolding create_link
  create link_id token case_id expires db = create_link link_id case_id (digest token) expires db

  -- `regenerate`
  unfoldable pub regenerate : Time → Key → Key → Key → Time → Db → Result Db
  unfolding find_open disable_if_open create_link
  regenerate now link_id token case_id expires db = do
    db' ← disable_if_open now (find_open now case_id db) db
    create_link link_id case_id (digest token) expires db'

-- `consumeForMutation`
unfoldable pub consume : Time → Link → Db → Result Db
consume now link db = do
  require (count (λ l. l.id == link.id && is_open now l) db.links == 1) (not_found link_unavailable)
  ok (record db {
    links =
        update_where (λ l. l.id == link.id && is_open now l)
          (λ l. record l { consumed_at = some now }) db.links;
  })

-- `disable`
unfoldable pub disable : Time → Key → Db → Result Db
unfolding find_open disable_active
disable now case_id db = do
  active ← from_option (not_found link_unavailable) (find_open now case_id db)
  disable_active now active db
