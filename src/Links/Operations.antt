-- ===== src/Links/Operations.antt =====
-- The link operations of apps/api/src/cases/case.service.ts: `submitDraft`, `replaceLink` with
-- `regenerateLink` and `renewLink`, `disableLink` and `close`. The clock is read once in each.
use authorization_document.Base.{
  Bool, true, false, not, ◌&&◌, Option, none, some, is_none, update_where, Text, trim, is_blank,
  Result, ok, not_found, bad_request, internal, link_expiry_invalid, active_link_missing,
  reason_required, case_missing, case_terminal, status_not_allowed, row_missing, require,
  from_option, ◌>>=◌, ◌>>◌,
}
use authorization_document.Model.Status.{draft, awaiting_customer, closed, same_status, is_terminal}
use authorization_document.Model.Rows.{
  Key, Hash, Time, user, Action, public_link_created, public_link_regenerated, public_link_renewed,
  public_link_disabled, case_closed,
}
use authorization_document.Model.Db.{Db, set_case, matching, audit_user, record_status}
use authorization_document.Links.Access.{
  of_case, disable_link, create_link, find_open, disable_active, disable_if_open,
}

-- `updateMany({ where: { caseId, disabledAt: null }, data: { disabledAt: new Date() } })`
abbrev pub disable_all : Time → Key → Db → Db
disable_all now case_id db = record db {
  links =
      update_where (λ l. of_case case_id l && is_none l.disabled_at) (disable_link now) db.links;
}

abbrev pub trim_reason : Option Text → Option Text
trim_reason none = none
trim_reason (some s) = some (trim s)

module _ (digest : Key → Hash) where
  unfoldable pub submit_draft : Time → Key → Key → Key → Key → Time → Db → Result Db
  unfolding create_link
  submit_draft now link_id token actor id expires db = do
    c ←
        from_option (bad_request status_not_allowed)
          (matching (λ c. same_status c.status draft) (db.cases id))
    let moved = set_case id (record c { status = awaiting_customer }) db
    linked ← create_link link_id id (digest token) expires (disable_all now id moved)
    ok (
        audit_user actor public_link_created id
          (record_status id (some draft) awaiting_customer (user actor) none linked))

  -- `expires` is missing where the date is not valid.
  unfoldable pub replace_link :
      Time → Key → Key → Key → Key → Option Time → Action → Bool → Db → Result Db
  unfolding find_open disable_if_open create_link
  replace_link now link_id token actor id expires action require_existing db = do
    expires_at ← from_option (bad_request link_expiry_invalid) expires
    from_option (internal row_missing) (db.cases id)
    let active = find_open now id db
    require (not (require_existing && is_none active)) (not_found active_link_missing)
    disabled ← disable_if_open now active db
    linked ← create_link link_id id (digest token) expires_at disabled
    ok (audit_user actor action id linked)

  unfoldable pub regenerate_link : Time → Key → Key → Key → Key → Option Time → Db → Result Db
  unfolding replace_link
  regenerate_link now link_id token actor id expires =
      replace_link now link_id token actor id expires public_link_regenerated false

  unfoldable pub renew_link : Time → Key → Key → Key → Key → Option Time → Db → Result Db
  unfolding replace_link
  renew_link now link_id token actor id expires =
      replace_link now link_id token actor id expires public_link_renewed true

-- `disableLink`
unfoldable pub disable_case_link : Time → Key → Key → Option Text → Db → Result Db
unfolding find_open disable_active is_blank
disable_case_link now actor id reason db = do
  require (not (is_blank reason)) (bad_request reason_required)
  from_option (internal row_missing) (db.cases id)
  active ← from_option (not_found active_link_missing) (find_open now id db)
  disabled ← disable_active now active db
  ok (audit_user actor public_link_disabled id disabled)

unfoldable pub close : Time → Key → Key → Option Text → Db → Result Db
unfolding is_blank
close now actor id reason db = do
  require (not (is_blank reason)) (bad_request reason_required)
  c ← from_option (not_found case_missing) (db.cases id)
  require (not (is_terminal c.status)) (bad_request case_terminal)
  let shut = disable_all now id db
  ok (
      audit_user actor case_closed id (
        record_status id (some c.status) closed (user actor) (trim_reason reason)
          (set_case id (record c { status = closed; closed_at = some now }) shut)))
