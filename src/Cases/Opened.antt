-- ===== src/Cases/Opened.antt =====
-- What `create` of apps/api/src/cases/case.service.ts leaves.
use authorization_document.Review.Confirm.{latest_snapshot, required_ids}
use authorization_document.Links.SingleOpen.{submit_draft-resolve}
use authorization_document.Links.Operations.{submit_draft, disable_all}
use authorization_document.Links.Access.{resolve, create_link}
use authorization_document.Cases.Open.{
  Configuration, RawCase, CaseActor, prepare_case, is_source, settled, then_open, open_case,
  template_for, after, submit_until,
}
use authorization_document.Cases.Laws.{create_case-latest_snapshot}
use authorization_document.Cases.Repository.{CreateCaseInput, create_case}
use authorization_document.Cases.Selection.{
  TemplateRow, Configured, resolve_requirements, resolve_requirements-has_item,
}
use authorization_document.Model.Status.{same_status, draft, awaiting_customer}
use authorization_document.Model.Rows.{Key, Time, Hash, Snapshot, Link}
use authorization_document.Base.{
  ok, err, some, true, false, any, find, find_latest, ◌≡◌, ◌==◌, >>=-eq-ok, ◌>>=◌, require,
  bad_request, quotation_source_invalid, ok_injective, sym, ◌∙◌, subst, ap, from_option,
  status_not_allowed, arith, refl, ◌<◌, ◌+◌, Result, ℕ,
}
use authorization_document.Model.Db.{Db, matching, set_case}

prepare_case-has_item :
    (config : Configuration) (raw : RawCase) (actor : CaseActor) (input : CreateCaseInput)
    (t : TemplateRow) (m : Configured)
    → template_for config raw.template_version ≡ ok t
    → find (λ c. c.key == config.letter) (config.configured t.id) ≡ some m
    → prepare_case config raw actor ≡ ok input
    → any (λ s. s == m.requirement_version) input.requirement_versions ≡ true
unfolding prepare_case
prepare_case-has_item config raw actor input t m r f h =
    let (t', e, h₁) = >>=-eq-ok (template_for config raw.template_version) _ h in
    let (ids, e₁, h₂) =
      >>=-eq-ok (resolve_requirements config.letter raw.references (config.configured t'.id)) _
        h₁ in
    let (u, e₂, h₃) =
      >>=-eq-ok (require (is_source raw.quotation_source) (bad_request quotation_source_invalid)) _
        h₂ in
    let same : t' ≡ t = ok_injective (sym e ∙ r) in
    let resolved : resolve_requirements config.letter raw.references (config.configured t.id)
        ≡ ok ids =
      subst
        (λ (x : TemplateRow).
          resolve_requirements config.letter raw.references (config.configured x.id) ≡ ok ids)
        same e₁ in
    subst
      (λ (x : CreateCaseInput). any (λ s. s == m.requirement_version) x.requirement_versions ≡ true)
      (ok_injective h₃)
      (resolve_requirements-has_item config.letter raw.references (config.configured t.id) m ids f
        resolved)

module _ (digest : Key → Hash) (now : Time) (link_id token actor id : Key) (expires : Time)
    (db db' : Db) where
  submit_draft-latest_snapshot :
      submit_draft digest now link_id token actor id expires db ≡ ok db'
      → latest_snapshot id db' ≡ latest_snapshot id db
  unfolding submit_draft create_link latest_snapshot
  submit_draft-latest_snapshot h =
      let (c, e, h₁) =
        >>=-eq-ok
          (from_option (bad_request status_not_allowed)
            (matching (λ c. same_status c.status draft) (db.cases id)))
          _ h in
      let moved = set_case id (record c { status = awaiting_customer }) db in
      let (linked, made, h₂) =
        >>=-eq-ok (create_link link_id id (digest token) expires (disable_all now id moved)) _ h₁ in
      let kept : (linked.snapshots ≡ db.snapshots) × (db'.snapshots ≡ linked.snapshots) =
        ground arith in
      ap (λ rows. find_latest (λ (s : Snapshot). s.version) (λ s. s.case_id == id) rows)
        (kept.1 ∙ kept.0)

-- A case that is created with an expiry ahead, under an identifier that has no snapshot yet, asks for
-- the authorization letter of its template, where the template has one, whatever was requested; and
-- the token that is given out resolves to a link of the case until it expires.
pub open_case-resolve :
    (digest : Key → Hash) (config : Configuration) (now later : Time) (id link_id token : Key)
    (raw : RawCase) (actor : CaseActor) (db db' : Db) (t : TemplateRow) (m : Configured) (ms : ℕ)
    → raw.link_expires ≡ after ms
    → later < now + ms
    → any (λ s. s.case_id == id) db.snapshots ≡ false
    → template_for config raw.template_version ≡ ok t
    → find (λ c. c.key == config.letter) (config.configured t.id) ≡ some m
    → open_case digest config now id link_id token raw actor db ≡ (ok tt, db')
    → (any (λ s. s == m.requirement_version) (required_ids (latest_snapshot id db')) ≡ true)
      × ((l : Link) × (resolve digest later token db' ≡ ok l) × (l.case_id ≡ id))
unfolding open_case submit_until
open_case-resolve digest config now later id link_id token raw actor db db' t m ms asked lt fresh r
      f h =
    made (prepare_case config raw actor >>= λ input. create_case id input db) refl (
      subst
        (λ x.
          then_open x (submit_until digest now link_id token actor.user id x)
            (prepare_case config raw actor >>= λ input. create_case id input db) db
          ≡ (ok tt, db'))
        asked h)
  where
    submit : Db → Result Db
    submit = submit_draft digest now link_id token actor.user id (now + ms)

    linked :
        (x : Db) (o : Result Db) → submit x ≡ o → settled o x ≡ (ok tt, db') → submit x ≡ ok db'
    linked x (err e) s k = absurd (let q : err e ≡ ok tt = ap (λ y. y.0) k in cc)
    linked x (ok y) s k = s ∙ ap (λ z. ok z.1) k

    made :
        (o : Result Db)
        → (prepare_case config raw actor >>= λ input. create_case id input db) ≡ o
        → then_open (after ms) submit o db ≡ (ok tt, db')
        → (any (λ s. s == m.requirement_version) (required_ids (latest_snapshot id db')) ≡ true)
          × ((l : Link) × (resolve digest later token db' ≡ ok l) × (l.case_id ≡ id))
    made (err e) s k = absurd (let q : err e ≡ ok tt = ap (λ y. y.0) k in cc)
    made (ok x) s k =
        let sent = linked x (submit x) refl k in
        let (input, e, e₁) = >>=-eq-ok (prepare_case config raw actor) _ s in
        let asks = (create_case-latest_snapshot id input db x e₁ fresh).0 in
        (
          rw
              (
                submit_draft-latest_snapshot digest now link_id token actor.user id _ x db' sent,
                asks,
              )
              (prepare_case-has_item config raw actor input t m r f e),
          submit_draft-resolve digest now link_id token actor.user id _ later x db' sent lt,
        )
