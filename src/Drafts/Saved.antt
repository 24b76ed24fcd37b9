-- ===== src/Drafts/Saved.antt =====
-- What a saved draft has established, and what it leaves.
use authorization_document.Drafts.Save.{
  save_public_draft, DraftBody, number_of, assert_supplement_only, digest_before, content_of,
  save_writes,
}
use authorization_document.Drafts.Content.{latest_draft, RenderInput, content_digest}
use authorization_document.Links.Access.{resolve}
use authorization_document.Model.Db.{Db}
use authorization_document.Model.Rows.{Key, Hash, Time, Link, Case, Draft}
use authorization_document.Model.Status.{
  awaiting_customer, customer_editing, needs_supplement, customer_actor, is_editable, same_status,
}
use authorization_document.Base.{
  ℕ, some, true, false, refl, ◌∷◌, inl, inr, ok, err, Bool, ◌≡◌, >>=-eq-ok, Option, from_option,
  require, ◌||◌, ◌==◌, if◌then◌else◌, ◌+◌, arith, not, same_id, find_latest, List, ◌<◌,
  Option-cases, Bool-cases, conflict, ==_refl, draft_version_conflict, subst, ◌∙◌, sym, ap,
}

module _ (digest : Key → Hash) (digest_of : RenderInput → Hash) (now : Time) (token : Key)
    (body : DraftBody) (force : Bool) (db db' : Db) (version : ℕ) where
  -- The facts behind a save that succeeds.
  pub record IsSaved : Type 0 where
    pub link : Link
    pub item : Case
    pub prior : Option Hash
    pub hash : Hash
    pub resolved : resolve digest now token db ≡ ok link
    pub of_link : db.cases link.case_id ≡ some item
    pub editable : is_editable item.status ≡ true
    pub fresh : (force || number_of (latest_draft link.case_id db) == body.base_version) ≡ true
    pub supplement :
        same_status item.status needs_supplement ≡ true
        → assert_supplement_only link.case_id body.answers (latest_draft link.case_id db) db ≡ ok tt
    pub hashed :
        content_digest digest_of link.case_id
          (number_of (latest_draft link.case_id db) + 1)
          (content_of body)
          db
        ≡ ok hash
    pub hashed_before :
        digest_before digest_of link.case_id (latest_draft link.case_id db) db ≡ ok prior
    pub numbered : version ≡ number_of (latest_draft link.case_id db) + 1
    pub written :
        db'
        ≡ save_writes now link.case_id item force
            (not (same_id prior (some hash)))
            body
            (number_of (latest_draft link.case_id db))
            db

  pub save_public_draft-IsSaved :
      save_public_draft digest digest_of now token body force db ≡ ok (version, db') → IsSaved
  unfolding save_public_draft
  save_public_draft-IsSaved h =
      let (l, e, h₁) = >>=-eq-ok (resolve digest now token db) _ h in
      let latest = latest_draft l.case_id db in
      let (c, e₁, h₂) = >>=-eq-ok (from_option _ (db.cases l.case_id)) _ h₁ in
      let (u₁, e₂, h₃) = >>=-eq-ok (require (is_editable c.status) _) _ h₂ in
      let (u₂, e₃, h₄) =
        >>=-eq-ok (require (force || number_of latest == body.base_version) _) _ h₃ in
      let (u₃, e₄, h₅) =
        >>=-eq-ok
          (if same_status c.status needs_supplement
            then (assert_supplement_only l.case_id body.answers latest db)
            else (ok tt))
          _ h₄ in
      let (p, e₅, h₆) = >>=-eq-ok (digest_before digest_of l.case_id latest db) _ h₅ in
      let (hash, e₆, h₇) =
        >>=-eq-ok (content_digest digest_of l.case_id (number_of latest + 1) (content_of body) db) _
          h₆ in
      record {
        link = l;
        item = c;
        prior = p;
        hash = hash;
        resolved = e;
        of_link = ground arith;
        editable = ground arith;
        fresh = ground arith;
        supplement = λ s. rw s at e₄;
        hashed = e₆;
        hashed_before = e₅;
        numbered = ground arith;
        written = ground arith;
      }

latest-cons :
    (number : Draft → ℕ) (p : Draft → Bool) (d : Draft) (ds : List Draft)
    → p d ≡ true
    → ((e : Draft) → find_latest number p ds ≡ some e → number e < number d)
    → find_latest number p (d ∷ ds) ≡ some d
unfolding find_latest
latest-cons number p d ds t above = elim (Option-cases (find_latest number p ds)) [
  | inl e ↦ rw (t, e) refl
  | inr (x, e) ↦ rw (t, e) (ground (arith, above x e))
]

-- What a save does to the rows that a later save reads.
drafts-save_writes :
    (now : Time) (id : Key) (item : Case) (force changed : Bool) (body : DraftBody) (current : ℕ)
    (db : Db)
    → (save_writes now id item force changed body current db).drafts
      ≡ record {
        case_id = id;
        version = current + 1;
        base_version = if force then current else body.base_version;
        content = content_of body;
        actor_type = customer_actor;
      }
        ∷ db.drafts
unfolding save_writes
drafts-save_writes now id item force true body current db =
    elim (Bool-cases (same_status item.status awaiting_customer)) [
      | inl e ↦ rw e refl
      | inr e ↦ rw e refl
    ]
drafts-save_writes now id item force false body current db =
    elim (Bool-cases (same_status item.status awaiting_customer)) [
      | inl e ↦ rw e refl
      | inr e ↦ rw e refl
    ]

case-save_writes :
    (now : Time) (id : Key) (item : Case) (force changed : Bool) (body : DraftBody) (current : ℕ)
    (db : Db)
    → db.cases id ≡ some item
    → is_editable item.status ≡ true
    → (c : Case) × ((save_writes now id item force changed body current db).cases id ≡ some c)
      × (is_editable c.status ≡ true)
unfolding save_writes
case-save_writes now id item force true body current db h t =
    elim (Bool-cases (same_status item.status awaiting_customer)) [
      | inl e ↦ (record item { status = customer_editing }, rw (e, ==_refl id) refl, refl)
      | inr e ↦ (item, rw e h, t)
    ]
case-save_writes now id item force false body current db h t =
    elim (Bool-cases (same_status item.status awaiting_customer)) [
      | inl e ↦ (record item { status = customer_editing }, rw (e, ==_refl id) refl, refl)
      | inr e ↦ (item, rw e h, t)
    ]

version_below :
    (id : Key) (db : Db) (e : Draft)
    → find_latest (λ d. d.version) (λ d. d.case_id == id) db.drafts ≡ some e
    → e.version < number_of (latest_draft id db) + 1
unfolding latest_draft
version_below id db e h = rw h (omega arith)

saved_draft :
    (now : Time) (id : Key) (item : Case) (force changed : Bool) (body : DraftBody) (db : Db)
    → (d : Draft) × (latest_draft id
          (save_writes now id item force changed body (number_of (latest_draft id db)) db)
        ≡ some d)
      × (d.version ≡ number_of (latest_draft id db) + 1)
      × (d.content ≡ content_of body)
unfolding latest_draft
saved_draft now id item force changed body db =
    let d : Draft = record {
      case_id = id;
      version = number_of (latest_draft id db) + 1;
      base_version = if force then number_of (latest_draft id db) else body.base_version;
      content = content_of body;
      actor_type = customer_actor;
    } in
    (
      d,
      rw (drafts-save_writes now id item force changed body (number_of (latest_draft id db)) db) (
          latest-cons (λ d. d.version) (λ d. d.case_id == id) d db.drafts (==_refl id)
            (version_below id db)),
      refl,
      refl,
    )

save_refused :
    (digest : Key → Hash) (digest_of : RenderInput → Hash) (now : Time) (token : Key)
    (body : DraftBody) (db : Db) (l : Link) (c : Case) (d : Draft)
    → resolve digest now token db ≡ ok l
    → db.cases l.case_id ≡ some c
    → is_editable c.status ≡ true
    → latest_draft l.case_id db ≡ some d
    → body.base_version < d.version
    → save_public_draft digest digest_of now token body false db
      ≡ err (conflict draft_version_conflict)
unfolding save_public_draft
save_refused digest digest_of now token body db l c d r e t f lt =
    let stale : (d.version == body.base_version) ≡ false = ground arith in
    rw (r, e, t, f, stale) refl

module _ (digest : Key → Hash) (digest_of : RenderInput → Hash) (now : Time) (token : Key)
    (body : DraftBody) (force : Bool) (db db' : Db) (version : ℕ) where
  -- A save adds one version, which is the latest draft from then on and holds the content sent.
  pub save_public_draft-latest_draft :
      (l : Link)
      → resolve digest now token db ≡ ok l
      → save_public_draft digest digest_of now token body force db ≡ ok (version, db')
      → (version ≡ number_of (latest_draft l.case_id db) + 1)
        × ((d : Draft) × (latest_draft l.case_id db' ≡ some d)
            × (d.version ≡ version)
            × (d.content ≡ content_of body))
  save_public_draft-latest_draft l r h =
      let s = save_public_draft-IsSaved digest digest_of now token body force db db' version h in
      let same : s.link ≡ l = ground (arith, s.resolved) in
      let (d, found, number, content) =
        saved_draft now s.link.case_id s.item force (not (same_id s.prior (some s.hash))) body db in
      subst
        (λ (x : Link).
          (version ≡ number_of (latest_draft x.case_id db) + 1)
          × ((d : Draft) × (latest_draft x.case_id db' ≡ some d)
              × (d.version ≡ version)
              × (d.content ≡ content_of body)))
        same (s.numbered, (d, rw s.written found, number ∙ sym s.numbered, content))

  -- No update is lost: after a save, another one that starts from an earlier version than the
  -- saved one and is not forced is refused with `DRAFT_VERSION_CONFLICT`, through whatever link
  -- of the case that resolves.
  pub save_public_draft-save_public_draft :
      (l l' : Link) (later : Time) (token' : Key) (body' : DraftBody)
      → resolve digest now token db ≡ ok l
      → save_public_draft digest digest_of now token body force db ≡ ok (version, db')
      → body'.base_version < version
      → resolve digest later token' db' ≡ ok l'
      → l'.case_id ≡ l.case_id
      → save_public_draft digest digest_of later token' body' false db'
        ≡ err (conflict draft_version_conflict)
  save_public_draft-save_public_draft l l' later token' body' r h lt r' same =
      let s = save_public_draft-IsSaved digest digest_of now token body force db db' version h in
      let own : s.link ≡ l = ground (arith, s.resolved) in
      let there : l'.case_id ≡ s.link.case_id = same ∙ sym (ap (λ (x : Link). x.case_id) own) in
      let (c, row, editable) =
        case-save_writes now s.link.case_id s.item force (not (same_id s.prior (some s.hash))) body
          (number_of (latest_draft s.link.case_id db)) db s.of_link s.editable in
      let (d, found, number, content) =
        saved_draft now s.link.case_id s.item force (not (same_id s.prior (some s.hash))) body db in
      let row' : db'.cases s.link.case_id ≡ some c = rw s.written row in
      let found' : latest_draft s.link.case_id db' ≡ some d = rw s.written found in
      save_refused digest digest_of later token' body' db' l' c d r' (rw there row') editable
        (rw there found') (omega (arith, number, s.numbered, lt))
