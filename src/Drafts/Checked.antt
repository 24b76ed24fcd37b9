-- ===== src/Drafts/Checked.antt =====
-- What the two transactions of `submitPublic` of apps/api/src/cases/case.service.ts have checked.
use authorization_document.Review.Confirm.{latest_valid_signing}
use authorization_document.Drafts.Submit.{
  submit_verified, Verification, valid_signing, version_by_id, is_unchanged, submit_writes,
  target_of, verify_submission, SubmitBody, is_current,
}
use authorization_document.Drafts.Content.{latest_draft, RenderInput, content_digest}
use authorization_document.Links.Access.{resolve, consume}
use authorization_document.Model.Db.{Db, audit_as}
use authorization_document.Model.Rows.{
  Key, Hash, Time, Link, Case, Draft, Signing, FileVersion, case_formally_submitted, TargetType,
}
use authorization_document.Model.Status.{customer_actor, CaseStatus, same_status, is_editable}
use authorization_document.Base.{
  refl, some, true, ok, ◌≡◌, >>=-eq-ok, require, ◌==◌, from_option, arith, ◌&&◌, find_sound, ℕ,
  from_option-eq-ok, Failure, ok_injective, subst,
}

module _ (digest : Key → Hash) (digest_of : RenderInput → Hash) (now : Time) (token : Key)
    (v : Verification) (db db' : Db) (status : CaseStatus) where
  -- The facts behind a second transaction that succeeds.
  pub record IsSubmitted : Type 0 where
    pub link : Link
    pub item : Case
    pub saved : Draft
    pub hash : Hash
    pub signing : Signing
    pub preview : FileVersion
    pub used : Db
    pub resolved : resolve digest now token db ≡ ok link
    pub of_case : link.case_id ≡ v.case_id
    pub of_link : db.cases v.case_id ≡ some item
    pub same_state : same_status item.status v.status ≡ true
    pub drafted : latest_draft v.case_id db ≡ some saved
    pub hashed : content_digest digest_of v.case_id saved.version saved.content db ≡ ok hash
    pub same_hash : hash ≡ v.digest
    pub signed : valid_signing v.signing_id v.case_id db ≡ some signing
    pub previewed : version_by_id signing.preview db ≡ some preview
    pub unchanged : is_unchanged v hash signing preview ≡ true
    pub consumed : consume now link (submit_writes v.case_id item db) ≡ ok used
    pub moved : status ≡ target_of item.status
    pub written :
        db'
        ≡ audit_as customer_actor case_formally_submitted TargetType.business_case v.case_id used

  pub submit_verified-IsSubmitted :
      submit_verified digest digest_of now token v db ≡ ok (status, db') → IsSubmitted
  unfolding submit_verified
  submit_verified-IsSubmitted h =
      let (l, e, h₁) = >>=-eq-ok (resolve digest now token db) _ h in
      let (u₁, e₁, h₂) = >>=-eq-ok (require (l.case_id == v.case_id) _) _ h₁ in
      let (c, e₂, h₃) = >>=-eq-ok (from_option _ (db.cases v.case_id)) _ h₂ in
      let (u₂, e₃, h₄) = >>=-eq-ok (require (same_status c.status v.status) _) _ h₃ in
      let (d, e₄, h₅) = >>=-eq-ok (from_option _ (latest_draft v.case_id db)) _ h₄ in
      let (u₃, e₅, h₆) = >>=-eq-ok (require (d.version == v.draft_version) _) _ h₅ in
      let (hash, e₆, h₇) =
        >>=-eq-ok (content_digest digest_of v.case_id d.version d.content db) _ h₆ in
      let (u₄, e₇, h₈) = >>=-eq-ok (require (hash == v.digest) _) _ h₇ in
      let (s, e₈, h₉) = >>=-eq-ok (from_option _ (valid_signing v.signing_id v.case_id db)) _ h₈ in
      let (p, e₉, k₁) = >>=-eq-ok (from_option _ (version_by_id s.preview db)) _ h₉ in
      let (u₅, f₁, k₂) = >>=-eq-ok (require (is_unchanged v hash s p) _) _ k₁ in
      let (x, f₂, k₃) = >>=-eq-ok (consume now l (submit_writes v.case_id c db)) _ k₂ in
      record {
        link = l;
        item = c;
        saved = d;
        hash = hash;
        signing = s;
        preview = p;
        used = x;
        resolved = e;
        of_case = ground arith;
        of_link = ground arith;
        same_state = ground arith;
        drafted = ground arith;
        hashed = e₆;
        same_hash = ground arith;
        signed = ground arith;
        previewed = ground arith;
        unchanged = ground arith;
        consumed = f₂;
        moved = ground arith;
        written = ground arith;
      }

pub unchanged_parts :
    (v : Verification) (hash : Hash) (s : Signing) (p : FileVersion)
    → is_unchanged v hash s p ≡ true
    → (s.version ≡ v.signing_version)
      × (s.content_digest ≡ hash)
      × (p.id ≡ v.preview_id)
      × (s.preview_sha ≡ v.preview_sha)
      × (p.sha256 ≡ v.preview_sha)
unchanged_parts v hash s p h =
    (ground arith, ground arith, ground arith, ground arith, ground arith)

pub signing_named :
    (id case_id : Key) (db : Db) {s : Signing} → valid_signing id case_id db ≡ some s → s.id ≡ id
signing_named id case_id db {s} h =
    ground (arith, find_sound (λ x. x.id == id && x.case_id == case_id && x.valid) db.signings h)

current_version :
    (version : ℕ) (hash : Hash) (s : Signing) (p : FileVersion) (e : Failure) {u : Unit {0}}
    → require (is_current version hash s p) e ≡ ok u
    → s.version ≡ version
current_version version hash s p e h = ground arith

pub named_by : (id : Key) (db : Db) {p : FileVersion} → version_by_id id db ≡ some p → p.id ≡ id
named_by id db {p} h = ground (arith, find_sound (λ v. v.id == id) db.versions h)

-- What the first transaction has checked: the signing is the latest valid one of the case, it has the
-- digest of the content, and its preview is the stored file that is to be read.
pub record IsVerified (digest : Key → Hash) (digest_of : RenderInput → Hash) (body : SubmitBody)
    (db : Db) (v : Verification) : Type 0 where
  pub drafted : Draft
  pub signing : Signing
  pub preview : FileVersion
  pub latest : latest_draft v.case_id db ≡ some drafted
  pub hashed : content_digest digest_of v.case_id drafted.version drafted.content db ≡ ok v.digest
  pub newest : latest_valid_signing v.case_id db ≡ some signing
  pub previewed : version_by_id signing.preview db ≡ some preview
  pub signing_id : v.signing_id ≡ signing.id
  pub preview_id : v.preview_id ≡ preview.id
  pub preview_key : v.preview_key ≡ preview.storage_key
  pub number : v.signing_version ≡ body.signing_version

pub verify_submission-IsVerified :
    (digest : Key → Hash) (digest_of : RenderInput → Hash) (now : Time) (token : Key)
    (body : SubmitBody) (db : Db) (v : Verification)
    → verify_submission digest digest_of now token body db ≡ ok v
    → IsVerified digest digest_of body db v
unfolding verify_submission
verify_submission-IsVerified digest digest_of now token body db v h =
    let (u₁, e₁, h₁) = >>=-eq-ok (require (body.consent && body.declaration) _) _ h in
    let (l, e₂, h₂) = >>=-eq-ok (resolve digest now token db) _ h₁ in
    let (c, e₃, h₃) = >>=-eq-ok (from_option _ (db.cases l.case_id)) _ h₂ in
    let (u₂, e₄, h₄) = >>=-eq-ok (require (is_editable c.status) _) _ h₃ in
    let (d, e₅, h₅) = >>=-eq-ok (from_option _ (latest_draft l.case_id db)) _ h₄ in
    let (hash, e₆, h₆) =
      >>=-eq-ok (content_digest digest_of l.case_id d.version d.content db) _ h₅ in
    let (s, e₇, h₇) = >>=-eq-ok (from_option _ (latest_valid_signing l.case_id db)) _ h₆ in
    let (p, e₈, h₈) = >>=-eq-ok (from_option _ (version_by_id s.preview db)) _ h₇ in
    let (u₃, e₉, h₉) = >>=-eq-ok (require (is_current body.signing_version hash s p) _) _ h₈ in
    subst (IsVerified digest digest_of body db) (ok_injective h₉) (record {
      drafted = d;
      signing = s;
      preview = p;
      latest = from_option-eq-ok _ (latest_draft l.case_id db) e₅;
      hashed = e₆;
      newest = from_option-eq-ok _ (latest_valid_signing l.case_id db) e₇;
      previewed = from_option-eq-ok _ (version_by_id s.preview db) e₈;
      signing_id = refl;
      preview_id = refl;
      preview_key = refl;
      number = current_version body.signing_version hash s p _ e₉;
    })
