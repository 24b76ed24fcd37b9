-- ===== src/Drafts/Submitted.antt =====
-- What a formal submission has established.
use authorization_document.Drafts.Checked.{
  submit_verified-IsSubmitted, verify_submission-IsVerified, unchanged_parts, signing_named,
  named_by,
}
use authorization_document.Review.Confirm.{latest_valid_signing}
use authorization_document.Links.Resolution.{
  resolve-IsAdmitted, consume-eq-ok, resolve_accepted, consume-resolve, resolve_congr,
}
use authorization_document.Drafts.Submit.{
  submit_verified, Verification, valid_signing, version_by_id, submit_writes, target_of,
  verify_submission, SubmitBody, submit_public,
}
use authorization_document.Drafts.Content.{latest_draft, RenderInput, content_digest}
use authorization_document.Links.Access.{resolve}
use authorization_document.Model.Db.{Db, audit_as}
use authorization_document.Model.Rows.{
  Key, Hash, Time, Link, Case, Draft, Signing, FileVersion, case_formally_submitted, TargetType,
}
use authorization_document.Model.Status.{customer_actor, CaseStatus, is_terminal, same_status→eq}
use authorization_document.Base.{
  refl, some, ok, ◌≡◌, >>=-eq-ok, require, ◌==◌, arith, ==_refl, err, Option, false, not_found,
  link_unavailable, same_id, find, sym, ◌∙◌, ap, ℕ,
}

submit_writes_lem :
    (id : Key) (item : Case) (db : Db)
    → ((submit_writes id item db).links ≡ db.links)
      × ((submit_writes id item db).cases id
          ≡ some (record item { status = target_of item.status }))
unfolding submit_writes
submit_writes_lem id item db = (refl, rw (==_refl id) refl)

not_terminal : (s : CaseStatus) → is_terminal (target_of s) ≡ false
not_terminal s = ground arith

module _ (digest : Key → Hash) (digest_of : RenderInput → Hash) (now : Time) (token : Key)
    (v : Verification) (db db' : Db) (status : CaseStatus) where
  -- A submission uses its link up: the token is refused from then on, at every time.
  pub submit_verified-resolve :
      submit_verified digest digest_of now token v db ≡ ok (status, db')
      → (later : Time) → resolve digest later token db' ≡ err (not_found link_unavailable)
  submit_verified-resolve h later =
      let s = submit_verified-IsSubmitted digest digest_of now token v db db' status h in
      let a = resolve-IsAdmitted digest now token db s.link s.resolved in
      let (links, row) = submit_writes_lem v.case_id s.item db in
      let between = submit_writes v.case_id s.item db in
      let found : find (λ x. x.hash == digest token) between.links ≡ some s.link =
        rw links a.found in
      let here : between.cases s.link.case_id
          ≡ some (record s.item { status = target_of s.item.status }) =
        rw s.of_case row in
      let open_between =
        resolve_accepted digest now token between {x = s.link}
          {c = record s.item { status = target_of s.item.status }} found here a.open_now
          (not_terminal s.item.status) in
      let dead =
        consume-resolve digest now later token between s.used s.link open_between s.consumed in
      rw s.written (
        resolve_congr digest later token s.used
          (audit_as customer_actor case_formally_submitted TargetType.business_case v.case_id
            s.used)
          refl refl
        ∙ dead)

  -- A submission moves the case to `PENDING_REREVIEW` from `NEEDS_SUPPLEMENT`, and to
  -- `PENDING_REVIEW` otherwise.
  submitted_status :
      submit_verified digest digest_of now token v db ≡ ok (status, db')
      → (c : Case) × (db'.cases v.case_id ≡ some c)
        × (c.status ≡ status)
        × (status ≡ target_of v.status)
  submitted_status h =
      let s = submit_verified-IsSubmitted digest digest_of now token v db db' status h in
      let (links, row) = submit_writes_lem v.case_id s.item db in
      let (_, cases) =
        consume-eq-ok now s.link (submit_writes v.case_id s.item db) s.used s.consumed in
      let same = same_status→eq s.item.status v.status s.same_state in
      (
        record s.item { status = target_of s.item.status },
        rw s.written (rw cases row),
        sym s.moved,
        s.moved ∙ ap target_of same,
      )

-- A submission rests on a signing `s`: the case is that of the token, `s` is a valid row in the tables
-- `later` of the second transaction with the version that the customer sent, and has the identifier
-- of the latest valid signing in the tables `db` of the first; the latest drafts of both have the digest
-- in `s`; and the preview that `s` names has, as a row of `later` and as the bytes stored for its row of
-- `db`, the hash in `s`.
pub record RestsOn (digest : Key → Hash) (digest_of : RenderInput → Hash)
    (stored : Key → Option Hash) (then_now : Time) (token : Key) (version : ℕ) (db later : Db)
    (s : Signing) : Type 0 where
  pub link : Link
  pub of_token : resolve digest then_now token later ≡ ok link
  pub before : Signing
  pub newest : latest_valid_signing link.case_id db ≡ some before
  pub same_signing : before.id ≡ s.id
  pub row : valid_signing s.id link.case_id later ≡ some s
  pub number : s.version ≡ version
  pub drafted_before : Draft
  pub latest_before : latest_draft link.case_id db ≡ some drafted_before
  pub signed_before :
      content_digest digest_of link.case_id drafted_before.version drafted_before.content db
      ≡ ok s.content_digest
  pub drafted : Draft
  pub latest : latest_draft link.case_id later ≡ some drafted
  pub signed :
      content_digest digest_of link.case_id drafted.version drafted.content later
      ≡ ok s.content_digest
  pub preview : FileVersion
  pub previewed : version_by_id s.preview later ≡ some preview
  pub preview_sha : preview.sha256 ≡ s.preview_sha
  pub read : FileVersion
  pub read_before : version_by_id s.preview db ≡ some read
  pub read_bytes : stored read.storage_key ≡ some s.preview_sha

module _ (digest : Key → Hash) (digest_of : RenderInput → Hash) (stored : Key → Option Hash)
    (now then_now : Time) (token : Key) (body : SubmitBody) (db later db' : Db)
    (status : CaseStatus) where
  -- What is submitted is what was signed. When a submission succeeds, whatever happened between its
  -- two transactions, there is a signing of the token's case that is a valid row of the tables of the
  -- second, has the version that the customer sent, and has the identifier of the latest valid signing
  -- in the tables of the first; the latest draft has, in both, the content digest of that signing; and
  -- the preview that it names has, as a row of the second and as the bytes stored for its row of the
  -- first, the hash that it names.
  pub submit_public-signed :
      submit_public digest digest_of stored now then_now token body db later ≡ ok (status, db')
      → (s : Signing) × RestsOn digest digest_of stored then_now token body.signing_version db later
          s
  unfolding submit_public
  submit_public-signed h =
      let (v, e, h₁) = >>=-eq-ok (verify_submission digest digest_of now token body db) _ h in
      let (u, e₁, h₂) =
        >>=-eq-ok (require (same_id (stored v.preview_key) (some v.preview_sha)) _) _ h₁ in
      let b = verify_submission-IsVerified digest digest_of now token body db v e in
      let s = submit_verified-IsSubmitted digest digest_of then_now token v later db' status h₂ in
      let (number, hash, named, sha, row_sha) =
        unchanged_parts v s.hash s.signing s.preview s.unchanged in
      let id : s.signing.id ≡ v.signing_id = signing_named v.signing_id v.case_id later s.signed in
      let same : s.signing.preview ≡ b.signing.preview =
        sym (named_by s.signing.preview later s.previewed)
        ∙ named
        ∙ b.preview_id
        ∙ named_by b.signing.preview db b.previewed in
      let read : stored v.preview_key ≡ some v.preview_sha = ground arith in
      (
        s.signing,
        record {
          link = s.link;
          of_token = s.resolved;
          before = b.signing;
          newest = rw s.of_case b.newest;
          same_signing = sym b.signing_id ∙ sym id;
          row = rw (s.of_case, id) s.signed;
          number = number ∙ b.number;
          drafted_before = b.drafted;
          latest_before = rw s.of_case b.latest;
          signed_before = rw (s.of_case, hash, s.same_hash) b.hashed;
          drafted = s.saved;
          latest = rw s.of_case s.drafted;
          signed = rw (s.of_case, hash) s.hashed;
          preview = s.preview;
          previewed = s.previewed;
          preview_sha = row_sha ∙ sym sha;
          read = b.preview;
          read_before = rw same b.previewed;
          read_bytes = rw (← b.preview_key, sha) read;
        },
      )
