-- ===== src/Signing/Completed.antt =====
-- A customer who has signed can submit.
use authorization_document.Drafts.Accepted.{
  verify_submission_ready, consume_open, submit_verified_ready,
}
use authorization_document.Links.Resolution.{resolve-IsAdmitted}
use authorization_document.Signing.Signed.{
  IsRechecked, signed-valid_signing, recheck-IsRechecked, sign_rows-IsSigned, signed_tables,
}
use authorization_document.Links.Access.{resolve, consume}
use authorization_document.Files.Capacity.{invalidate_signings}
use authorization_document.Signing.Submittable.{
  IsKeyed, same_case, signed-IsReady, check_signing-editable,
}
use authorization_document.Drafts.Submit.{
  SubmitBody, submit_writes, submit_public, valid_signing, target_of, verify_submission,
}
use authorization_document.Cases.Evidence.{next_signing}
use authorization_document.Signing.Command.{RawCommand}
use authorization_document.Drafts.Content.{RenderInput}
use authorization_document.Signing.Prepare.{
  same_bytes, intact, prepare_signing, sign_checked, Checked, Rechecked, signing_writes,
  signing_input, preview_again, check_signing, original_intact, recheck,
}
use authorization_document.Model.Db.{Db, audit_as}
use authorization_document.Model.Rows.{
  Key, Hash, Json, Time, FileVersion, Link, Signing, case_formally_submitted, TargetType,
}
use authorization_document.Model.Status.{customer_actor, is_editable, CaseStatus}
use authorization_document.Base.{
  ok, some, true, refl, Option, ◌≡◌, List, same_id, arith, ℕ, >>=-eq-ok, ◌∙◌, ap, require, sym,
  bad_request, storage_mismatch, subst, require-eq-ok, >>=-ok, signing_stale, require-ok, count,
  ◌==◌, ◌≤◌,
}
use authorization_document.Templates.Tree.{Slot}

-- Versions with the same bytes are the same in the storage.
stored_same :
    (stored : Key → Option Hash) (a b : FileVersion)
    → same_bytes a b ≡ true
    → intact stored b ≡ true
    → same_id (stored a.storage_key) (some a.sha256) ≡ true
stored_same stored a b h k = ground arith

module _ (digest : Key → Hash) (digest_of : RenderInput → Hash) (slots_of : Json → List Slot)
    (stored : Key → Option Hash) (t t' then_now : Time) (id token : Key) (raw : Option RawCommand)
    (c : Checked) (r : Rechecked) (later : Db) (resource preview : FileVersion) where
  abbrev after : Db
  after = signing_writes then_now id (signing_input c r resource preview) later

  abbrev new_signing : Signing
  new_signing =
      next_signing id (signing_input c r resource preview)
        (invalidate_signings then_now c.case_id later)

  abbrev body : SubmitBody
  body = record { consent = true; declaration = true; signing_version = new_signing.version }

  link_consumed :
      (l : Link)
      → IsKeyed digest digest_of slots_of later
      → resolve digest t' token after ≡ ok l
      → (used : Db) × (consume t' l (submit_writes l.case_id r.item after) ≡ ok used)
  unfolding submit_writes
  link_consumed l keyed h =
      let a = resolve-IsAdmitted digest t' token after l h in
      let links : after.links ≡ later.links =
        (signed_tables then_now id (signing_input c r resource preview) later).1 in
      consume_open t' (digest token) l (submit_writes l.case_id r.item after) a.found a.open_now (
        subst (λ x. count (λ (y : Link). y.id == l.id) x ≤ 1) (sym links) (keyed.links_unique l.id))

  submit_signed :
      (l l' : Link)
      → IsKeyed digest digest_of slots_of later
      → is_editable c.status ≡ true
      → IsRechecked digest digest_of slots_of then_now token raw c later r
      → preview_again c r.hash later ≡ some preview
      → same_id (stored preview.storage_key) (some preview.sha256) ≡ true
      → resolve digest t token after ≡ ok l
      → resolve digest t' token after ≡ ok l'
      → (s : CaseStatus) × (db' : Db) × (submit_public digest digest_of stored t t' token body after
            after
          ≡ ok (s, db'))
  unfolding submit_public
  submit_signed l l' keyed editable k p bytes h h' =
      let (same, of_case) =
        same_case digest digest_of slots_of then_now t id token raw c r later resource preview l k
          h in
      let (same', of_case') =
        same_case digest digest_of slots_of then_now t' id token raw c r later resource preview l' k
          h' in
      let again : resolve digest t' token after ≡ ok l = h' ∙ ap ok (same' ∙ sym same) in
      let ready =
        signed-IsReady digest digest_of slots_of then_now t id token raw c r later resource preview
          l keyed editable k p h in
      let ready' =
        signed-IsReady digest digest_of slots_of then_now t' id token raw c r later resource preview
          l keyed editable k p again in
      let (used, e) = link_consumed l keyed again in
      let valid : valid_signing new_signing.id l.case_id after ≡ some new_signing =
        subst (λ x. valid_signing id x after ≡ some new_signing) (sym of_case)
          (signed-valid_signing then_now id (signing_input c r resource preview) later) in
      (
        target_of r.item.status,
        audit_as customer_actor case_formally_submitted TargetType.business_case l.case_id used,
        >>=-ok (verify_submission digest digest_of t token body after) _
            (verify_submission_ready digest digest_of t token after l r.item r.saved r.hash
              new_signing preview ready)
            (>>=-ok
              (require (same_id (stored preview.storage_key) (some preview.sha256))
                (bad_request signing_stale))
              _
              (require-ok (same_id (stored preview.storage_key) (some preview.sha256))
                (bad_request signing_stale) bytes)
              (submit_verified_ready digest digest_of t' token after l r.item r.saved r.hash
                new_signing preview ready' valid refl used e)),
      )

  -- The same at the state and the version that the signing returned.
  submit_returned :
      (db' : Db) (n : ℕ) (l l' : Link)
      → IsKeyed digest digest_of slots_of later
      → is_editable c.status ≡ true
      → IsRechecked digest digest_of slots_of then_now token raw c later r
      → preview_again c r.hash later ≡ some preview
      → same_id (stored preview.storage_key) (some preview.sha256) ≡ true
      → after ≡ db'
      → new_signing.version ≡ n
      → resolve digest t token db' ≡ ok l
      → resolve digest t' token db' ≡ ok l'
      → (s : CaseStatus) × (db'' : Db) × (submit_public digest digest_of stored t t' token
            (record { consent = true; declaration = true; signing_version = n })
            db'
            db'
          ≡ ok (s, db''))
  submit_returned db' n l l' keyed editable k p bytes written versioned h h' =
      let (s, db'', e) =
        submit_signed l l' keyed editable k p bytes
          (subst (λ x. resolve digest t token x ≡ ok l) (sym written) h)
          (subst (λ x. resolve digest t' token x ≡ ok l') (sym written) h') in
      (
        s,
        db'',
        subst
            (λ x.
              submit_public digest digest_of stored t t' token
                (record { consent = true; declaration = true; signing_version = n }) x x
              ≡ ok (s, db''))
            written
            (subst
              (λ m.
                submit_public digest digest_of stored t t' token
                  (record { consent = true; declaration = true; signing_version = m }) after after
                ≡ ok (s, db''))
              versioned e),
      )

module _ (digest : Key → Hash) (digest_of : RenderInput → Hash) (slots_of : Json → List Slot)
    (stored : Key → Option Hash) where
  -- A customer who has signed can submit: after a signing has been prepared, where identifiers of
  -- versions and links are unique and every preview is a PDF, a submission of that signing's version
  -- that finds the tables and the stored files as the signing left them succeeds, at any times at
  -- which the token still resolves.
  pub prepare_signing-submit_public :
      (now then_now t t' : Time) (id token : Key) (raw : Option RawCommand) (db later db' : Db)
      (n : ℕ) (l l' : Link)
      → IsKeyed digest digest_of slots_of later
      → prepare_signing digest digest_of slots_of stored now then_now id token raw db later
        ≡ ok (n, db')
      → resolve digest t token db' ≡ ok l
      → resolve digest t' token db' ≡ ok l'
      → (s : CaseStatus) × (db'' : Db) × (submit_public digest digest_of stored t t' token
            (record { consent = true; declaration = true; signing_version = n })
            db'
            db'
          ≡ ok (s, db''))
  unfolding prepare_signing sign_checked
  prepare_signing-submit_public now then_now t t' id token raw db later db' n l l' keyed h r₁ r₂ =
      let (c, e, h₁) = >>=-eq-ok (check_signing digest digest_of slots_of now token raw db) _ h in
      let (u, e₁, h₂) =
        >>=-eq-ok (require (intact stored c.resource) (bad_request storage_mismatch)) _ h₁ in
      let (u₁, e₂, h₃) =
        >>=-eq-ok
          (require (original_intact stored c.resource c.seal_original)
            (bad_request storage_mismatch))
          _ h₂ in
      let (u₂, e₃, h₄) =
        >>=-eq-ok (require (intact stored c.preview) (bad_request storage_mismatch)) _ h₃ in
      let (r, e₄, h₅) =
        >>=-eq-ok (recheck digest digest_of slots_of then_now token raw c later) _ h₄ in
      let k = recheck-IsRechecked digest digest_of slots_of then_now token raw c later r e₄ in
      let f = sign_rows-IsSigned then_now id c r later db' n h₅ in
      let editable = check_signing-editable digest digest_of slots_of now token raw db c e in
      let bytes =
        stored_same stored f.preview c.preview f.same_preview
          (require-eq-ok (intact stored c.preview) (bad_request storage_mismatch) e₃) in
      submit_returned digest digest_of slots_of stored t t' then_now id token raw c r later
        f.resource f.preview db' n l l' keyed editable k f.previewed bytes f.written f.versioned r₁
        r₂
