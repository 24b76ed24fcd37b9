-- ===== src/Signing/Submittable.antt =====
-- From a signing to its submission.
use authorization_document.Drafts.Submit.{version_by_id}
use authorization_document.Links.Resolution.{resolve-IsAdmitted}
use authorization_document.Files.Capacity.{invalidate_signings}
use authorization_document.Cases.Evidence.{next_signing, SigningInput}
use authorization_document.Drafts.Accepted.{IsReady}
use authorization_document.Signing.Signed.{
  IsRechecked, signed_tables, signed-latest_draft, signed-content_digest, signed-latest_valid,
}
use authorization_document.Links.Access.{resolve}
use authorization_document.Signing.Command.{
  RawCommand, validate_signing_command, validate_resource_binding,
}
use authorization_document.Signing.Prepare.{
  check_signing, Checked, Rechecked, find_resource, required_original, id_of, find_preview,
  signing_input, signing_writes, preview_again,
}
use authorization_document.Drafts.Content.{RenderInput, latest_draft, content_digest}
use authorization_document.Model.Db.{Db}
use authorization_document.Model.Rows.{
  Key, Hash, Json, Time, FileVersion, pdf_type, Link, Signing, Case,
}
use authorization_document.Model.Status.{presign_pdf, same_purpose, is_editable, same_status→eq}
use authorization_document.Base.{
  ok, some, true, List, count, Option, ◌==◌, ◌≤◌, find, ◌≡◌, >>=-eq-ok, from_option, bad_request,
  status_not_allowed, require, draft_missing, internal, row_missing, resource_missing,
  preview_missing, ap, ok_injective, subst, require-eq-ok, ◌∙◌, arith, ==_refl, ==_iff, find_key,
  find_sound,
}
use authorization_document.Templates.Tree.{Slot}

module _ (digest : Key → Hash) (digest_of : RenderInput → Hash) (slots_of : Json → List Slot) where
  pub check_signing-editable :
      (now : Time) (token : Key) (raw : Option RawCommand) (db : Db) (c : Checked)
      → check_signing digest digest_of slots_of now token raw db ≡ ok c
      → is_editable c.status ≡ true
  unfolding check_signing
  check_signing-editable now token raw db c h =
      let (l, e, h₁) = >>=-eq-ok (resolve digest now token db) _ h in
      let (item, e₁, h₂) =
        >>=-eq-ok (from_option (bad_request status_not_allowed) (db.cases l.case_id)) _ h₁ in
      let (u, e₂, h₃) =
        >>=-eq-ok (require (is_editable item.status) (bad_request status_not_allowed)) _ h₂ in
      let (d, e₃, h₄) =
        >>=-eq-ok (from_option (bad_request draft_missing) (latest_draft l.case_id db)) _ h₃ in
      let (hash, e₄, h₅) =
        >>=-eq-ok (content_digest digest_of l.case_id d.version d.content db) _ h₄ in
      let (t, e₅, h₆) =
        >>=-eq-ok (from_option (internal row_missing) (db.templates item.template_version)) _ h₅ in
      let (command, e₆, h₇) = >>=-eq-ok (validate_signing_command raw (slots_of t.ast)) _ h₆ in
      let (r, e₇, h₈) =
        >>=-eq-ok (from_option (bad_request resource_missing) (find_resource l.case_id command db))
          _ h₇ in
      let (o, e₈, h₉) =
        >>=-eq-ok (required_original command.mode command.seal_original l.case_id db) _ h₈ in
      let (u₁, e₉, k) =
        >>=-eq-ok (validate_resource_binding command.mode r.purpose r.original (id_of o)) _ h₉ in
      let (p, f, k₁) =
        >>=-eq-ok (from_option (bad_request preview_missing) (find_preview l.case_id hash db)) _
          k in
      let same : item.status ≡ c.status = ap (λ (x : Checked). x.status) (ok_injective k₁) in
      subst (λ s. is_editable s ≡ true) same
        (require-eq-ok (is_editable item.status) (bad_request status_not_allowed) e₂)

  -- Keys are unique, and every preview is a PDF.
  pub record IsKeyed (db : Db) : Type 0 where
    pub versions_unique : (k : Key) → count (λ v. v.id == k) db.versions ≤ 1
    pub links_unique : (k : Key) → count (λ l. l.id == k) db.links ≤ 1
    pub previews_pdf :
        (k : Key) (v : FileVersion)
        → find (λ w. w.id == k) db.versions ≡ some v
        → same_purpose v.purpose presign_pdf ≡ true
        → v.mime_type ≡ pdf_type

  module _ (then_now now : Time) (id token : Key) (raw : Option RawCommand) (c : Checked)
      (r : Rechecked) (later : Db) (resource preview : FileVersion) where
    abbrev input : SigningInput
    input = signing_input c r resource preview

    abbrev new_signing : Signing
    new_signing = next_signing id input (invalidate_signings then_now c.case_id later)

    abbrev after : Db
    after = signing_writes then_now id input later

    pub same_case :
        (l : Link)
        → IsRechecked digest digest_of slots_of then_now token raw c later r
        → resolve digest now token after ≡ ok l
        → (l ≡ r.link) × (l.case_id ≡ c.case_id)
    same_case l k h =
        let a = resolve-IsAdmitted digest now token after l h in
        let b = resolve-IsAdmitted digest then_now token later r.link k.resolved in
        let links : after.links ≡ later.links = (signed_tables then_now id input later).1 in
        let found : find (λ (x : Link). x.hash == digest token) later.links ≡ some l =
          subst (λ t. find (λ (x : Link). x.hash == digest token) t ≡ some l) links a.found in
        let same : l ≡ r.link = cc (found, b.found) in
        (same, ap (λ (x : Link). x.case_id) same ∙ (==_iff r.link.case_id c.case_id).0 k.of_case)

    preview_found :
        IsKeyed later
        → preview_again c r.hash later ≡ some preview
        → (version_by_id preview.id later ≡ some preview) × (preview.mime_type ≡ pdf_type)
    unfolding preview_again
    preview_found k h =
        let by_id =
          find_key _ (λ (v : FileVersion). v.id == preview.id) later.versions h (==_refl preview.id)
            (k.versions_unique preview.id) in
        let sound = find_sound _ later.versions h in
        (by_id, k.previews_pdf preview.id preview by_id (ground arith))

    pub signed-IsReady :
        (l : Link)
        → IsKeyed later
        → is_editable c.status ≡ true
        → IsRechecked digest digest_of slots_of then_now token raw c later r
        → preview_again c r.hash later ≡ some preview
        → resolve digest now token after ≡ ok l
        → IsReady digest digest_of now token after l r.item r.saved r.hash new_signing preview
    signed-IsReady l keyed editable k p h =
        let (same, of_case) = same_case l k h in
        let (by_id, pdf) = preview_found keyed p in
        let (cases, links, versions) = signed_tables then_now id input later in
        record {
          resolved = h;
          of_link = rw of_case (ap (λ (t : Key → Option Case). t c.case_id) cases ∙ k.of_link);
          editable = rw (same_status→eq r.item.status c.status k.same_state) editable;
          drafted = rw of_case (signed-latest_draft then_now id input later c.case_id ∙ k.drafted);
          hashed = rw of_case (
              signed-content_digest then_now id input later digest_of c.case_id r.saved.version
                r.saved.content
              ∙ k.hashed);
          latest = rw of_case (signed-latest_valid then_now id input later);
          previewed =
              ap (λ (t : List FileVersion). find (λ (v : FileVersion). v.id == preview.id) t)
                versions
              ∙ by_id;
          current = ground (arith, ==_refl r.hash);
        }
