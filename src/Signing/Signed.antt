-- ===== src/Signing/Signed.antt =====
-- What a signing that is recorded has gone through, and what it leaves.
use authorization_document.Drafts.Guards.{invalidate_signings-none}
use authorization_document.Links.Access.{resolve}
use authorization_document.Drafts.Submit.{valid_signing}
use authorization_document.Review.Confirm.{latest_valid_signing, latest_snapshot}
use authorization_document.Files.Capacity.{invalidate_signings, has_active_file}
use authorization_document.Signing.Command.{
  RawCommand, validate_signing_command, validate_resource_binding,
}
use authorization_document.Cases.Evidence.{SigningInput, next_signing}
use authorization_document.Drafts.Content.{
  RenderInput, content_digest, latest_draft, prepare_input, active_materials, render_file, key_of,
}
use authorization_document.Signing.Prepare.{
  Checked, signing_writes, preview_again, same_bytes, resource_again, same_resource, original_again,
  id_of, Rechecked, recheck, signing_input, sign_rows,
}
use authorization_document.Model.Db.{Db}
use authorization_document.Model.Rows.{Key, Hash, Json, Time, FileVersion, Content, FileRecord}
use authorization_document.Model.Status.{same_status}
use mathlib.Core.Path.{fun_ext}
use authorization_document.Base.{
  ok, none, some, true, refl, List, Option, find, ℕ, ◌≡◌, find_latest, >>=-eq-ok, arith, ◌==◌,
  require, conflict, changed_during_verification, from_option, internal, row_missing, require-eq-ok,
  from_option-eq-ok, ap, ok_injective, subst, ◌&&◌,
}
use authorization_document.Templates.Tree.{Slot}

module _ (digest : Key → Hash) (digest_of : RenderInput → Hash) (slots_of : Json → List Slot)
    (now : Time) (token : Key) (raw : Option RawCommand) (c : Checked) (db : Db) where
  -- The facts behind the first half of a second transaction.
  pub record IsRechecked (r : Rechecked) : Type 0 where
    pub resolved : resolve digest now token db ≡ ok r.link
    pub of_case : (r.link.case_id == c.case_id) ≡ true
    pub of_link : db.cases c.case_id ≡ some r.item
    pub same_state : same_status r.item.status c.status ≡ true
    pub drafted : latest_draft c.case_id db ≡ some r.saved
    pub hashed : content_digest digest_of c.case_id r.saved.version r.saved.content db ≡ ok r.hash

  pub recheck-IsRechecked :
      (r : Rechecked) → recheck digest digest_of slots_of now token raw c db ≡ ok r → IsRechecked r
  unfolding recheck
  recheck-IsRechecked r h =
      let (l, e, h₁) = >>=-eq-ok (resolve digest now token db) _ h in
      let (u, e₁, h₂) =
        >>=-eq-ok (require (l.case_id == c.case_id) (conflict changed_during_verification)) _ h₁ in
      let (item, e₂, h₃) =
        >>=-eq-ok (from_option (conflict changed_during_verification) (db.cases c.case_id)) _ h₂ in
      let (u₁, e₃, h₄) =
        >>=-eq-ok
          (require (same_status item.status c.status) (conflict changed_during_verification)) _
          h₃ in
      let (d, e₄, h₅) =
        >>=-eq-ok (from_option (conflict changed_during_verification) (latest_draft c.case_id db)) _
          h₄ in
      let (u₂, e₅, h₆) =
        >>=-eq-ok (require (d.version == c.draft_version) (conflict changed_during_verification)) _
          h₅ in
      let (hash, e₆, h₇) =
        >>=-eq-ok (content_digest digest_of c.case_id d.version d.content db) _ h₆ in
      let (u₃, e₇, h₈) =
        >>=-eq-ok (require (hash == c.digest) (conflict changed_during_verification)) _ h₇ in
      let (t, e₈, h₉) =
        >>=-eq-ok (from_option (internal row_missing) (db.templates item.template_version)) _ h₈ in
      let (command, e₉, k) = >>=-eq-ok (validate_signing_command raw (slots_of t.ast)) _ h₉ in
      let made : Rechecked = record {
        link = l;
        item = item;
        saved = d;
        hash = hash;
        command = command;
      } in
      let facts : IsRechecked made = record {
        resolved = e;
        of_case = require-eq-ok (l.case_id == c.case_id) (conflict changed_during_verification) e₁;
        of_link = from_option-eq-ok (conflict changed_during_verification) (db.cases c.case_id) e₂;
        same_state =
            require-eq-ok (same_status item.status c.status) (conflict changed_during_verification)
              e₃;
        drafted =
            from_option-eq-ok (conflict changed_during_verification) (latest_draft c.case_id db) e₄;
        hashed = e₆;
      } in
      subst IsRechecked (ok_injective k) facts

module _ (now : Time) (id : Key) (c : Checked) (r : Rechecked) (db db' : Db) (n : ℕ) where
  -- The facts behind the second half.
  pub record IsSigned : Type 0 where
    pub resource : FileVersion
    pub preview : FileVersion
    pub previewed : preview_again c r.hash db ≡ some preview
    pub same_preview : same_bytes preview c.preview ≡ true
    pub versioned :
        (next_signing id
          (signing_input c r resource preview)
          (invalidate_signings now c.case_id db)).version
        ≡ n
    pub written : signing_writes now id (signing_input c r resource preview) db ≡ db'

  pub sign_rows-IsSigned : sign_rows now id c r db ≡ ok (n, db') → IsSigned
  unfolding sign_rows
  sign_rows-IsSigned h =
      let (resource, f, h₁) =
        >>=-eq-ok (from_option (conflict changed_during_verification) (resource_again c db)) _ h in
      let (u, f₁, h₂) =
        >>=-eq-ok
          (require (same_resource resource c.resource) (conflict changed_during_verification)) _
          h₁ in
      let (o, f₂, h₃) = >>=-eq-ok (original_again c db) _ h₂ in
      let (u₁, f₃, h₄) =
        >>=-eq-ok
          (validate_resource_binding r.command.mode resource.purpose resource.original (id_of o)) _
          h₃ in
      let (p, f₄, h₅) =
        >>=-eq-ok (from_option (conflict changed_during_verification) (preview_again c r.hash db)) _
          h₄ in
      let (u₂, f₅, h₆) =
        >>=-eq-ok (require (same_bytes p c.preview) (conflict changed_during_verification)) _ h₅ in
      record {
        resource = resource;
        preview = p;
        previewed =
            from_option-eq-ok (conflict changed_during_verification) (preview_again c r.hash db) f₄;
        same_preview =
            require-eq-ok (same_bytes p c.preview) (conflict changed_during_verification) f₅;
        versioned = ap (λ (x : ℕ × Db). x.0) (ok_injective h₆);
        written = ap (λ (x : ℕ × Db). x.1) (ok_injective h₆);
      }

-- The writes of a signing leave the case, its content and its links alone, and its record is the
-- latest valid one.
module _ (now : Time) (id : Key) (input : SigningInput) (db : Db) where
  abbrev signed : Db
  signed = signing_writes now id input db

  signed-key_of : (f : Option FileRecord) → key_of f signed ≡ key_of f db
  unfolding signing_writes invalidate_signings
  signed-key_of none = refl
  signed-key_of (some f) = refl

  signed-render_file : (v : FileVersion) → render_file signed v ≡ render_file db v
  unfolding signing_writes invalidate_signings render_file
  signed-render_file v =
      rw
        (signed-key_of
          (find (λ (f : FileRecord). f.id == v.file_id && f.case_id == v.case_id) db.files))
        refl

  pub signed-content_digest :
      (digest_of : RenderInput → Hash) (case_id : Key) (version : ℕ) (content : Content)
      → content_digest digest_of case_id version content signed
        ≡ content_digest digest_of case_id version content db
  unfolding content_digest prepare_input signing_writes invalidate_signings latest_snapshot
      active_materials has_active_file
  signed-content_digest digest_of case_id version content = rw (fun_ext signed-render_file) refl

  pub signed-latest_draft : (case_id : Key) → latest_draft case_id signed ≡ latest_draft case_id db
  unfolding latest_draft signing_writes invalidate_signings
  signed-latest_draft case_id = refl

  pub signed_tables :
      (signed.cases ≡ db.cases) × (signed.links ≡ db.links) × (signed.versions ≡ db.versions)
  unfolding signing_writes invalidate_signings
  signed_tables = (refl, refl, refl)

  pub signed-latest_valid :
      latest_valid_signing input.case_id signed
      ≡ some (next_signing id input (invalidate_signings now input.case_id db))
  unfolding latest_valid_signing signing_writes find_latest
  signed-latest_valid = ground (arith, invalidate_signings-none now input.case_id db)

  pub signed-valid_signing :
      valid_signing id input.case_id signed
      ≡ some (next_signing id input (invalidate_signings now input.case_id db))
  unfolding signing_writes find
  signed-valid_signing = ground arith
