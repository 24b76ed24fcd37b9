-- ===== src/Files/Removed.antt =====
-- What a removal leaves.
use authorization_document.Drafts.Guards.{invalidate_signings-none}
use authorization_document.Files.Removal.{
  remove_public, remove_file, is_removable, has_material, removal_writes,
}
use authorization_document.Review.Confirm.{latest_valid_signing}
use authorization_document.Links.Access.{resolve}
use authorization_document.Model.Db.{Db}
use authorization_document.Model.Rows.{Key, Hash, Time, Link, FileRecord}
use authorization_document.Base.{
  refl, [], ◌∷◌, none, refl, none, [], ◌∷◌, ok, err, ◌≡◌, >>=-eq-ok, ok_injective, sym, ◌∙◌,
  from_option, not_found, file_missing, find, ◌&&◌, require, count, ◌==◌, ap, update_where, Bool,
  List, arith,
}

pub remove_public-eq-ok :
    (digest : Key → Hash) (now : Time) (token file_id : Key) (db db' : Db) (l : Link)
    → resolve digest now token db ≡ ok l
    → remove_public digest now token file_id db ≡ ok db'
    → db' ≡ removal_writes now file_id l.case_id db
unfolding remove_public
remove_public-eq-ok digest now token file_id db db' l r h =
    let (x, e, h₁) = >>=-eq-ok (resolve digest now token db) _ h in
    let same : x ≡ l = ok_injective (sym e ∙ r) in
    let (f, e₁, h₂) =
      >>=-eq-ok
        (from_option (not_found file_missing)
          (find (λ f. is_removable file_id x.case_id f && has_material db f) db.files))
        _ h₁ in
    let (u, e₂, h₃) =
      >>=-eq-ok
        (require (count (is_removable file_id x.case_id) db.files == 1) (not_found file_missing)) _
        h₂ in
    sym (ok_injective h₃) ∙ ap (λ (y : Link). removal_writes now file_id y.case_id db) same

find-removed :
    (now : Time) (file_id case_id : Key) (t : FileRecord → Bool) (files : List FileRecord)
    → find (λ f. is_removable file_id case_id f && t f) (remove_file now file_id case_id files)
      ≡ none
unfolding find remove_file update_where
find-removed now file_id case_id t [] = refl
find-removed now file_id case_id t (f ∷ files) =
    ground (arith, find-removed now file_id case_id t files)

removal_writes_lem :
    (now : Time) (file_id case_id : Key) (db : Db)
    → ((removal_writes now file_id case_id db).files ≡ remove_file now file_id case_id db.files)
      × (latest_valid_signing case_id (removal_writes now file_id case_id db) ≡ none)
unfolding removal_writes latest_valid_signing
removal_writes_lem now file_id case_id db = (refl, invalidate_signings-none now case_id db)

-- A customer's removal of a file voids the signings: none of the case is valid afterwards. The
-- same file cannot be removed again, through whatever link of the case that resolves.
pub remove_public-remove_public :
    (digest : Key → Hash) (now later : Time) (token token' file_id : Key) (db db' : Db)
    (l l' : Link)
    → resolve digest now token db ≡ ok l
    → remove_public digest now token file_id db ≡ ok db'
    → resolve digest later token' db' ≡ ok l'
    → l'.case_id ≡ l.case_id
    → (latest_valid_signing l.case_id db' ≡ none)
      × (remove_public digest later token' file_id db' ≡ err (not_found file_missing))
unfolding remove_public
remove_public-remove_public digest now later token token' file_id db db' l l' r h r' same =
    let e = remove_public-eq-ok digest now token file_id db db' l r h in
    let (files, voided) = removal_writes_lem now file_id l.case_id db in
    let gone : find (λ f. is_removable file_id l'.case_id f && has_material db' f) db'.files
        ≡ none =
      rw (same, ap (λ (d : Db). d.files) e, files)
        (find-removed now file_id l.case_id (has_material db') db.files) in
    (ap (latest_valid_signing l.case_id) e ∙ voided, rw (r', gone) refl)
