-- ===== src/Drafts/Guards.antt =====
-- What a save must leave alone, and what it voids.
use authorization_document.Drafts.Saved.{save_public_draft-IsSaved, save_public_draft-latest_draft}
use authorization_document.Drafts.Save.{
  save_writes, answer, is_foreign_change, DraftBody, is_allowed, materials_version_name,
  assert_supplement_only, previous_answers, save_public_draft, digest_before, content_of, number_of,
}
use authorization_document.Drafts.Content.{latest_draft, RenderInput, content_digest, is_published}
use authorization_document.Review.Confirm.{latest_valid_signing, latest_snapshot}
use authorization_document.Links.Access.{resolve}
use authorization_document.Files.Capacity.{invalidate_signings}
use authorization_document.Model.Db.{Db}
use authorization_document.Model.Rows.{Key, Time, Signing, Case, Json, Hash, Draft, Link, Content}
use authorization_document.Model.Status.{awaiting_customer, needs_supplement, same_status}
use authorization_document.Base.{
  ℕ, none, some, true, false, refl, [], ◌∷◌, inl, inr, ok, find_latest, update_where, ◌≡◌, ◌==◌,
  List, Bool, ◌&&◌, arith, any, Bool-cases, ◌≢◌, Option-cases, find, same_id, find_sound,
  any-false_found, sym, Option, same_id→eq, ok_injective, ◌∙◌, ap, not, >>=-eq-ok, ◌+◌, ==_refl,
  subst,
}

find_latest-none :
    (number : Signing → ℕ) (p q : Signing → Bool) (f : Signing → Signing)
    → ((x : Signing) → p x ≡ true → q x ≡ true)
    → ((x : Signing) → p (f x) ≡ false)
    → (xs : List Signing) → find_latest number p (update_where q f xs) ≡ none
unfolding find_latest update_where
find_latest-none number p q f sub clear [] = refl
find_latest-none number p q f sub clear (x ∷ xs) =
    ground (arith, sub x, clear x, find_latest-none number p q f sub clear xs)

pub invalidate_signings-none :
    (now : Time) (id : Key) (db : Db)
    → latest_valid_signing id (invalidate_signings now id db) ≡ none
unfolding latest_valid_signing invalidate_signings
invalidate_signings-none now id db =
    find_latest-none (λ s. s.version) (λ s. s.case_id == id && s.valid)
      (λ s. s.case_id == id && s.valid) (λ s. record s { valid = false; invalidated_at = some now })
      (λ x h. h) (λ x. ground arith) db.signings

latest_valid_signing_congr :
    (id : Key) (db db' : Db)
    → db'.signings ≡ db.signings
    → latest_valid_signing id db' ≡ latest_valid_signing id db
unfolding latest_valid_signing
latest_valid_signing_congr id db db' e = rw e refl

changed_voids :
    (now : Time) (id : Key) (item : Case) (force : Bool) (body : DraftBody) (current : ℕ) (db : Db)
    → latest_valid_signing id (save_writes now id item force true body current db) ≡ none
unfolding save_writes latest_valid_signing
changed_voids now id item force body current db =
    elim (Bool-cases (same_status item.status awaiting_customer)) [
      | inl e ↦ rw e (invalidate_signings-none now id db)
      | inr e ↦ rw e (invalidate_signings-none now id db)
    ]

unchanged_keeps :
    (now : Time) (id : Key) (item : Case) (force : Bool) (body : DraftBody) (current : ℕ) (db : Db)
    → latest_valid_signing id (save_writes now id item force false body current db)
      ≡ latest_valid_signing id db
unfolding save_writes latest_valid_signing
unchanged_keeps now id item force body current db =
    elim (Bool-cases (same_status item.status awaiting_customer)) [
      | inl e ↦ rw e refl
      | inr e ↦ rw e refl
    ]

-- The digest does not depend on the number of the draft.
version_free :
    (digest_of : RenderInput → Hash) (id : Key) (n m : ℕ) (content : Content) (db : Db)
    → content_digest digest_of id n content db ≡ content_digest digest_of id m content db
unfolding content_digest
version_free digest_of id n m content db = elim (Option-cases (db.cases id)) [
  | inl e ↦ rw e refl
  | inr (c, e) ↦ elim (Option-cases (latest_snapshot id db)) [
    | inl f ↦ rw (e, f) refl
    | inr (s, f) ↦ elim (Option-cases (db.templates c.template_version)) [
      | inl g ↦ rw (e, f, g) refl
      | inr (t, g) ↦ elim (Bool-cases (is_published t)) [
        | inl p ↦ rw (e, f, g, p) refl
        | inr p ↦ rw (e, f, g, p) refl
      ]
    ]
  ]
]

same_prior :
    (digest_of : RenderInput → Hash) (id : Key) (n : ℕ) (d : Draft) (content : Content) (db : Db)
    (prior : Option Hash) (hash : Hash)
    → digest_before digest_of id (some d) db ≡ ok prior
    → content_digest digest_of id n content db ≡ ok hash
    → d.content ≡ content
    → prior ≡ some hash
unfolding digest_before
same_prior digest_of id n d content db prior hash b h same =
    let (old, e, k) = >>=-eq-ok (content_digest digest_of id d.version d.content db) _ b in
    let again : content_digest digest_of id d.version d.content db ≡ ok hash =
      rw same (version_free digest_of id d.version n content db ∙ h) in
    sym (ok_injective k) ∙ ap some (ok_injective (sym e ∙ again))

not_foreign :
    (id : Key) (db : Db) (answers previous : List (Key × Json)) (key : Key)
    → is_foreign_change id db answers previous key ≡ false
    → is_allowed id db key ≡ false
    → key ≢ materials_version_name
    → answer key previous ≡ answer key answers
unfolding is_foreign_change
not_foreign id db answers previous key clean closed_off other =
    let named : (key == materials_version_name) ≡ false = ground (arith, other) in
    let same : same_id (answer key answers) (answer key previous) ≡ true = ground arith in
    sym (same_id→eq (answer key answers) (answer key previous) same)

answer_found :
    (key : Key) (answers : List (Key × Json)) (a : Json)
    → answer key answers ≡ some a
    → (x : Key × Json) × (find (λ y. y.0 == key) answers ≡ some x) × (x.0 ≡ key)
unfolding answer
answer_found key answers a h = elim (Option-cases (find (λ y. y.0 == key) answers)) [
  | inl e ↦ ground arith
  | inr (x, e) ↦ (x, e, ground (arith, find_sound (λ (y : Key × Json). y.0 == key) answers e))
]

answer_kept :
    (id : Key) (db : Db) (answers previous : List (Key × Json)) (key : Key) (a : Json)
    → any (λ x. is_foreign_change id db answers previous x.0) answers ≡ false
    → is_allowed id db key ≡ false
    → key ≢ materials_version_name
    → answer key answers ≡ some a
    → answer key previous ≡ some a
answer_kept id db answers previous key a clean closed_off other h =
    let (x, found, named) = answer_found key answers a h in
    let mine =
      any-false_found (λ (y : Key × Json). y.0 == key)
        (λ (y : Key × Json). is_foreign_change id db answers previous y.0) answers clean found in
    not_foreign id db answers previous key (rw named at mine) closed_off other ∙ h

assert_parts :
    (id : Key) (answers : List (Key × Json)) (latest : Option Draft) (db : Db)
    → assert_supplement_only id answers latest db ≡ ok tt
    → any (λ x. is_foreign_change id db answers (previous_answers latest) x.0) answers ≡ false
unfolding assert_supplement_only
assert_parts id answers latest db h = ground arith

held_sent :
    (key : Key) (o : Option Draft) (d : Draft) (body : DraftBody) (a : Json)
    → o ≡ some d
    → d.content ≡ content_of body
    → answer key (previous_answers o) ≡ some a
    → answer key body.answers ≡ some a
unfolding content_of
held_sent key o d body a found content held =
    let named : answer key (previous_answers (some d)) ≡ some a =
      subst (λ x. answer key (previous_answers x) ≡ some a) found held in
    subst (λ (x : Content). answer key x.answers ≡ some a) content named

supplement_status :
    (item c : Case) (id : Key) (db : Db)
    → db.cases id ≡ some item
    → db.cases id ≡ some c
    → c.status ≡ needs_supplement
    → same_status item.status needs_supplement ≡ true
supplement_status item c id db e f h = ground arith

module _ (digest : Key → Hash) (digest_of : RenderInput → Hash) (now : Time) (token : Key)
    (body : DraftBody) (force : Bool) (db db' : Db) (version : ℕ) (l : Link) where
  -- While a supplement is asked for, a save neither changes nor adds an answer outside the rejected
  -- items: under a key that is of no rejected item and is not `materialsVersion`, an answer that the
  -- latest draft holds afterwards is the one that the latest draft held before.
  pub save_public_draft-answer :
      (c : Case)
      → resolve digest now token db ≡ ok l
      → db.cases l.case_id ≡ some c
      → c.status ≡ needs_supplement
      → save_public_draft digest digest_of now token body force db ≡ ok (version, db')
      → (key : Key) (a : Json) → is_allowed l.case_id db key ≡ false
      → key ≢ materials_version_name
      → answer key (previous_answers (latest_draft l.case_id db')) ≡ some a
      → answer key (previous_answers (latest_draft l.case_id db)) ≡ some a
  save_public_draft-answer c r e status h key a closed_off other held =
      let s = save_public_draft-IsSaved digest digest_of now token body force db db' version h in
      let same : s.link ≡ l = ok_injective (sym s.resolved ∙ r) in
      let here : s.link.case_id ≡ l.case_id = ap (λ (x : Link). x.case_id) same in
      let row : db.cases l.case_id ≡ some s.item = rw here at s.of_link in
      let waiting : same_status s.item.status needs_supplement ≡ true =
        supplement_status s.item c l.case_id db row e status in
      let clean =
        assert_parts s.link.case_id body.answers (latest_draft s.link.case_id db) db
          (s.supplement waiting) in
      let (number, (d, found, numbered, content)) =
        save_public_draft-latest_draft digest digest_of now token body force db db' version l r h in
      let sent : answer key body.answers ≡ some a =
        held_sent key (latest_draft l.case_id db') d body a found content held in
      rw (← here) (
        answer_kept s.link.case_id db body.answers
          (previous_answers (latest_draft s.link.case_id db)) key a clean (rw here closed_off) other
          sent)

  -- A save whose content digest differs from that of the latest draft voids the signings: none of
  -- the case is valid afterwards.
  pub save_public_draft-latest_valid_signing :
      resolve digest now token db ≡ ok l
      → save_public_draft digest digest_of now token body force db ≡ ok (version, db')
      → (before after : Hash)
      → digest_before digest_of l.case_id (latest_draft l.case_id db) db ≡ ok (some before)
      → content_digest digest_of l.case_id version (content_of body) db ≡ ok after
      → before ≢ after
      → latest_valid_signing l.case_id db' ≡ none
  save_public_draft-latest_valid_signing r h before after b f differs =
      let s = save_public_draft-IsSaved digest digest_of now token body force db db' version h in
      let same : s.link ≡ l = ok_injective (sym s.resolved ∙ r) in
      let here : s.link.case_id ≡ l.case_id = ap (λ (x : Link). x.case_id) same in
      let prior : s.prior ≡ some before = ok_injective (sym s.hashed_before ∙ rw here b) in
      let hash : s.hash ≡ after = ok_injective (sym s.hashed ∙ rw (← s.numbered, here) f) in
      let changed : not (same_id s.prior (some s.hash)) ≡ true =
        rw (prior, hash) (ground (arith, differs)) in
      rw (← here, s.written, changed)
        (changed_voids now s.link.case_id s.item force body
          (number_of (latest_draft s.link.case_id db)) db)

  -- A save of the content that the latest draft has keeps the signing: the latest valid signing of the
  -- case is the same afterwards.
  pub save_public_draft-same_content :
      (d : Draft)
      → resolve digest now token db ≡ ok l
      → latest_draft l.case_id db ≡ some d
      → d.content ≡ content_of body
      → save_public_draft digest digest_of now token body force db ≡ ok (version, db')
      → latest_valid_signing l.case_id db' ≡ latest_valid_signing l.case_id db
  save_public_draft-same_content d r e same_content h =
      let s = save_public_draft-IsSaved digest digest_of now token body force db db' version h in
      let same : s.link ≡ l = ok_injective (sym s.resolved ∙ r) in
      let here : s.link.case_id ≡ l.case_id = ap (λ (x : Link). x.case_id) same in
      let found : latest_draft s.link.case_id db ≡ some d = rw here e in
      let prior : s.prior ≡ some s.hash =
        same_prior digest_of s.link.case_id (number_of (latest_draft s.link.case_id db) + 1) d
          (content_of body) db s.prior s.hash (rw (← found) s.hashed_before) s.hashed
          same_content in
      let kept : not (same_id s.prior (some s.hash)) ≡ false = rw (prior, ==_refl s.hash) refl in
      rw (← here, s.written, kept)
        (unchanged_keeps now s.link.case_id s.item force body
          (number_of (latest_draft s.link.case_id db)) db)
