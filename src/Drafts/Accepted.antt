-- ===== src/Drafts/Accepted.antt =====
-- When a submission goes through.
use authorization_document.Review.Confirm.{latest_valid_signing}
use authorization_document.Drafts.Submit.{
  Verification, verify_submission, submit_verified, valid_signing, submit_writes, target_of,
  version_by_id, is_current, is_unchanged,
}
use authorization_document.Links.Access.{resolve, consume, is_open}
use authorization_document.Drafts.Content.{RenderInput, latest_draft, content_digest}
use authorization_document.Model.Db.{Db, audit_as}
use authorization_document.Model.Rows.{
  Key, Hash, Time, Link, Case, Draft, Signing, FileVersion, case_formally_submitted, TargetType,
}
use authorization_document.Model.Status.{customer_actor, is_editable, same_status_refl, same_status}
use authorization_document.Base.{
  ok, some, true, refl, ◌≡◌, ==_refl, >>=-ok, Failure, from_option, arith, conflict, not_found,
  changed_during_verification, case_missing, require, from_option-ok, ◌==◌, bad_request, require-ok,
  status_not_allowed, draft_missing, signing_stale, find, count, ◌≤◌, find_key, found_counts, ◌&&◌,
  update_where,
}

module _ (digest : Key → Hash) (digest_of : RenderInput → Hash) (now : Time) (token : Key) (db : Db)
    (l : Link) (item : Case) (saved : Draft) (hash : Hash) (s : Signing) (p : FileVersion) where
  -- What the first transaction reads, and that it is in order.
  pub record IsReady : Type 0 where
    pub resolved : resolve digest now token db ≡ ok l
    pub of_link : db.cases l.case_id ≡ some item
    pub editable : is_editable item.status ≡ true
    pub drafted : latest_draft l.case_id db ≡ some saved
    pub hashed : content_digest digest_of l.case_id saved.version saved.content db ≡ ok hash
    pub latest : latest_valid_signing l.case_id db ≡ some s
    pub previewed : version_by_id s.preview db ≡ some p
    pub current : is_current s.version hash s p ≡ true

  abbrev pub verification_of : Verification
  verification_of = record {
    case_id = l.case_id;
    status = item.status;
    draft_version = saved.version;
    digest = hash;
    signing_id = s.id;
    signing_version = s.version;
    preview_id = p.id;
    preview_key = p.storage_key;
    preview_sha = s.preview_sha;
  }

  pub verify_submission_ready :
      IsReady
      → verify_submission digest digest_of now token
          (record { consent = true; declaration = true; signing_version = s.version })
          db
        ≡ ok verification_of
  unfolding verify_submission
  verify_submission_ready r = >>=-ok (resolve digest now token db) _ r.resolved (
      >>=-ok (from_option (not_found case_missing) (db.cases l.case_id)) _
        (from_option-ok _ (db.cases l.case_id) r.of_link)
        (>>=-ok (require (is_editable item.status) (bad_request status_not_allowed)) _
          (require-ok (is_editable item.status) _ r.editable)
          (>>=-ok (from_option (bad_request draft_missing) (latest_draft l.case_id db)) _
            (from_option-ok _ (latest_draft l.case_id db) r.drafted)
            (>>=-ok (content_digest digest_of l.case_id saved.version saved.content db) _ r.hashed (
              >>=-ok (from_option (bad_request signing_stale) (latest_valid_signing l.case_id db)) _
                (from_option-ok _ (latest_valid_signing l.case_id db) r.latest)
                (>>=-ok (from_option (bad_request signing_stale) (version_by_id s.preview db)) _
                  (from_option-ok _ (version_by_id s.preview db) r.previewed)
                  (>>=-ok (require (is_current s.version hash s p) (bad_request signing_stale)) _
                    (require-ok (is_current s.version hash s p) _ r.current) refl)))))))

  unchanged : IsReady → p.sha256 ≡ s.preview_sha → is_unchanged verification_of hash s p ≡ true
  unchanged r same = ground (arith, r.current)

  -- The second transaction, where nothing has changed.
  pub submit_verified_ready :
      IsReady
      → valid_signing s.id l.case_id db ≡ some s
      → p.sha256 ≡ s.preview_sha
      → (used : Db) → consume now l (submit_writes l.case_id item db) ≡ ok used
      → submit_verified digest digest_of now token verification_of db
        ≡ ok (
          target_of item.status,
          audit_as customer_actor case_formally_submitted TargetType.business_case l.case_id used,
        )
  unfolding submit_verified
  submit_verified_ready r valid same used e =
      let failure : Failure = conflict changed_during_verification in
      >>=-ok (resolve digest now token db) _ r.resolved (
        >>=-ok (require (l.case_id == l.case_id) failure) _
          (require-ok (l.case_id == l.case_id) failure (==_refl l.case_id))
          (>>=-ok (from_option failure (db.cases l.case_id)) _
            (from_option-ok failure (db.cases l.case_id) r.of_link)
            (>>=-ok (require (same_status item.status item.status) failure) _
              (require-ok (same_status item.status item.status) failure
                (same_status_refl item.status))
              (>>=-ok (from_option failure (latest_draft l.case_id db)) _
                (from_option-ok failure (latest_draft l.case_id db) r.drafted)
                (>>=-ok (require (saved.version == saved.version) failure) _
                  (require-ok (saved.version == saved.version) failure (==_refl saved.version))
                  (>>=-ok (content_digest digest_of l.case_id saved.version saved.content db) _
                    r.hashed
                    (>>=-ok (require (hash == hash) failure) _
                      (require-ok (hash == hash) failure (==_refl hash))
                      (>>=-ok (from_option failure (valid_signing s.id l.case_id db)) _
                        (from_option-ok failure (valid_signing s.id l.case_id db) valid)
                        (>>=-ok (from_option failure (version_by_id s.preview db)) _
                          (from_option-ok failure (version_by_id s.preview db) r.previewed)
                          (>>=-ok (require (is_unchanged verification_of hash s p) failure) _
                            (require-ok (is_unchanged verification_of hash s p) failure
                              (unchanged r same))
                            (>>=-ok (consume now l (submit_writes l.case_id item db)) _ e
                              refl)))))))))))

-- A link that is found and open is consumed, where no other has its identifier.
pub consume_open :
    (now : Time) (hash : Hash) (l : Link) (db : Db)
    → find (λ x. x.hash == hash) db.links ≡ some l
    → is_open now l ≡ true
    → count (λ x. x.id == l.id) db.links ≤ 1
    → (used : Db) × (consume now l db ≡ ok used)
unfolding consume
consume_open now hash l db found opened unique =
    let by_id =
      find_key (λ x. x.hash == hash) (λ x. x.id == l.id) db.links found (==_refl l.id) unique in
    let one =
      found_counts (λ (x : Link). x.id == l.id) (λ (x : Link). x.id == l.id && is_open now x)
        (λ x h. ground arith) db.links by_id unique (ground (arith, ==_refl l.id)) in
    (
      record db {
        links =
            update_where (λ x. x.id == l.id && is_open now x)
              (λ x. record x { consumed_at = some now }) db.links;
      },
      rw one refl,
    )
