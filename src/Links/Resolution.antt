-- ===== src/Links/Resolution.antt =====
-- What a token that resolves stands for, and when no token resolves any more.
use authorization_document.Base.{
  ◌≡◌, refl, true, false, ◌&&◌, some, ◌==◌, find, update_where, arith, inl, inr, find_updated, ok,
  err, not_found, link_unavailable, from_option, >>=-eq-ok, ◌⊎◌,
}
use authorization_document.Model.Status.{is_terminal}
use authorization_document.Model.Rows.{Key, Hash, Time, Case, Link}
use authorization_document.Model.Db.{Db}
use authorization_document.Links.Access.{is_open, resolve, consume}

module _ (digest : Key → Hash) (now : Time) (token : Key) (db : Db) where
  -- What `resolve` has checked.
  pub record IsAdmitted (l : Link) : Type 0 where
    pub case : Case
    pub found : find (λ x. x.hash == digest token) db.links ≡ some l
    pub of_link : db.cases l.case_id ≡ some case
    pub open_now : is_open now l ≡ true
    pub not_terminal : is_terminal case.status ≡ false

  pub resolve-IsAdmitted : (l : Link) → resolve digest now token db ≡ ok l → IsAdmitted l
  unfolding resolve
  resolve-IsAdmitted l h =
      let (x, f, g) = >>=-eq-ok (from_option _ (find (λ x. x.hash == digest token) db.links)) _ h in
      let (c, e, k) = >>=-eq-ok (from_option _ (db.cases x.case_id)) _ g in
      let same : x ≡ l = ground arith in
      record {
        case = c;
        found = ground arith;
        of_link = ground arith;
        open_now = ground arith;
        not_terminal = ground arith;
      }

  -- A link that is not open, or whose case has ended, is refused.
  pub resolve_refused :
      {x : Link} {c : Case}
      → find (λ l. l.hash == digest token) db.links ≡ some x
      → db.cases x.case_id ≡ some c
      → (is_open now x ≡ false) ⊎ (is_terminal c.status ≡ true)
      → resolve digest now token db ≡ err (not_found link_unavailable)
  unfolding resolve
  resolve_refused {x} {c} f e (inl h) = rw (f, e) (ground arith)
  resolve_refused {x} {c} f e (inr h) = rw (f, e) (ground arith)

  -- One that is open, of a case that has not ended, is admitted.
  pub resolve_accepted :
      {x : Link} {c : Case}
      → find (λ l. l.hash == digest token) db.links ≡ some x
      → db.cases x.case_id ≡ some c
      → is_open now x ≡ true
      → is_terminal c.status ≡ false
      → resolve digest now token db ≡ ok x
  unfolding resolve
  resolve_accepted {x} {c} f e h t = rw (f, e) (ground arith)

-- `resolve` reads the links and the cases alone.
pub resolve_congr :
    (digest : Key → Hash) (now : Time) (token : Key) (db db' : Db)
    → db'.links ≡ db.links
    → db'.cases ≡ db.cases
    → resolve digest now token db' ≡ resolve digest now token db
unfolding resolve
resolve_congr digest now token db db' p q = rw (p, q)

pub consume-eq-ok :
    (now : Time) (l : Link) (db db' : Db)
    → consume now l db ≡ ok db'
    → (db'.links
        ≡ update_where
            (λ x. x.id == l.id && is_open now x)
            (λ x. record x { consumed_at = some now })
            db.links)
      × (db'.cases ≡ db.cases)
unfolding consume
consume-eq-ok now l db db' h = ground arith

module _ (digest : Key → Hash) (now later : Time) (token : Key) (db db' : Db) (l : Link) where
  -- A link resolves at most once: when a token has resolved and its link has been consumed, the
  -- token is refused with `LINK_UNAVAILABLE` at every time.
  pub consume-resolve :
      resolve digest now token db ≡ ok l
      → consume now l db ≡ ok db'
      → resolve digest later token db' ≡ err (not_found link_unavailable)
  consume-resolve h k =
      let a = resolve-IsAdmitted digest now token db l h in
      let (links, cases) = consume-eq-ok now l db db' k in
      let found =
        find_updated (λ x. x.id == l.id && is_open now x) (λ x. record x { consumed_at = some now })
          (λ x. x.hash == digest token) (λ x. refl) db.links a.found in
      resolve_refused digest later token db' {x = record l { consumed_at = some now }} {c = a.case}
        (ground (arith, a.open_now)) (rw cases a.of_link) (inl (ground arith))
