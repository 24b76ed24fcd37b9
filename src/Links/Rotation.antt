-- ===== src/Links/Rotation.antt =====
-- After `submitDraft`, `replaceLink` and `close`, which tokens of the case still resolve.
use authorization_document.Base.{
  refl, count, ◌≡◌, find, ◌≤◌, ok, ◌&&◌, none, true, ◌∷◌, arith, Bool-cases, ◌==◌, some, inl, inr,
  false, count_found, ◌<◌,
}
use authorization_document.Model.Status.{is_terminal}
use authorization_document.Model.Rows.{Key, Time, Hash, Link, Case}
use authorization_document.Model.Db.{Db}
use authorization_document.Links.Access.{resolve, create_link, of_case, is_open}
use authorization_document.Links.Resolution.{resolve-IsAdmitted, resolve_accepted}

-- At most one link of the case is open.
abbrev pub AtMostOneOpen : Time → Key → Db → Type 0
AtMostOneOpen now id db = count (λ l. of_case id l && is_open now l) db.links ≤ 1

-- Every link of the case that resolves from `now` on is the one with this hash.
abbrev pub IsSoleToken : (Key → Hash) → Time → Key → Hash → Db → Type 0
IsSoleToken digest now id hash db =
    (later : Time) (t : Key) (l : Link)
    → now ≤ later
    → resolve digest later t db ≡ ok l
    → l.case_id ≡ id
    → l.hash ≡ hash

-- A link that is open was open before.
open_earlier :
    (now later : Time) (l : Link) → now ≤ later → is_open later l ≡ true → is_open now l ≡ true
open_earlier now later l le h = ground arith

-- The table after `create_link`.
pub create_link-eq-ok :
    (id case_id : Key) (hash : Hash) (expires : Time) (db db' : Db)
    → create_link id case_id hash expires db ≡ ok db'
    → (db'.links
        ≡ record {
          id = id;
          case_id = case_id;
          hash = hash;
          expires_at = expires;
          disabled_at = none;
          consumed_at = none;
          completed_at = none;
        }
          ∷ db.links)
      × (db'.cases ≡ db.cases)
unfolding create_link
create_link-eq-ok id case_id hash expires db db' h = ground arith

module _ (digest : Key → Hash) (now expires : Time) (link_id token id : Key) (db db' : Db) where
  -- With no other open link, the created one is the only token of its case.
  pub create_link-IsSoleToken :
      count (λ l. of_case id l && is_open now l) db.links ≡ 0
      → create_link link_id id (digest token) expires db ≡ ok db'
      → IsSoleToken digest now id (digest token) db'
  unfolding find
  create_link-IsSoleToken none_open h later t l le r same =
      let a = resolve-IsAdmitted digest later t db' l r in
      let (links, cases) = create_link-eq-ok link_id id (digest token) expires db db' h in
      let found = rw links at a.found in
      elim (Bool-cases (digest token == digest t)) [
        | inl e ↦ let it : some _ ≡ some l = rw e at found in ground arith
        | inr e ↦
            let rest : find (λ x. x.hash == digest t) db.links ≡ some l = rw e at found in
            absurd (
              omega (
                arith,
                count_found (λ x. x.hash == digest t) (λ x. of_case id x && is_open now x) db.links
                    rest (ground (arith, open_earlier now later l le a.open_now)),
              ))
      ]

  -- The created link resolves until it expires.
  pub create_link-resolve :
      (c : Case)
      → db.cases id ≡ some c
      → is_terminal c.status ≡ false
      → create_link link_id id (digest token) expires db ≡ ok db'
      → (later : Time) → later < expires
      → (l : Link) × (resolve digest later token db' ≡ ok l) × (l.case_id ≡ id)
  unfolding find
  create_link-resolve c e t h later lt =
      let (links, cases) = create_link-eq-ok link_id id (digest token) expires db db' h in
      (
        record {
          id = link_id;
          case_id = id;
          hash = digest token;
          expires_at = expires;
          disabled_at = none;
          consumed_at = none;
          completed_at = none;
        },
        resolve_accepted digest later token db' {c = c} (rw links (ground arith)) (rw cases e)
            (ground arith) t,
        refl,
      )
