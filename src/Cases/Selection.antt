-- ===== src/Cases/Selection.antt =====
-- `resolveTemplate` and `resolveRequirements` of apps/api/src/cases/case.service.ts: what a new case
-- is made from.
use authorization_document.Model.Rows.{Key, Time}
use authorization_document.Base.{
  refl, inl, inr, [], ◌∷◌, none, some, false, true, ◌>>◌, none, some, true, false, refl, [], ◌∷◌,
  inl, inr, ok, Bool, List, Option, any, Result, ◌==◌, if◌then◌else◌, ◌≡◌, find, ◌&&◌, ◌||◌, filter,
  arith, from_option, require, Bool-cases, bad_request, ltb, catalog_empty, length, find_latest,
  requirement_none, ==_refl, >>=-eq-ok, ok_injective,
}

-- A row of `templateVersionRequirement` with its requirement's key, in the order of `position`.
pub record Configured : Type 0 where
  pub requirement_version : Key
  pub key : Key

-- A template version with the key of its template.
pub record TemplateRow : Type 0 where
  pub id : Key
  pub key : Key
  pub published : Bool
  pub published_at : Time

-- The template that was published last.
unfoldable pub last_published : List TemplateRow → Result TemplateRow
last_published rows =
    from_option (bad_request catalog_empty)
      (find_latest (λ t. t.published_at) (λ t. t.published) rows)

-- The named template, else the one that was published last.
unfoldable pub resolve_template : Key → List TemplateRow → Result TemplateRow
unfolding last_published
resolve_template reference rows =
    elim (find (λ t. t.published && (t.id == reference || t.key == reference)) rows) [
      | some t ↦ ok t
      | none ↦ last_published rows
    ]

-- Without references every configured item is requested.
unfoldable pub is_requested : Option (List Key) → Configured → Bool
is_requested none c = true
is_requested (some references) c =
    any (λ r. r == c.requirement_version) references || any (λ r. r == c.key) references

unfoldable pub has_item : Key → List Configured → Bool
has_item id rows = any (λ c. c.requirement_version == id) rows

-- The mandatory item is put in front where it was not selected.
abbrev pub with_mandatory : Option Configured → List Configured → List Configured
with_mandatory none selected = selected
with_mandatory (some m) selected =
    if has_item m.requirement_version selected then selected else m ∷ selected

-- `[...new Set(…)]` keeps the first of equal entries.
unfoldable pub distinct_ids : List Key → List Configured → List Key
unfolding has_item
distinct_ids seen [] = []
distinct_ids seen (c ∷ rest) =
    let id = c.requirement_version in
    let again = distinct_ids seen rest in
    let fresh = distinct_ids (id ∷ seen) rest in
    if any (λ s. s == id) seen then again else id ∷ fresh

-- `letter` is the key `authorization_letter`.
unfoldable pub resolve_requirements : Key → Option (List Key) → List Configured → Result (List Key)
unfolding is_requested has_item distinct_ids
resolve_requirements letter references configured =
    let selected =
      with_mandatory (find (λ c. c.key == letter) configured)
        (filter (is_requested references) configured) in
    do
      require (ltb 0 (length selected)) (bad_request requirement_none)
      ok (distinct_ids [] selected)

any-distinct_ids :
    (id : Key) (seen : List Key) (rows : List Configured)
    → has_item id rows ≡ true
    → any (λ s. s == id) seen ≡ false
    → any (λ s. s == id) (distinct_ids seen rows) ≡ true
unfolding has_item distinct_ids any
any-distinct_ids id seen [] h f = ground arith
any-distinct_ids id seen (c ∷ rest) h f = elim (Bool-cases (c.requirement_version == id)) [
  | inl e ↦
      let same : c.requirement_version ≡ id = ground arith in
      let unseen : any (λ s. s == c.requirement_version) seen ≡ false = rw same f in
      rw (unseen, e) refl
  | inr e ↦
      let rest_has : has_item id rest ≡ true = rw e at h in
      elim (Bool-cases (any (λ s. s == c.requirement_version) seen)) [
        | inl t ↦ rw t (any-distinct_ids id seen rest rest_has f)
        | inr u ↦
            rw (u, e) (any-distinct_ids id (c.requirement_version ∷ seen) rest rest_has (rw e f))
      ]
]

with_mandatory-has_item :
    (m : Configured) (selected : List Configured)
    → has_item m.requirement_version (with_mandatory (some m) selected) ≡ true
unfolding has_item any
with_mandatory-has_item m selected = elim (Bool-cases (has_item m.requirement_version selected)) [
  | inl e ↦ rw e e
  | inr e ↦ rw (e, ==_refl m.requirement_version) refl
]

-- Where the template has an authorization letter, every selection of its requirements that
-- succeeds has it, whatever is requested.
pub resolve_requirements-has_item :
    (letter : Key) (references : Option (List Key)) (configured : List Configured) (m : Configured)
    (ids : List Key)
    → find (λ c. c.key == letter) configured ≡ some m
    → resolve_requirements letter references configured ≡ ok ids
    → any (λ s. s == m.requirement_version) ids ≡ true
unfolding resolve_requirements any
resolve_requirements-has_item letter references configured m ids e h =
    let selected = with_mandatory (some m) (filter (is_requested references) configured) in
    let k : (require (ltb 0 (length selected)) (bad_request requirement_none)
          >> ok (distinct_ids [] selected))
        ≡ ok ids =
      rw e at h in
    let (u, some_left, done) =
      >>=-eq-ok (require (ltb 0 (length selected)) (bad_request requirement_none)) _ k in
    rw (← ok_injective done) (
      any-distinct_ids m.requirement_version [] selected
        (with_mandatory-has_item m (filter (is_requested references) configured)) refl)
