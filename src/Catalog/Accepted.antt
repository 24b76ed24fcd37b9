-- ===== src/Catalog/Accepted.antt =====
-- What `create` and `saveDraft` of apps/api/src/templates/templates.service.ts have checked.
use authorization_document.Templates.Tree.{TemplateAst}
use authorization_document.Catalog.Editor.{
  RawTemplate, TemplateInput, SourceRow, sources_of, repeated_from, repeated, set_size, Field,
  ast_field, versions_field, mode_field, key_or_name, machine_key, mode_of, versions_named, repeats,
  unless, no_fields, invalid_fields, parse_template, validate_editor, accept_template,
}
use authorization_document.Templates.Validator.{validate_template_structure}
use authorization_document.Model.Rows.{Key}
use authorization_document.Base.{
  some, List, [], ◌∷◌, Bool, true, false, ℕ, ◌+◌, ◌==◌, any, ok, ◌≡◌, ◌≤◌, All, length, map, refl,
  inl, inr, Bool-cases, ==_iff, ==_refl, subst, sym, arith, count, filter, ◌||◌, count-none,
  All-always, Option, ◌++◌, not, ◌&&◌, is_blank, is_some, >>=-eq-ok, require, require-eq-ok,
  from_option, from_option-eq-ok, bad_request, template_invalid, ap, ok_injective, ◌∙◌,
}

abbrev pub IsDistinct : List Key → Type 0
IsDistinct [] = Unit
IsDistinct (id ∷ rest) = (any (λ d. d == id) rest ≡ false) × IsDistinct rest

-- The requirement versions that a template names.
pub record IsAccepted (creating : Bool) (raw : RawTemplate) (rows : List SourceRow)
    (input : TemplateInput) : Type 0 where
  pub keyed : (not creating || (machine_key raw.key && not (is_blank raw.name))) ≡ true
  pub given : raw.ast ≡ some input.ast
  pub named : raw.requirement_versions ≡ some input.requirement_versions
  pub some_version : 1 ≤ length input.requirement_versions
  pub apart : IsDistinct input.requirement_versions
  pub known : All (λ id. any (λ (r : SourceRow). r.id == id) rows ≡ true) input.requirement_versions
  pub sound :
      validate_template_structure input.ast
        (map (λ r. r.source) (sources_of input.requirement_versions rows))
      ≡ ok tt

repeated-none_seen :
    (seen : List Key) (i : ℕ) (ids : List Key) (x : Key)
    → repeated_from seen i ids ≡ []
    → any (λ s. s == x) seen ≡ true
    → any (λ d. d == x) ids ≡ false
unfolding repeated_from any
repeated-none_seen seen i [] x h k = refl
repeated-none_seen seen i (id ∷ rest) x h k = elim (Bool-cases (any (λ s. s == id) seen)) [
  | inl e ↦
      let f : repeated i ∷ repeated_from (id ∷ seen) (i + 1) rest ≡ [] = rw e at h in absurd (cc)
  | inr e ↦
      let h' : repeated_from (id ∷ seen) (i + 1) rest ≡ [] = rw e at h in
      elim (Bool-cases (id == x)) [
        | inl same ↦
            let eq : id ≡ x = (==_iff id x).0 same in
            let bad : any (λ s. s == id) seen ≡ true =
              subst (λ y. any (λ s. s == y) seen ≡ true) (sym eq) k in
            absurd (cc)
        | inr other ↦
            ground
              (arith, other, repeated-none_seen (id ∷ seen) (i + 1) rest x h' (ground (arith, k)))
      ]
]

repeated-none-IsDistinct :
    (seen : List Key) (i : ℕ) (ids : List Key) → repeated_from seen i ids ≡ [] → IsDistinct ids
unfolding repeated_from any
repeated-none-IsDistinct seen i [] h = tt
repeated-none-IsDistinct seen i (id ∷ rest) h = elim (Bool-cases (any (λ s. s == id) seen)) [
  | inl e ↦
      let f : repeated i ∷ repeated_from (id ∷ seen) (i + 1) rest ≡ [] = rw e at h in absurd (cc)
  | inr e ↦
      let h' : repeated_from (id ∷ seen) (i + 1) rest ≡ [] = rw e at h in
      (
        repeated-none_seen (id ∷ seen) (i + 1) rest id h' (rw (==_refl id) refl),
        repeated-none-IsDistinct (id ∷ seen) (i + 1) rest h',
      )
]

set_size-length : (ids : List Key) → IsDistinct ids → set_size ids ≡ length ids
unfolding set_size
set_size-length [] h = refl
set_size-length (id ∷ rest) h = ground (arith, h.0, set_size-length rest h.1)

-- Rows with an identifier among some are as many as these only where each of them has its row.
module _ (rows : List SourceRow)
    (unique : (k : Key) → count (λ (r : SourceRow). r.id == k) rows ≤ 1) where
  count_split :
      (t u : SourceRow → Bool) (xs : List SourceRow)
      → count (λ r. t r || u r) xs ≤ count t xs + count u xs
  unfolding count
  count_split t u [] = omega arith
  count_split t u (x ∷ xs) = ground (arith, count_split t u xs)

  counted_any : (t : SourceRow → Bool) (xs : List SourceRow) → 1 ≤ count t xs → any t xs ≡ true
  unfolding count any
  counted_any t [] k = ground arith
  counted_any t (x ∷ xs) k = ground (arith, counted_any t xs)

  named_le : (ids : List Key) → count (λ r. any (λ id. r.id == id) ids) rows ≤ length ids
  unfolding any
  named_le [] = omega (arith, count-none (λ _. false) rows (All-always _ (λ _. refl) rows))
  named_le (id ∷ rest) = omega (
    arith,
    count_split (λ r. r.id == id) (λ r. any (λ d. r.id == d) rest) rows,
    unique id,
    named_le rest,
  )

  all_named :
      (ids : List Key)
      → count (λ r. any (λ id. r.id == id) ids) rows ≡ length ids
      → All (λ id. any (λ (r : SourceRow). r.id == id) rows ≡ true) ids
  unfolding any
  all_named [] h = tt
  all_named (id ∷ rest) h =
      let split = count_split (λ r. r.id == id) (λ r. any (λ d. r.id == d) rest) rows in
      (
        counted_any (λ r. r.id == id) rows (omega (arith, split, unique id, named_le rest, h)),
        all_named rest (omega (arith, split, unique id, named_le rest, h)),
      )

length-filter : {A : Type 0} (p : A → Bool) (xs : List A) → length (filter p xs) ≡ count p xs
unfolding filter count
length-filter p [] = refl
length-filter p (x ∷ xs) = ground (arith, length-filter p xs)

append-none : {A : Type 0} (xs ys : List A) → xs ++ ys ≡ [] → (xs ≡ []) × (ys ≡ [])
append-none [] ys h = (refl, h)
append-none (x ∷ xs) ys h = absurd (cc)

no_fields_lem : (fields : List Field) → no_fields fields ≡ true → fields ≡ []
no_fields_lem [] h = refl
no_fields_lem (field ∷ rest) h = absurd (cc)

unless_lem : (b : Bool) (field : Field) → unless b field ≡ [] → b ≡ true
unless_lem true field h = refl
unless_lem false field h = absurd (cc)

named-some_version :
    (o : Option (List Key)) (ids : List Key)
    → versions_named o ≡ true
    → o ≡ some ids
    → 1 ≤ length ids
named-some_version o [] h e = let f : versions_named (some []) ≡ true = rw e at h in absurd (cc)
named-some_version o (id ∷ rest) h e = omega arith

fields-none :
    (creating : Bool) (raw : RawTemplate)
    → invalid_fields creating raw ≡ []
    → ((not creating || (machine_key raw.key && not (is_blank raw.name))) ≡ true)
      × (versions_named raw.requirement_versions ≡ true)
      × (repeats raw.requirement_versions ≡ [])
unfolding invalid_fields
fields-none creating raw h =
    let keyed = not creating || (machine_key raw.key && not (is_blank raw.name)) in
    let (h₁, fresh) = append-none _ (repeats raw.requirement_versions) h in
    let (h₂, k) = append-none _ (unless keyed key_or_name) h₁ in
    let (h₃, m) = append-none _ (unless (is_some (mode_of raw.mode)) mode_field) h₂ in
    let (a, v) =
      append-none (unless (is_some raw.ast) ast_field)
        (unless (versions_named raw.requirement_versions) versions_field) h₃ in
    (unless_lem keyed key_or_name k, unless_lem _ versions_field v, fresh)

-- What a body that parses is like.
record Parsed (creating : Bool) (raw : RawTemplate) (input : TemplateInput) : Type 0 where
  given : raw.ast ≡ some input.ast
  named : raw.requirement_versions ≡ some input.requirement_versions
  valid : invalid_fields creating raw ≡ []

parse_template-Parsed :
    (creating : Bool) (raw : RawTemplate) (input : TemplateInput)
    → parse_template creating raw ≡ ok input
    → Parsed creating raw input
unfolding parse_template
parse_template-Parsed creating raw input h =
    let (u, e, h₁) =
      >>=-eq-ok (require (no_fields (invalid_fields creating raw)) (bad_request template_invalid)) _
        h in
    let (ast, e₁, h₂) = >>=-eq-ok (from_option (bad_request template_invalid) raw.ast) _ h₁ in
    let (ids, e₂, h₃) =
      >>=-eq-ok (from_option (bad_request template_invalid) raw.requirement_versions) _ h₂ in
    let (mode, e₃, h₄) =
      >>=-eq-ok (from_option (bad_request template_invalid) (mode_of raw.mode)) _ h₃ in
    record {
      given = from_option-eq-ok _ raw.ast e₁ ∙ ap (λ x. some x.ast) (ok_injective h₄);
      named =
          from_option-eq-ok _ raw.requirement_versions e₂
          ∙ ap (λ x. some x.requirement_versions) (ok_injective h₄);
      valid = no_fields_lem _ (require-eq-ok _ _ e);
    }

module _ (creating : Bool) (raw : RawTemplate) (rows : List SourceRow) (input : TemplateInput) where
  validate_editor-eq-ok :
      (ast : TemplateAst) (ids : List Key)
      → validate_editor ast ids rows ≡ ok tt
      → (length (sources_of ids rows) ≡ set_size ids)
        × (validate_template_structure ast (map (λ r. r.source) (sources_of ids rows)) ≡ ok tt)
  unfolding validate_editor
  validate_editor-eq-ok ast ids h =
      let (u, e, h₁) =
        >>=-eq-ok
          (require (length (sources_of ids rows) == set_size ids) (bad_request template_invalid)) _
          h in
      ((==_iff _ _).0 (require-eq-ok _ _ e), h₁)

  -- A template that is accepted, for a new one or for a draft, names at least one requirement
  -- version, none of them twice and each of them one that is there, and passes the check of its
  -- structure against them; one that is created has a machine key and a name that is not blank.
  pub accept_template-IsAccepted :
      ((k : Key) → count (λ (r : SourceRow). r.id == k) rows ≤ 1)
      → accept_template creating raw rows ≡ ok input
      → IsAccepted creating raw rows input
  unfolding accept_template sources_of
  accept_template-IsAccepted unique h =
      let (input', e, h₁) = >>=-eq-ok (parse_template creating raw) _ h in
      let (u, e₁, h₂) =
        >>=-eq-ok (validate_editor input'.ast input'.requirement_versions rows) _ h₁ in
      subst (IsAccepted creating raw rows) (ok_injective h₂) (
        accepted input' (parse_template-Parsed creating raw input' e)
          (validate_editor-eq-ok input'.ast input'.requirement_versions e₁))
    where
      accepted :
          (i : TemplateInput)
          → Parsed creating raw i
          → (length (sources_of i.requirement_versions rows) ≡ set_size i.requirement_versions)
            × (validate_template_structure i.ast
                  (map (λ r. r.source) (sources_of i.requirement_versions rows))
                ≡ ok tt)
          → IsAccepted creating raw rows i
      accepted i p (size, sound) =
          let ids = i.requirement_versions in
          let (keyed, listed, fresh) = fields-none creating raw p.valid in
          let apart = repeated-none-IsDistinct [] 0 ids (ap repeats (sym p.named) ∙ fresh) in
          record {
            keyed = keyed;
            given = p.given;
            named = p.named;
            some_version = named-some_version _ ids listed p.named;
            apart = apart;
            known = all_named rows unique ids (
                sym (length-filter (λ r. any (λ id. r.id == id) ids) rows)
                ∙ (size ∙ set_size-length ids apart));
            sound = sound;
          }
