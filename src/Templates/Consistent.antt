-- ===== src/Templates/Consistent.antt =====
-- What a definition without an issue is like.
use authorization_document.Templates.Semantics.{
  between, all_distinct, options_fit, validate_semantics, default_consistent, is_select, values_of,
  validation_consistent, upload_limits_fit, default_fits, has_some, types_allowed,
}
use authorization_document.Templates.Visited.{HasDistinct}
use authorization_document.Templates.Definition.{
  string_value, Definition, Validation, ChoiceOption, is_upload, text_type, long_text,
  single_select, multi_select, date, number_type, file, image_type, RequirementType, DefaultValue,
  string_list, number_value, other_value,
}
use authorization_document.Base.{
  ok, none, some, true, refl, [], ◌∷◌, ℕ, Text, ◌≡◌, List, Option, Bool, ◌≤◌, ◌*◌, map, arith,
  and-eq-true, >>=-eq-ok, is_among, not, require, bad_request, ◌||◌, requirement_invalid,
  require-eq-ok, inl, inr, false, Option-cases, ◌&&◌, All, length, not-any-All, ap,
}

-- A file or an image: no default, no options, and limits within the system's.
pub record IsUploadItem (d : Definition) : Type 0 where
  pub no_default : d.default_value ≡ none
  pub no_options : d.options ≡ none
  pub limits : Validation
  pub limited : d.validation ≡ some limits
  pub files : ℕ
  pub max_files : limits.max_files ≡ some files
  pub some_file : 1 ≤ files
  pub few_files : files ≤ 10
  pub bytes : ℕ
  pub max_bytes : limits.max_file_size_bytes ≡ some bytes
  pub within : bytes ≤ 20 * 1024 * 1024

-- The default of a selection: of a single one a value of an option, of a multiple one a list of
-- such values.
abbrev pub IsChoice : RequirementType → List Text → Option DefaultValue → Type 0
IsChoice type values none = Unit
IsChoice single_select values (some (string_value v)) = is_among values v ≡ true
IsChoice multi_select values (some (string_list vs)) = All (λ v. is_among values v ≡ true) vs
IsChoice type values (some v) = false ≡ true

-- A selection: options that are apart, and a default among them, where there is one.
pub record IsSelection (d : Definition) : Type 0 where
  pub options : List ChoiceOption
  pub given : d.options ≡ some options
  pub some_option : 1 ≤ length options
  pub apart : HasDistinct (map (λ o. o.value) options)
  pub chosen : IsChoice d.type (map (λ o. o.value) options) d.default_value

between-limits :
    (limit : ℕ) (o : Option ℕ)
    → between limit o ≡ true
    → (n : ℕ) × (o ≡ some n) × (1 ≤ n) × (n ≤ limit)
between-limits limit none h = absurd (cc)
between-limits limit (some n) h = (n, refl, ground arith, ground arith)

all_distinct-HasDistinct : (vs : List Text) → all_distinct vs ≡ true → HasDistinct vs
unfolding all_distinct
all_distinct-HasDistinct [] h = tt
all_distinct-HasDistinct (v ∷ vs) h =
    let (l, r) = and-eq-true (not (is_among vs v)) (all_distinct vs) h in
    (ground arith, all_distinct-HasDistinct vs r)

module _ (compile : Text → Option (Text → Bool)) (d : Definition) where
  -- The five tests of a definition that passes.
  record Passes : Type 0 where
    options_ok : options_fit d ≡ true
    default_ok : default_consistent compile d d.default_value ≡ true
    select_ok : (not (is_select d.type) || all_distinct (values_of d.options)) ≡ true
    upload_ok : (not (is_upload d.type) || upload_limits_fit d.type d.validation) ≡ true

  validate-Passes : validate_semantics compile d ≡ ok tt → Passes
  unfolding validate_semantics
  validate-Passes h =
      let (u, e, h₁) = >>=-eq-ok (require (options_fit d) (bad_request requirement_invalid)) _ h in
      let (u₁, e₁, h₂) =
        >>=-eq-ok
          (require (default_consistent compile d d.default_value) (bad_request requirement_invalid))
          _ h₁ in
      let (u₂, e₂, h₃) =
        >>=-eq-ok (require (validation_consistent compile d) (bad_request requirement_invalid)) _
          h₂ in
      let (u₃, e₃, h₄) =
        >>=-eq-ok
          (require (not (is_select d.type) || all_distinct (values_of d.options))
            (bad_request requirement_invalid))
          _ h₃ in
      record {
        options_ok = require-eq-ok (options_fit d) (bad_request requirement_invalid) e;
        default_ok =
            require-eq-ok (default_consistent compile d d.default_value)
              (bad_request requirement_invalid) e₁;
        select_ok =
            require-eq-ok (not (is_select d.type) || all_distinct (values_of d.options))
              (bad_request requirement_invalid) e₃;
        upload_ok =
            require-eq-ok (not (is_upload d.type) || upload_limits_fit d.type d.validation)
              (bad_request requirement_invalid) h₄;
      }

default_fits-upload :
    (type : RequirementType) (options : List Text) (v : DefaultValue)
    → is_upload type ≡ true
    → default_fits type options v ≡ false
unfolding default_fits
default_fits-upload file options v h = refl
default_fits-upload image_type options v h = refl
default_fits-upload text_type options v h = cc
default_fits-upload long_text options v h = cc
default_fits-upload single_select options v h = cc
default_fits-upload multi_select options v h = cc
default_fits-upload date options v h = cc
default_fits-upload number_type options v h = cc

not_select_upload : (type : RequirementType) → is_upload type ≡ true → is_select type ≡ false
not_select_upload file h = refl
not_select_upload image_type h = refl
not_select_upload text_type h = cc
not_select_upload long_text h = cc
not_select_upload single_select h = cc
not_select_upload multi_select h = cc
not_select_upload date h = cc
not_select_upload number_type h = cc

fits-IsChoice :
    (type : RequirementType) (options : List Text) (v : DefaultValue)
    → is_select type ≡ true
    → default_fits type options v ≡ true
    → IsChoice type options (some v)
unfolding default_fits
fits-IsChoice single_select options (string_value v) s h = h
fits-IsChoice single_select options (string_list vs) s h = h
fits-IsChoice single_select options (number_value n) s h = h
fits-IsChoice single_select options other_value s h = h
fits-IsChoice multi_select options (string_value v) s h = h
fits-IsChoice multi_select options (string_list vs) s h =
    not-any-All (is_among options) vs (ground arith)
fits-IsChoice multi_select options (number_value n) s h = h
fits-IsChoice multi_select options other_value s h = h
fits-IsChoice file options v s h = absurd (cc)
fits-IsChoice image_type options v s h = absurd (cc)
fits-IsChoice text_type options v s h = absurd (cc)
fits-IsChoice long_text options v s h = absurd (cc)
fits-IsChoice date options v s h = absurd (cc)
fits-IsChoice number_type options v s h = absurd (cc)

some_options : (options : List ChoiceOption) → has_some (some options) ≡ true → 1 ≤ length options
some_options [] h = absurd (cc)
some_options (o ∷ rest) h = omega arith

module _ (compile : Text → Option (Text → Bool)) (d : Definition) where
  upload-IsUploadItem : Passes compile d → is_upload d.type ≡ true → IsUploadItem d
  unfolding options_fit default_consistent upload_limits_fit
  upload-IsUploadItem p h = elim (Option-cases d.validation) [
    | inl e ↦ absurd (let f : upload_limits_fit d.type none ≡ true = rw (h, e) at p.upload_ok in cc)
    | inr (v, e) ↦
        let f : upload_limits_fit d.type (some v) ≡ true = rw (h, e) at p.upload_ok in
        let (l, r) =
          and-eq-true (between 10 v.max_files && between (20 * 1024 * 1024) v.max_file_size_bytes)
            (types_allowed d.type v.allowed_mime_types) f in
        let (m, s) =
          and-eq-true (between 10 v.max_files) (between (20 * 1024 * 1024) v.max_file_size_bytes)
            l in
        let (n, en, lo, hi) = between-limits 10 v.max_files m in
        let (b, eb, lob, hib) = between-limits (20 * 1024 * 1024) v.max_file_size_bytes s in
        record {
          no_default = no_default;
          no_options = no_options;
          limits = v;
          limited = e;
          files = n;
          max_files = en;
          some_file = lo;
          few_files = hi;
          bytes = b;
          max_bytes = eb;
          within = hib;
        }
  ]
    where
      no_options : d.options ≡ none
      no_options = ground (arith, not_select_upload d.type h, p.options_ok)

      no_default : d.default_value ≡ none
      no_default = elim (Option-cases d.default_value) [
        | inl e ↦ e
        | inr (v, e) ↦
            let f : default_consistent compile d (some v) ≡ true = rw e at p.default_ok in
            absurd (ground (arith, default_fits-upload d.type (values_of d.options) v h))
      ]

  select-IsSelection : Passes compile d → is_select d.type ≡ true → IsSelection d
  unfolding options_fit default_consistent
  select-IsSelection p h = elim (Option-cases d.options) [
    | inl e ↦ absurd (
        let f : has_some d.options ≡ true = rw h at p.options_ok in
        let g : false ≡ true = rw e at f in cc)
    | inr (options, e) ↦
        let f : all_distinct (values_of d.options) ≡ true = rw h at p.select_ok in
        let g : all_distinct (map (λ o. o.value) options) ≡ true = rw e at f in
        record {
          options = options;
          given = e;
          apart = all_distinct-HasDistinct (map (λ o. o.value) options) g;
          some_option = some_options options (rw e at (rw h at p.options_ok));
          chosen =
              default_chosen (map (λ o. o.value) options) (ap values_of e) d.default_value refl;
        }
  ]
    where
      default_chosen :
          (values : List Text)
          → values_of d.options ≡ values
          → (o : Option DefaultValue) → d.default_value ≡ o
          → IsChoice d.type values o
      default_chosen values e none ed = tt
      default_chosen values e (some v) ed =
          let k : default_consistent compile d (some v) ≡ true = rw ed at p.default_ok in
          let (l, r) = and-eq-true (default_fits d.type (values_of d.options) v) _ k in
          fits-IsChoice d.type values v h (rw e at l)

  -- A definition that passes the check of its meaning: where it is a file or an image, it has no
  -- default value and no options, and takes one to ten files of at most 20 MB; where it is a
  -- selection, it has options whose values are apart, and a default value is one of them in a single
  -- selection and a list of them in a multiple one.
  pub validate-consistent :
      validate_semantics compile d ≡ ok tt
      → (is_upload d.type ≡ true → IsUploadItem d) × (is_select d.type ≡ true → IsSelection d)
  validate-consistent h =
      let p = validate-Passes compile d h in (upload-IsUploadItem p, select-IsSelection p)
