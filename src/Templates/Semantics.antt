-- ===== src/Templates/Semantics.antt =====
-- `validateSemantics` of apps/api/src/requirements/requirements.service.ts. Each issue that the code
-- collects is a test; a definition without an issue passes. `compile` is `new RegExp`, with `none`
-- for a pattern that it refuses.
use Prim.Native.Nat.{◌%◌}
use authorization_document.Model.Rows.{pdf_type, png_type, jpeg_type}
use authorization_document.Base.{
  ◌>>◌, none, some, true, false, [], ◌∷◌, Bool, Option, ℕ, Text, is_among, List, if◌then◌else◌, leb,
  ◌-◌, ◌&&◌, not, ◌||◌, ltb, ◌==◌, is_some, Result, is_none, ◌*◌, any, length, require, map, ◌+◌,
  bad_request, requirement_invalid,
}
use authorization_document.Templates.Definition.{
  Definition, Validation, Number, RequirementType, text_type, long_text, single_select,
  multi_select, date, number_type, string_value, number_value, string_list, DefaultValue,
  ChoiceOption, less, is_file, is_upload,
}

abbrev pub is_select : RequirementType → Bool
is_select single_select = true
is_select multi_select = true
is_select _ = false

abbrev is_text : RequirementType → Bool
is_text text_type = true
is_text long_text = true
is_text _ = false

abbrev is_number : RequirementType → Bool
is_number number_type = true
is_number _ = false

abbrev pub values_of : Option (List ChoiceOption) → List Text
values_of none = []
values_of (some options) = map (λ o. o.value) options

abbrev pub has_some {ℓ} : {A : Type ℓ} → Option (List A) → Bool
has_some none = false
has_some (some []) = false
has_some (some (a ∷ rest)) = true

-- A selection has options, and nothing else has.
unfoldable pub options_fit : Definition → Bool
options_fit d = if is_select d.type then has_some d.options else is_none d.options

abbrev is_digit : ℕ → Bool
is_digit c = leb b'0' c && leb c b'9'

abbrev digit : ℕ → ℕ
digit c = c - b'0'

abbrev is_leap : ℕ → Bool
is_leap year = year % 4 == 0 && (not (year % 100 == 0) || year % 400 == 0)

abbrev days_in : ℕ → ℕ → ℕ
days_in year month =
    if month == 2
    then (if is_leap year then 29 else 28)
    else if month == 4 || month == 6 || month == 9 || month == 11
    then 30
    else 31

-- The date is the one that `Date.UTC` makes of its parts; years below 100 mean others there.
abbrev is_date : ℕ → ℕ → ℕ → Bool
is_date year month day =
    leb 100 year && leb 1 month && leb month 12 && leb 1 day && leb day (days_in year month)

-- `validDate`
unfoldable pub valid_date : Text → Bool
valid_date (a ∷ b ∷ c ∷ d ∷ s ∷ e ∷ f ∷ t ∷ g ∷ h ∷ []) =
    is_digit a
    && is_digit b
    && is_digit c
    && is_digit d
    && is_digit e
    && is_digit f
    && is_digit g
    && is_digit h
    && s == b'-'
    && t == b'-'
    && is_date (digit a * 1000 + digit b * 100 + digit c * 10 + digit d) (digit e * 10 + digit f)
        (digit g * 10 + digit h)
valid_date _ = false

-- The default value is one of the type.
unfoldable pub default_fits : RequirementType → List Text → DefaultValue → Bool
unfolding is_among valid_date
default_fits number_type options (number_value n) = true
default_fits multi_select options (string_list vs) = not (any (λ v. not (is_among options v)) vs)
default_fits single_select options (string_value v) = is_among options v
default_fits date options (string_value v) = valid_date v
default_fits text_type options (string_value v) = true
default_fits long_text options (string_value v) = true
default_fits _ options v = false

abbrev ordered : Option Number → Option Number → Bool
ordered (some a) (some b) = not (less b a)
ordered _ _ = true

abbrev ordered_lengths : Option ℕ → Option ℕ → Bool
ordered_lengths (some a) (some b) = leb a b
ordered_lengths _ _ = true

-- The checks that the type has no use for are not set, and the bounds are in order.
unfoldable pub validation_fits : RequirementType → Validation → Bool
validation_fits type v =
    (is_text type || is_none v.min_length && is_none v.max_length && is_none v.pattern)
    && (is_number type || is_none v.min && is_none v.max)
    && (is_upload type
        || is_none v.max_files && is_none v.max_file_size_bytes && is_none v.allowed_mime_types)
    && ordered v.min v.max
    && ordered_lengths v.min_length v.max_length

-- No value stands twice among the options.
unfoldable pub all_distinct : List Text → Bool
unfolding is_among
all_distinct [] = true
all_distinct (v ∷ vs) = not (is_among vs v) && all_distinct vs

abbrev pub between : ℕ → Option ℕ → Bool
between limit none = false
between limit (some n) = ltb 0 n && leb n limit

abbrev is_picture_type : ℕ → Bool
is_picture_type m = m == png_type || m == jpeg_type

abbrev is_upload_type : RequirementType → ℕ → Bool
is_upload_type type m = is_picture_type m || is_file type && m == pdf_type

abbrev pub types_allowed : RequirementType → Option (List ℕ) → Bool
types_allowed type none = false
types_allowed type (some ms) = has_some (some ms) && not (any (λ m. not (is_upload_type type m)) ms)

-- The limits of an upload; without `validation` there are none.
unfoldable pub upload_limits_fit : RequirementType → Option Validation → Bool
upload_limits_fit type none = false
upload_limits_fit type (some v) =
    between 10 v.max_files
    && between (20 * 1024 * 1024) v.max_file_size_bytes
    && types_allowed type v.allowed_mime_types

abbrev at_least : Option ℕ → ℕ → Bool
at_least none n = true
at_least (some limit) n = leb limit n

abbrev at_most : Option ℕ → ℕ → Bool
at_most none n = true
at_most (some limit) n = leb n limit

abbrev in_range : Validation → Number → Bool
in_range v n = ordered v.min (some n) && ordered (some n) v.max

module _ (compile : Text → Option (Text → Bool)) where
  abbrev compiles : Option Text → Bool
  compiles none = true
  compiles (some p) = is_some (compile p)

  abbrev passes : Option (Text → Bool) → Text → Bool
  passes none s = true
  passes (some test) s = test s

  abbrev pattern_passes : Option Text → Text → Bool
  pattern_passes none s = true
  pattern_passes (some p) s = passes (compile p) s

  -- A default value keeps the checks of its definition.
  unfoldable pub default_passes : RequirementType → DefaultValue → Validation → Bool
  default_passes number_type (number_value n) v = in_range v n
  default_passes text_type (string_value s) v =
      at_least v.min_length (length s)
      && at_most v.max_length (length s)
      && pattern_passes v.pattern s
  default_passes long_text (string_value s) v =
      at_least v.min_length (length s)
      && at_most v.max_length (length s)
      && pattern_passes v.pattern s
  default_passes _ value v = true

  unfoldable pub default_consistent : Definition → Option DefaultValue → Bool
  unfolding default_fits default_passes
  default_consistent d none = true
  default_consistent d (some value) =
      default_fits d.type (values_of d.options) value
      && elim d.validation [ none ↦ true | some v ↦ default_passes d.type value v ]

  unfoldable pub validation_consistent : Definition → Bool
  unfolding validation_fits
  validation_consistent d = elim d.validation [
    | none ↦ true
    | some v ↦ validation_fits d.type v && compiles v.pattern
  ]

  -- `validateSemantics`
  unfoldable pub validate_semantics : Definition → Result (Unit {0})
  unfolding options_fit default_consistent validation_consistent all_distinct upload_limits_fit
  validate_semantics d = do
    require (options_fit d) (bad_request requirement_invalid)
    require (default_consistent d d.default_value) (bad_request requirement_invalid)
    require (validation_consistent d) (bad_request requirement_invalid)
    require (not (is_select d.type) || all_distinct (values_of d.options))
        (bad_request requirement_invalid)
    require (not (is_upload d.type) || upload_limits_fit d.type d.validation)
        (bad_request requirement_invalid)
