-- ===== src/Templates/Definition.antt =====
-- packages/contracts/src/requirement.ts: the definition of a requirement, as its schema parses it.
use authorization_document.Base.{ℕ, true, false, Option, List, Bool, Text, ltb, ◌||◌}

-- A number with a sign; `below n` is -(n + 1).
pub data Number : Type 0 where
  natural : ℕ → Number
  below : ℕ → Number

abbrev pub less : Number → Number → Bool
less (natural a) (natural b) = ltb a b
less (natural a) (below b) = false
less (below a) (natural b) = true
less (below a) (below b) = ltb b a

pub data RequirementType : Type 0 where
  text_type long_text single_select multi_select date number_type file image_type : RequirementType

-- `RequirementValidationSchema`; a media type is its number.
pub record Validation : Type 0 where
  pub min_length : Option ℕ
  pub max_length : Option ℕ
  pub min : Option Number
  pub max : Option Number
  pub pattern : Option Text
  pub max_files : Option ℕ
  pub max_file_size_bytes : Option ℕ
  pub allowed_mime_types : Option (List ℕ)

pub record ChoiceOption : Type 0 where
  pub value : Text
  pub label : Text

-- `defaultValue`: a string, a finite number, an array of strings, or any other JSON value.
pub data DefaultValue : Type 0 where
  string_value : Text → DefaultValue
  number_value : Number → DefaultValue
  string_list : List Text → DefaultValue
  other_value : DefaultValue

-- `RequirementDefinitionSchema`
pub record Definition : Type 0 where
  pub key : Text
  pub label : Text
  pub type : RequirementType
  pub required : Bool
  pub sensitive : Bool
  pub description : Option Text
  pub example : Option Text
  pub default_value : Option DefaultValue
  pub options : Option (List ChoiceOption)
  pub validation : Option Validation

abbrev pub is_file : RequirementType → Bool
is_file file = true
is_file _ = false

abbrev pub is_image : RequirementType → Bool
is_image image_type = true
is_image _ = false

-- `['FILE', 'IMAGE'].includes(type)`
abbrev pub is_upload : RequirementType → Bool
is_upload t = is_file t || is_image t
