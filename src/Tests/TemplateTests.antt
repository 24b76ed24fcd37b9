-- ===== src/Tests/TemplateTests.antt =====
-- Runs of the check of a template and of a signing command for its slots.
use authorization_document.Catalog.Accepted.{IsAccepted, accept_template-IsAccepted}
use authorization_document.Catalog.Editor.{
  RawTemplate, TemplateInput, SourceRow, mode_absent, repeated, accept_template, validate_editor,
  sources_of, set_size, parse_template, invalid_fields, machine_key, repeated_from,
}
use authorization_document.Model.Status.{hand_signature}
use authorization_document.Templates.Consistent.{IsUploadItem, IsSelection, validate-consistent}
use authorization_document.Templates.Semantics.{validate_semantics, valid_date, is_select}
use authorization_document.Signing.Placed.{IsPlaced, validate_signing_command-IsPlaced}
use authorization_document.Signing.Command.{
  RawPosition, RawCommand, SigningCommand, validate_signing_command, exactly, handwritten_mode,
}
use authorization_document.Templates.Published.{IsSignable, validate-IsSignable}
use authorization_document.Templates.Validator.{
  RequirementSource, validate_template_for_publish, validate_template_structure,
}
use authorization_document.Templates.Definition.{
  file, Definition, is_upload, string_list, multi_select,
}
use authorization_document.Model.Rows.{published_version}
use authorization_document.Base.{
  ok, none, some, true, false, refl, [], ◌∷◌, err, codes, find, any, starts_with, count, is_among,
  filter, ◌≡◌, bad_request, template_invalid, Text, Option, Bool, List, is_blank, trim, trim_start,
  is_space, arith,
}
use authorization_document.Templates.Tree.{
  Slot, TemplateAst, heading, text, signature_slot, end, node, page_break,
}

abbrev pub party_a : Slot
party_a = record {
  slot_id = codes "a";
  page = 2;
  x = 100;
  y = 700;
  width = 200;
  height = 80;
  required = true;
}

abbrev letter_template : TemplateAst
letter_template = record {
  children =
      node (heading 1 (node (text (codes "Letter") none) end) none)
        (node page_break (node (signature_slot party_a none) end));
  header = end;
  footer = end;
  styles = none;
}

abbrev letter_source : RequirementSource
letter_source = record {
  status = published_version;
  disabled_at = none;
  definition = some (record {
    key = codes "authorization_letter";
    label = codes "Letter";
    type = file;
    required = true;
    sensitive = false;
    description = none;
    example = none;
    default_value = none;
    options = none;
    validation = none;
  });
  key = codes "authorization_letter";
}

letter_run : validate_template_for_publish letter_template (letter_source ∷ []) ≡ ok tt
unfolding validate_template_for_publish find any starts_with is_among
letter_run = refl

-- Without the letter among its sources it is refused, also as a draft.
draft_run : validate_template_structure letter_template [] ≡ err (bad_request template_invalid)
unfolding validate_template_structure find any starts_with is_among
draft_run = refl

validate-IsSignable_example : IsSignable letter_template
validate-IsSignable_example = validate-IsSignable letter_template (letter_source ∷ []) letter_run

abbrev pub inside_slot : RawPosition
inside_slot = record {
  has_other_keys = false;
  slot_id = some (codes "a");
  page = some 2;
  x = some 120;
  y = some 710;
  width = some 100;
  height = some 40;
}

abbrev pub by_hand : RawCommand
by_hand = record {
  has_other_keys = false;
  mode = exactly handwritten_mode;
  resource_id = some 90;
  resource_version = some 1;
  declaration = true;
  positions = some (some inside_slot ∷ []);
  seal_original = none;
}

abbrev command : SigningCommand
command = record {
  mode = exactly handwritten_mode;
  resource_id = 90;
  resource_version = 1;
  positions =
      record { slot_id = codes "a"; page = 2; x = 120; y = 710; width = 100; height = 40 } ∷ [];
  seal_original = none;
}

command_run : validate_signing_command (some by_hand) (party_a ∷ []) ≡ ok command
unfolding validate_signing_command find any count filter
command_run = refl

validate_signing_command-IsPlaced_example : IsPlaced (party_a ∷ []) command
validate_signing_command-IsPlaced_example =
    validate_signing_command-IsPlaced (some by_hand) (party_a ∷ []) command command_run

-- A multiple selection with both of its options as its default.
abbrev channels : Definition
channels = record {
  key = codes "channels";
  label = codes "Channels";
  type = multi_select;
  required = false;
  sensitive = false;
  description = none;
  example = none;
  default_value = some (string_list (codes "web" ∷ codes "shop" ∷ []));
  options = some (
      record { value = codes "shop"; label = codes "Shop" }
      ∷ record { value = codes "web"; label = codes "Web" }
      ∷ []);
  validation = none;
}

abbrev any_pattern : Text → Option (Text → Bool)
any_pattern p = some (λ s. true)

channels_run : validate_semantics any_pattern channels ≡ ok tt
unfolding validate_semantics any is_among
channels_run = refl

date_run : (valid_date (codes "2024-02-29") ≡ true) × (valid_date (codes "2023-02-29") ≡ false)
unfolding valid_date
date_run = (refl, refl)

validate-consistent_example :
    (is_upload channels.type ≡ true → IsUploadItem channels)
    × (is_select channels.type ≡ true → IsSelection channels)
validate-consistent_example = validate-consistent any_pattern channels channels_run

-- A request that creates a template of the letter.
abbrev raw_letter : RawTemplate
raw_letter = record {
  key = some (codes "letter_1");
  name = some (codes "Letter");
  description = none;
  ast = some letter_template;
  requirement_versions = some (70 ∷ []);
  mode = mode_absent;
}

abbrev letter_rows : List SourceRow
letter_rows =
    record { id = 70; source = letter_source } ∷ record { id = 71; source = letter_source } ∷ []

abbrev letter_input : TemplateInput
letter_input = record {
  key = some (codes "letter_1");
  name = some (codes "Letter");
  description = none;
  ast = letter_template;
  mode = hand_signature;
  requirement_versions = 70 ∷ [];
}

-- A version that is named twice is refused, with the position of the second.
repeated_run :
    invalid_fields false (record raw_letter { requirement_versions = some (70 ∷ 71 ∷ 70 ∷ []) })
    ≡ repeated 2 ∷ []
unfolding invalid_fields machine_key repeated_from any is_blank trim trim_start is_space
repeated_run = refl

accept_template-IsAccepted_example : IsAccepted true raw_letter letter_rows letter_input
unfolding accept_template validate_editor sources_of set_size parse_template invalid_fields
    machine_key repeated_from validate_template_structure find any starts_with is_among count filter
    is_blank trim trim_start is_space
accept_template-IsAccepted_example =
    accept_template-IsAccepted true raw_letter letter_rows letter_input (λ k. ground arith) refl
