-- ===== src/Signing/Command.antt =====
-- apps/api/src/files/file-policy.ts: what a signing request must be.
use authorization_document.Model.Rows.{Key}
use authorization_document.Model.Status.{
  handwritten, seal_original, seal_processed, FilePurpose, same_purpose,
}
use authorization_document.Base.{
  ok, ◌>>=◌, ◌>>◌, none, some, false, [], ◌∷◌, Bool, Text, ℕ, Option, List, filter, codes, text_eq,
  not, ◌==◌, Result, any, ◌&&◌, from_option, require, count, ltb, bad_request, length, leb,
  position_fields_untrusted, signing_request_invalid, resource_mode_mismatch, ◌+◌,
  position_out_of_slot, signing_fields_untrusted, ◌||◌, find, signing_mode_invalid, is_some,
  declaration_invalid, same_id, positions_invalid, seal_relation_invalid, positions_incomplete,
}
use authorization_document.Templates.Tree.{Slot}

-- A position as it was sent. The code adds coordinates and compares them, so that they are whole
-- numbers of a unit here, a point or any fraction of one of which the coordinates of the slots and of
-- the positions are multiples; the rounding of a sum of two JavaScript numbers is left out. A coordinate
-- is `none` where it is missing, no finite number or a negative one; no slot has such a coordinate, and
-- each is refused alike.
pub record RawPosition : Type 0 where
  pub has_other_keys : Bool
  pub slot_id : Option Text
  pub page : Option ℕ
  pub x : Option ℕ
  pub y : Option ℕ
  pub width : Option ℕ
  pub height : Option ℕ

-- `mode` as it was sent: a string, or another value that `String` turns into one, such as an array
-- with one string.
pub data ModeValue : Type 0 where
  exactly : Text → ModeValue
  printed_as : Text → ModeValue

-- The body as it was sent; what has the wrong type is `none`, and so is a falsy position.
pub record RawCommand : Type 0 where
  pub has_other_keys : Bool
  pub mode : ModeValue
  pub resource_id : Option Key
  pub resource_version : Option ℕ
  pub declaration : Bool
  pub positions : Option (List (Option RawPosition))
  pub seal_original : Option Key

pub record Position : Type 0 where
  pub slot_id : Text
  pub page : ℕ
  pub x : ℕ
  pub y : ℕ
  pub width : ℕ
  pub height : ℕ

pub record SigningCommand : Type 0 where
  pub mode : ModeValue
  pub resource_id : Key
  pub resource_version : ℕ
  pub positions : List Position
  pub seal_original : Option Key

abbrev pub handwritten_mode : Text
handwritten_mode = codes "HANDWRITTEN"

abbrev pub seal_mode : Text
seal_mode = codes "SEAL"

-- `String(value.mode)`
abbrev pub printed : ModeValue → Text
printed (exactly t) = t
printed (printed_as t) = t

-- `command.mode === text`
abbrev pub is_exactly : Text → ModeValue → Bool
is_exactly t (exactly s) = text_eq s t
is_exactly t (printed_as s) = false

abbrev pub names_slot : Slot → Option RawPosition → Bool
names_slot s none = false
names_slot s (some p) = elim p.slot_id [ none ↦ false | some id ↦ text_eq id s.slot_id ]

-- Every required slot has exactly one position, and there are no other positions.
unfoldable pub covers : List Slot → List (Option RawPosition) → Bool
covers required positions =
    not (any (λ s. not (count (names_slot s) positions == 1)) required)
    && length positions == length required

-- The position lies within its slot.
abbrev pub lies_within : Slot → Position → Bool
lies_within s p =
    p.page == s.page
    && ltb 0 p.width
    && ltb 0 p.height
    && leb s.x p.x
    && leb s.y p.y
    && leb (p.x + p.width) (s.x + s.width)
    && leb (p.y + p.height) (s.y + s.height)

-- One round of the loop over the positions.
unfoldable pub place : List Slot → Option RawPosition → Result Position
place required raw = do
  p ← from_option (bad_request position_fields_untrusted) raw
  require (not p.has_other_keys) (bad_request position_fields_untrusted)
  id ← from_option (bad_request position_out_of_slot) p.slot_id
  s ←
      from_option (bad_request position_out_of_slot)
        (find (λ (s : Slot). text_eq s.slot_id id) required)
  page ← from_option (bad_request position_out_of_slot) p.page
  x ← from_option (bad_request position_out_of_slot) p.x
  y ← from_option (bad_request position_out_of_slot) p.y
  width ← from_option (bad_request position_out_of_slot) p.width
  height ← from_option (bad_request position_out_of_slot) p.height
  let q : Position = record {
    slot_id = id;
    page = page;
    x = x;
    y = y;
    width = width;
    height = height;
  }
  require (lies_within s q) (bad_request position_out_of_slot)
  ok q

unfoldable pub place_all : List Slot → List (Option RawPosition) → Result (List Position)
unfolding place
place_all required [] = ok []
place_all required (p ∷ rest) = do
  q ← place required p
  more ← place_all required rest
  ok (q ∷ more)

-- `validateSigningCommand`
unfoldable pub validate_signing_command : Option RawCommand → List Slot → Result SigningCommand
unfolding covers place_all filter
validate_signing_command raw slots = do
  value ← from_option (bad_request signing_request_invalid) raw
  require (not value.has_other_keys) (bad_request signing_fields_untrusted)
  require (text_eq (printed value.mode) handwritten_mode || text_eq (printed value.mode) seal_mode)
      (bad_request signing_mode_invalid)
  resource ← from_option (bad_request signing_mode_invalid) value.resource_id
  version ← from_option (bad_request signing_mode_invalid) value.resource_version
  require (leb 1 version) (bad_request signing_mode_invalid)
  require value.declaration (bad_request declaration_invalid)
  positions ← from_option (bad_request positions_invalid) value.positions
  let required = filter (λ (s : Slot). s.required) slots
  require (covers required positions) (bad_request positions_incomplete)
  placed ← place_all required positions
  ok (record {
    mode = value.mode;
    resource_id = resource;
    resource_version = version;
    positions = placed;
    seal_original = value.seal_original;
  })

-- `validateSigningResourceBinding`
unfoldable pub validate_resource_binding :
    ModeValue → FilePurpose → Option Key → Option Key → Result (Unit {0})
validate_resource_binding mode purpose original expected = do
  require (not (is_exactly handwritten_mode mode && not (same_purpose purpose handwritten)))
      (bad_request resource_mode_mismatch)
  require
      (not (
        is_exactly seal_mode mode
        && not (same_purpose purpose seal_original || same_purpose purpose seal_processed)))
      (bad_request resource_mode_mismatch)
  require
      (not (
        is_exactly seal_mode mode
        && same_purpose purpose seal_processed
        && not (is_some expected && same_id original expected)))
      (bad_request seal_relation_invalid)
