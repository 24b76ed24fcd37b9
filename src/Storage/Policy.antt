-- ===== src/Storage/Policy.antt =====
-- packages/storage/src/file-policy.ts: limits, and the checks of a file's name and size. A size is a
-- number of bytes; `path.extname` and `path.basename` are those of POSIX.
use authorization_document.Model.Rows.{Key, pdf_type, png_type, jpeg_type}
use authorization_document.Base.{
  ℕ, ◌>>◌, none, some, true, false, [], ◌∷◌, Option, List, Bool, Text, if◌then◌else◌, Result, ltb,
  leb, ◌==◌, ◌&&◌, ◌||◌, not, any, require, bad_request, is_space, min, ◌*◌, ◌^◌, map,
  file_name_invalid, file_type_not_allowed, file_size_exceeded, material_count_exceeded,
  case_size_exceeded, codes, text_eq, lower, is_among, same_id, ◌-◌,
}
use mathlib.Core.List.{reverse}

abbrev pub max_file_bytes : ℕ
max_file_bytes = 20 * 1024 * 1024

abbrev pub max_material_files : ℕ
max_material_files = 10

abbrev pub max_case_bytes : ℕ
max_case_bytes = 200 * 1024 * 1024

abbrev pub max_safe_integer : ℕ
max_safe_integer = 2 ^ 53 - 1

pub record FileLimits : Type 0 where
  pub max_file : ℕ
  pub max_files : ℕ
  pub max_case : ℕ

-- `Partial<FileLimits>`; `none` is `undefined` or a number that is no natural number.
pub record PartialLimits : Type 0 where
  pub file : Option ℕ
  pub files : Option ℕ
  pub case : Option ℕ

abbrev pub positive : Option ℕ → ℕ → ℕ
positive none fallback = fallback
positive (some n) fallback = if leb n max_safe_integer && ltb 0 n then n else fallback

-- `effectiveFileLimits`
unfoldable pub effective_file_limits : PartialLimits → FileLimits
effective_file_limits catalog = record {
  max_file = min max_file_bytes (positive catalog.file max_file_bytes);
  max_files = min max_material_files (positive catalog.files max_material_files);
  max_case = min max_case_bytes (positive catalog.case max_case_bytes);
}

-- `/[\u0000-\u001f\u007f]/`, `/[<>:"|?*]/` and `/\s/`
unfoldable pub is_forbidden : ℕ → Bool
unfolding is_space
is_forbidden c = leb c 31 || c == 127 || any (λ d. d == c) (codes "<>:|?*") || c == 34 || is_space c

abbrev is_dot : ℕ → Bool
is_dot c = c == b'.'

-- `/[. ]$/`, on the reversed name.
abbrev ends_badly : Text → Bool
ends_badly [] = false
ends_badly (c ∷ s) = is_dot c || c == 32

-- The part before the first dot.
unfoldable pub stem : Text → Text
stem [] = []
stem (c ∷ s) = if is_dot c then [] else c ∷ stem s

-- The parts after the first dot, between dots.
unfoldable pub parts_from : Text → Text → List Text
parts_from part [] = reverse part ∷ []
parts_from part (c ∷ s) =
    let ended = reverse part ∷ parts_from [] s in
    let longer = parts_from (c ∷ part) s in if is_dot c then ended else longer

unfoldable pub after_dots : Text → List Text
unfolding parts_from
after_dots [] = []
after_dots (c ∷ s) = if is_dot c then parts_from [] s else after_dots s

abbrev numbered : List Text
numbered =
    codes "con"
    ∷ codes "prn"
    ∷ codes "aux"
    ∷ codes "nul"
    ∷ codes "com1"
    ∷ codes "com2"
    ∷ codes "com3"
    ∷ codes "com4"
    ∷ codes "com5"
    ∷ codes "com6"
    ∷ codes "com7"
    ∷ codes "com8"
    ∷ codes "com9"
    ∷ codes "lpt1"
    ∷ codes "lpt2"
    ∷ codes "lpt3"
    ∷ codes "lpt4"
    ∷ codes "lpt5"
    ∷ codes "lpt6"
    ∷ codes "lpt7"
    ∷ codes "lpt8"
    ∷ codes "lpt9"
    ∷ []

-- `reserved.test(name)`
unfoldable pub is_reserved : Text → Bool
unfolding stem is_among
is_reserved name = is_among numbered (map lower (stem name))

abbrev executable : List Text
executable =
    codes "exe"
    ∷ codes "com"
    ∷ codes "bat"
    ∷ codes "cmd"
    ∷ codes "msi"
    ∷ codes "scr"
    ∷ codes "ps1"
    ∷ codes "vbs"
    ∷ codes "js"
    ∷ codes "jar"
    ∷ codes "dll"
    ∷ codes "sh"
    ∷ []

-- `DANGEROUS_EXTENSION.test(name)`: a part between dots, or after the last one.
unfoldable pub is_dangerous : Text → Bool
unfolding after_dots is_among
is_dangerous name = any (λ part. is_among executable (map lower part)) (after_dots name)

abbrev is_slash : ℕ → Bool
is_slash c = c == b'/'

unfoldable pub drop_slashes : Text → Text
drop_slashes [] = []
drop_slashes (c ∷ s) = if is_slash c then drop_slashes s else c ∷ s

-- The extension of a reversed name, from what has been read of it; a dot that starts the base name
-- starts no extension.
abbrev starts_base : Text → Bool
starts_base [] = true
starts_base (c ∷ s) = is_slash c

unfoldable pub ext_from : Text → Text → Text
ext_from read [] = []
ext_from read (c ∷ s) =
    let longer = ext_from (c ∷ read) s in
    if is_slash c then [] else if is_dot c then (if starts_base s then [] else c ∷ read) else longer

-- `path.extname(name).toLowerCase()`
unfoldable pub ext_name : Text → Text
unfolding ext_from drop_slashes
ext_name name = map lower (ext_from [] (drop_slashes (reverse name)))

-- `MIME_BY_EXT[ext]`
unfoldable pub mime_by_ext : Text → Option Key
mime_by_ext ext =
    if text_eq ext (codes ".pdf")
    then some pdf_type
    else if text_eq ext (codes ".png")
    then some png_type
    else if text_eq ext (codes ".jpg") || text_eq ext (codes ".jpeg")
    then some jpeg_type
    else none

-- The first three tests of `validateFileMetadata`.
unfoldable pub is_bad_name : Text → Bool
unfolding is_forbidden is_reserved is_dangerous
is_bad_name name =
    any is_forbidden name || ends_badly (reverse name) || is_reserved name || is_dangerous name

-- `validateFileMetadata`
unfoldable pub validate_file_metadata : Text → Key → ℕ → Result (Unit {0})
unfolding is_bad_name ext_name mime_by_ext
validate_file_metadata name mime_type size = do
  require (not (is_bad_name name)) (bad_request file_name_invalid)
  require (same_id (mime_by_ext (ext_name name)) (some mime_type))
      (bad_request file_type_not_allowed)
  require (leb size max_file_bytes) (bad_request file_size_exceeded)
  require (not (any (λ c. c == b'\\' || is_slash c) name)) (bad_request file_name_invalid)

-- `validateMaterialCount`
unfoldable pub validate_material_count : ℕ → Result (Unit {0})
validate_material_count count =
    require (leb count max_material_files) (bad_request material_count_exceeded)

-- `validateCaseBytes`
unfoldable pub validate_case_bytes : ℕ → Result (Unit {0})
validate_case_bytes total = require (leb total max_case_bytes) (bad_request case_size_exceeded)
