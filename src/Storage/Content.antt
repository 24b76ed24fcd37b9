-- ===== src/Storage/Content.antt =====
-- `validateFileContent` of packages/storage/src/file-policy.ts. A file is the list of its bytes.
use authorization_document.Model.Rows.{Key, pdf_type, png_type, jpeg_type}
use authorization_document.Base.{
  ℕ, ◌>>◌, true, false, [], ◌∷◌, Bool, Text, if◌then◌else◌, Result, leb, ◌==◌, ◌&&◌, ◌||◌, not,
  require, bad_request, map, file_content_invalid, codes, starts_with, includes, length, lower, ◌≡◌,
  arith, subst, and-eq-true, refl, Bool-cases, inl, inr,
}
use mathlib.Core.List.{reverse}

abbrev pub Bytes : Type 0
Bytes = Text

abbrev png_signature : Bytes
png_signature = 0x89 ∷ 0x50 ∷ 0x4e ∷ 0x47 ∷ 0x0d ∷ 0x0a ∷ 0x1a ∷ 0x0a ∷ []

unfoldable pub is_pdf : Bytes → Bool
unfolding starts_with includes
is_pdf b = leb 8 (length b) && starts_with (codes "%PDF-") b && includes (codes "%%EOF") b

unfoldable pub is_png : Bytes → Bool
unfolding starts_with includes
is_png b = leb 16 (length b) && starts_with png_signature b && includes (codes "IEND") b

unfoldable pub ends_with_marker : Bytes → Bool
ends_with_marker [] = false
ends_with_marker (c ∷ []) = false
ends_with_marker (c ∷ d ∷ rest) = c == 0xd9 && d == 0xff

unfoldable pub is_jpeg : Bytes → Bool
unfolding starts_with ends_with_marker
is_jpeg b =
    leb 6 (length b) && starts_with (0xff ∷ 0xd8 ∷ 0xff ∷ []) b && ends_with_marker (reverse b)

-- `const valid = …`
unfoldable pub is_valid_content : Bytes → Key → Bool
unfolding is_pdf is_png is_jpeg
is_valid_content b mime_type =
    if mime_type == pdf_type
    then is_pdf b
    else if mime_type == png_type
    then is_png b
    else if mime_type == jpeg_type
    then is_jpeg b
    else false

-- The tests of the first 512 bytes in lower case; they look at no more than the first seven.
unfoldable pub is_polyglot : Bytes → Bool
unfolding starts_with
is_polyglot b =
    let prefix = map lower b in
    starts_with (codes "mz") prefix
    || starts_with (b'p' ∷ b'k' ∷ 3 ∷ 4 ∷ []) prefix
    || starts_with (codes "<script") prefix
    || starts_with (codes "#!") prefix

-- `validateFileContent`
unfoldable pub validate_file_content : Bytes → Key → Result (Unit {0})
unfolding is_valid_content is_polyglot
validate_file_content b mime_type = do
  require (is_valid_content b mime_type) (bad_request file_content_invalid)
  require (not (is_polyglot b)) (bad_request file_content_invalid)

starts_with-head : (p c : ℕ) (s b : Bytes) → starts_with (p ∷ s) (c ∷ b) ≡ true → p ≡ c
unfolding starts_with
starts_with-head p c s b h = ground arith

-- A first byte that none of the four has.
abbrev is_header : ℕ → Bool
is_header c = c == b'%' || c == 0x89 || c == 0xff

not-polyglot_head : (c : ℕ) (b : Bytes) → is_header c ≡ true → is_polyglot (c ∷ b) ≡ false
unfolding is_polyglot starts_with
not-polyglot_head c b h = ground arith

module _ (c : ℕ) (b : Bytes) where
  header_head :
      (p : ℕ) (s : Bytes)
      → starts_with (p ∷ s) (c ∷ b) ≡ true
      → is_header p ≡ true
      → is_header c ≡ true
  header_head p s h t = subst (λ d. is_header d ≡ true) (starts_with-head p c s b h) t

  pdf_head : is_pdf (c ∷ b) ≡ true → is_header c ≡ true
  unfolding is_pdf
  pdf_head h = header_head b'%' (codes "PDF-") (and-eq-true _ _ (and-eq-true _ _ h).0).1 refl

  png_head : is_png (c ∷ b) ≡ true → is_header c ≡ true
  unfolding is_png
  png_head h =
      header_head 0x89 (0x50 ∷ 0x4e ∷ 0x47 ∷ 0x0d ∷ 0x0a ∷ 0x1a ∷ 0x0a ∷ [])
        (and-eq-true _ _ (and-eq-true _ (includes (codes "IEND") (c ∷ b)) h).0).1 refl

  jpeg_head : is_jpeg (c ∷ b) ≡ true → is_header c ≡ true
  unfolding is_jpeg
  jpeg_head h =
      header_head 0xff (0xd8 ∷ 0xff ∷ [])
        (and-eq-true _ _ (and-eq-true _ (ends_with_marker (reverse (c ∷ b))) h).0).1 refl

  valid_head : (mime_type : Key) → is_valid_content (c ∷ b) mime_type ≡ true → is_header c ≡ true
  unfolding is_valid_content
  valid_head mime_type h = ground (arith, pdf_head, png_head, jpeg_head)

not_polyglot_nil : is_polyglot [] ≡ false
unfolding is_polyglot starts_with
not_polyglot_nil = refl

not_polyglot :
    (b : Bytes) (mime_type : Key) → is_valid_content b mime_type ≡ true → is_polyglot b ≡ false
not_polyglot [] mime_type h = not_polyglot_nil
not_polyglot (c ∷ b) mime_type h = not-polyglot_head c b (valid_head c b mime_type h)

-- The check of contents is exactly the check of the format: whatever has one of the three formats
-- is never taken for a program, an archive or a script.
pub validate_file_content-eq-valid :
    (b : Bytes) (mime_type : Key)
    → validate_file_content b mime_type
      ≡ require (is_valid_content b mime_type) (bad_request file_content_invalid)
unfolding validate_file_content
validate_file_content-eq-valid b mime_type = elim (Bool-cases (is_valid_content b mime_type)) [
  | inl e ↦ rw (e, not_polyglot b mime_type e)
  | inr e ↦ rw e
]
