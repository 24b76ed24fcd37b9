-- ===== src/Signing/Placed.antt =====
-- What an accepted signing command covers.
use authorization_document.Signing.Command.{
  Position, place, place_all, SigningCommand, validate_signing_command, covers, lies_within,
  RawPosition, RawCommand, names_slot, printed, handwritten_mode, seal_mode,
}
use authorization_document.Base.{
  ok, some, true, refl, [], ◌∷◌, suc, List, filter, count, Bool, length, ◌≡◌, arith, text_eq, find,
  Option, All, >>=-eq-ok, from_option, subst, bad_request, ok_injective, position_fields_untrusted,
  ap, signing_request_invalid, require, not, position_out_of_slot, signing_fields_untrusted,
  from_option-eq-ok, require-eq-ok, ◌||◌, signing_mode_invalid, leb, declaration_invalid,
  positions_invalid, positions_incomplete, and-eq-true, any, ◌==◌, ◌∙◌, ==_iff, All-map, sym,
  not-any-All, Text, none,
}
use authorization_document.Templates.Tree.{Slot}

abbrev pub position_of : Slot → Position → Bool
position_of s p = text_eq p.slot_id s.slot_id

abbrev pub required_slots : List Slot → List Slot
required_slots = filter (λ s. s.required)

-- The position lies within the slot that it names.
abbrev pub IsInside : List Slot → Position → Type 0
IsInside slots p =
    (s : Slot) × (find (λ (t : Slot). text_eq t.slot_id p.slot_id) slots ≡ some s)
    × (lies_within s p ≡ true)

names_slot-some :
    (t : Slot) (raw : Option RawPosition) (p : RawPosition) (id : Text)
    → raw ≡ some p
    → p.slot_id ≡ some id
    → names_slot t raw ≡ text_eq id t.slot_id
names_slot-some t none p id e e' = cc
names_slot-some t (some r) p id e e' = ground arith

place-eq-ok :
    (slots : List Slot) (raw : Option RawPosition) (q : Position)
    → place slots raw ≡ ok q
    → IsInside slots q × ((s : Slot) → names_slot s raw ≡ position_of s q)
unfolding place
place-eq-ok slots raw q h =
    let (p, e, h₁) = >>=-eq-ok (from_option (bad_request position_fields_untrusted) raw) _ h in
    let (u, e₁, h₂) =
      >>=-eq-ok (require (not p.has_other_keys) (bad_request position_fields_untrusted)) _ h₁ in
    let (id, e₂, h₃) = >>=-eq-ok (from_option (bad_request position_out_of_slot) p.slot_id) _ h₂ in
    let (s, e₃, h₄) =
      >>=-eq-ok
        (from_option (bad_request position_out_of_slot)
          (find (λ (s : Slot). text_eq s.slot_id id) slots))
        _ h₃ in
    let (page, e₄, h₅) = >>=-eq-ok (from_option (bad_request position_out_of_slot) p.page) _ h₄ in
    let (x, e₅, h₆) = >>=-eq-ok (from_option (bad_request position_out_of_slot) p.x) _ h₅ in
    let (y, e₆, h₇) = >>=-eq-ok (from_option (bad_request position_out_of_slot) p.y) _ h₆ in
    let (width, e₇, h₈) = >>=-eq-ok (from_option (bad_request position_out_of_slot) p.width) _ h₇ in
    let (height, e₈, h₉) =
      >>=-eq-ok (from_option (bad_request position_out_of_slot) p.height) _ h₈ in
    let made : Position = record {
      slot_id = id;
      page = page;
      x = x;
      y = y;
      width = width;
      height = height;
    } in
    let (u₁, e₉, k) =
      >>=-eq-ok (require (lies_within s made) (bad_request position_out_of_slot)) _ h₉ in
    let inside : IsInside slots made = (
      s,
      from_option-eq-ok _ (find (λ (s : Slot). text_eq s.slot_id id) slots) e₃,
      require-eq-ok (lies_within s made) _ e₉,
    ) in
    let named : (t : Slot) → names_slot t raw ≡ position_of t made = λ t.
      names_slot-some t raw p id (from_option-eq-ok _ raw e) (from_option-eq-ok _ p.slot_id e₂) in
    subst (λ r. IsInside slots r × ((t : Slot) → names_slot t raw ≡ position_of t r))
      (ok_injective k) (inside, named)

place_all-eq-ok :
    (slots : List Slot) (raws : List (Option RawPosition)) (qs : List Position)
    → place_all slots raws ≡ ok qs
    → All (IsInside slots) qs
      × (length qs ≡ length raws)
      × ((s : Slot) → count (names_slot s) raws ≡ count (position_of s) qs)
unfolding place_all count
place_all-eq-ok slots [] qs h =
    subst
      (λ l. All (IsInside slots) l × (length l ≡ 0) × ((s : Slot) → 0 ≡ count (position_of s) l))
      (ok_injective h) (tt, refl, λ s. refl)
place_all-eq-ok slots (raw ∷ raws) qs h =
    let (q, e, h₁) = >>=-eq-ok (place slots raw) _ h in
    let (more, e₁, h₂) = >>=-eq-ok (place_all slots raws) _ h₁ in
    let (inside, named) = place-eq-ok slots raw q e in
    let (all, same, counted) = place_all-eq-ok slots raws more e₁ in
    subst
      (λ l.
        All (IsInside slots) l
        × (length l ≡ length (raw ∷ raws))
        × ((s : Slot) → count (names_slot s) (raw ∷ raws) ≡ count (position_of s) l))
      (ok_injective h₂) ((inside, all), ap (λ n. suc n) same, λ s. rw (named s, counted s))

-- What a command that is accepted for some slots has.
pub record IsPlaced (slots : List Slot) (c : SigningCommand) : Type 0 where
  pub inside : All (IsInside (required_slots slots)) c.positions
  pub as_many : length c.positions ≡ count (λ s. s.required) slots
  pub once : All (λ s. count (position_of s) c.positions ≡ 1) (required_slots slots)

length-filter {ℓ} : {A : Type ℓ} (p : A → Bool) (xs : List A) → length (filter p xs) ≡ count p xs
unfolding filter count
length-filter p [] = refl
length-filter p (x ∷ xs) = ground (arith, length-filter p xs)

-- A signing command that is accepted places the signature in every required slot exactly once and
-- nowhere else: each position lies within the required slot that it names.
pub validate_signing_command-IsPlaced :
    (raw : Option RawCommand) (slots : List Slot) (c : SigningCommand)
    → validate_signing_command raw slots ≡ ok c
    → IsPlaced slots c
unfolding validate_signing_command covers
validate_signing_command-IsPlaced raw slots c h =
    let (value, e, h₁) = >>=-eq-ok (from_option (bad_request signing_request_invalid) raw) _ h in
    let (u, e₁, h₂) =
      >>=-eq-ok (require (not value.has_other_keys) (bad_request signing_fields_untrusted)) _ h₁ in
    let (u₁, e₂, h₃) =
      >>=-eq-ok
        (require
          (text_eq (printed value.mode) handwritten_mode || text_eq (printed value.mode) seal_mode)
          (bad_request signing_mode_invalid))
        _ h₂ in
    let (resource, e₃, h₄) =
      >>=-eq-ok (from_option (bad_request signing_mode_invalid) value.resource_id) _ h₃ in
    let (version, e₄, h₅) =
      >>=-eq-ok (from_option (bad_request signing_mode_invalid) value.resource_version) _ h₄ in
    let (u₂, e₅, h₆) =
      >>=-eq-ok (require (leb 1 version) (bad_request signing_mode_invalid)) _ h₅ in
    let (u₃, e₆, h₇) =
      >>=-eq-ok (require value.declaration (bad_request declaration_invalid)) _ h₆ in
    let (positions, e₇, h₈) =
      >>=-eq-ok (from_option (bad_request positions_invalid) value.positions) _ h₇ in
    let required = required_slots slots in
    let (u₄, e₈, h₉) =
      >>=-eq-ok (require (covers required positions) (bad_request positions_incomplete)) _ h₈ in
    let (placed, e₉, k) = >>=-eq-ok (place_all required positions) _ h₉ in
    let (all, same, counted) = place_all-eq-ok required positions placed e₉ in
    let (each, total) =
      and-eq-true (not (any (λ s. not (count (names_slot s) positions == 1)) required))
        (length positions == length required) (require-eq-ok (covers required positions) _ e₈) in
    let made : SigningCommand = record {
      mode = value.mode;
      resource_id = resource;
      resource_version = version;
      positions = placed;
      seal_original = value.seal_original;
    } in
    subst (IsPlaced slots) (ok_injective k) (
      let out : IsPlaced slots made = record {
        inside = all;
        as_many =
            same
            ∙ (==_iff (length positions) (length required)).0 total
            ∙ length-filter (λ s. s.required) slots;
        once =
            All-map _ _
              (λ (s : Slot) e. sym (counted s) ∙ (==_iff (count (names_slot s) positions) 1).0 e)
              required
              (not-any-All (λ s. count (names_slot s) positions == 1) required (ground arith));
      } in
      out)
