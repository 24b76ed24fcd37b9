-- ===== src/Auth/Grants.antt =====
-- Who is let through.
use authorization_document.Auth.Abilities.{
  Ability, same_ability, enabled_mappings, authorize, RoleMapping, resolve_abilities,
  ResolvedAbilities, mapping_grants, abilities,
}
use authorization_document.Model.Rows.{Key}
use authorization_document.Base.{
  refl, inl, inr, [], ◌∷◌, some, true, refl, inl, inr, [], ◌∷◌, some, true, some, true, refl, [],
  ◌∷◌, inl, inr, ok, List, Bool, Option, any, ◌==◌, filter, ◌≡◌, arith, Bool-cases, Option-cases,
  ==_refl, ◌⊎◌, ◌≢◌, sym, ap, ◌∙◌, ◌||◌,
}

any-filter :
    (p q : Ability → Bool) (xs : List Ability)
    → any p (filter q xs) ≡ true
    → (x : Ability) × (p x ≡ true) × (q x ≡ true)
unfolding any filter
any-filter p q [] h = ground arith
any-filter p q (x ∷ xs) h = elim (Bool-cases (q x)) [
  | inr e ↦ any-filter p q xs (rw e at h)
  | inl e ↦ elim (Bool-cases (p x)) [
    | inl f ↦ (x, f, e)
    | inr f ↦ any-filter p q xs (let k = rw e at h in rw f at k)
  ]
]

same_ability→eq : (a b : Ability) → same_ability a b ≡ true → a ≡ b
same_ability→eq a b h = ground arith

enabled_split :
    (find_mapping : Key → Option RoleMapping) (r : Key) (roles : List Key)
    → (enabled_mappings find_mapping (r ∷ roles) ≡ enabled_mappings find_mapping roles)
      ⊎ ((m : RoleMapping) × (find_mapping r ≡ some m)
          × (m.enabled ≡ true)
          × (enabled_mappings find_mapping (r ∷ roles) ≡ m ∷ enabled_mappings find_mapping roles))
unfolding enabled_mappings
enabled_split find_mapping r roles = elim (Option-cases (find_mapping r)) [
  | inl e ↦ inl (rw (e, enabled_mappings) refl)
  | inr (m, e) ↦ elim (Bool-cases m.enabled) [
    | inl on ↦ inr (m, e, on, rw (e, on, enabled_mappings) refl)
    | inr off ↦ inl (rw (e, off, enabled_mappings) refl)
  ]
]

no_mapping :
    (find_mapping : Key → Option RoleMapping) (p : RoleMapping → Bool)
    → any p (enabled_mappings find_mapping []) ≢ true
unfolding enabled_mappings any
no_mapping find_mapping p h = ground arith

any_enabled :
    (find_mapping : Key → Option RoleMapping) (p : RoleMapping → Bool) (roles : List Key)
    → any p (enabled_mappings find_mapping roles) ≡ true
    → (r : Key) × (m : RoleMapping) × (any (λ x. x == r) roles ≡ true)
      × (find_mapping r ≡ some m)
      × (m.enabled ≡ true)
      × (p m ≡ true)
unfolding any
any_enabled find_mapping p [] h = absurd (no_mapping find_mapping p h)
any_enabled find_mapping p (r ∷ roles) h = elim (enabled_split find_mapping r roles) [
  | inl e ↦
      let (x, m, here, found, on, t) = any_enabled find_mapping p roles (sym (ap (any p) e) ∙ h) in
      (x, m, ground arith, found, on, t)
  | inr (m, e, on, list) ↦
      let k : (p m || any p (enabled_mappings find_mapping roles)) ≡ true =
        sym (ap (any p) list) ∙ h in
      elim (Bool-cases (p m)) [
        | inl t ↦ (r, m, rw (==_refl r) refl, e, on, t)
        | inr f ↦
            let (x, n, here, found, on', t) = any_enabled find_mapping p roles (rw f at k) in
            (x, n, ground arith, found, on', t)
      ]
]

authorize_parts :
    (find_mapping : Key → Option RoleMapping) (roles : List Key) (a : Ability)
    (r : ResolvedAbilities)
    → authorize find_mapping roles (some a) ≡ ok r
    → (any (same_ability a) r.granted ≡ true)
      × (r.granted
          ≡ filter (λ b. any (mapping_grants b) (enabled_mappings find_mapping roles)) abilities)
unfolding authorize resolve_abilities
authorize_parts find_mapping roles a r h = ground arith

-- A request that needs an ability is let through only if one of the identity's roles has a mapping
-- that is enabled and lists the ability or the wildcard.
pub authorize-mapping_grants :
    (find_mapping : Key → Option RoleMapping) (roles : List Key) (a : Ability)
    (r : ResolvedAbilities)
    → authorize find_mapping roles (some a) ≡ ok r
    → (k : Key) × (m : RoleMapping) × (any (λ x. x == k) roles ≡ true)
      × (find_mapping k ≡ some m)
      × (m.enabled ≡ true)
      × (mapping_grants a m ≡ true)
authorize-mapping_grants find_mapping roles a r h =
    let (has, list) = authorize_parts find_mapping roles a r h in
    let (b, same, granted) =
      any-filter (same_ability a)
        (λ b. any (mapping_grants b) (enabled_mappings find_mapping roles)) abilities
        (rw list at has) in
    any_enabled find_mapping (mapping_grants a) roles (rw (same_ability→eq a b same) granted)
