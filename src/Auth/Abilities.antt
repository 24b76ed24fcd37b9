-- ===== src/Auth/Abilities.antt =====
-- `AbilityService.resolve` of apps/api/src/auth/ability.service.ts and the check of
-- apps/api/src/auth/ability.guard.ts, with the abilities of packages/contracts/src/auth.ts.
use authorization_document.Model.Rows.{Key}
use authorization_document.Base.{
  ℕ, ◌>>=◌, ◌>>◌, none, some, true, false, [], ◌∷◌, ok, List, Bool, Option, any, ◌==◌,
  if◌then◌else◌, Result, filter, ltb, require, length, forbidden, not_authorized, map,
}

pub data Ability : Type 0 where
  case_read case_create case_edit_draft case_manage_link case_assign_owner : Ability
  case_assign_reviewer file_read sensitive_file_read review_item_ability : Ability
  review_confirm case_close pdf_retry requirement_manage template_manage : Ability
  template_publish role_mapping_manage audit_read_all : Ability

-- The position in `ABILITIES`.
abbrev pub ability_code : Ability → ℕ
ability_code case_read = 0
ability_code case_create = 1
ability_code case_edit_draft = 2
ability_code case_manage_link = 3
ability_code case_assign_owner = 4
ability_code case_assign_reviewer = 5
ability_code file_read = 6
ability_code sensitive_file_read = 7
ability_code review_item_ability = 8
ability_code review_confirm = 9
ability_code case_close = 10
ability_code pdf_retry = 11
ability_code requirement_manage = 12
ability_code template_manage = 13
ability_code template_publish = 14
ability_code role_mapping_manage = 15
ability_code audit_read_all = 16

abbrev pub abilities : List Ability
abilities =
    case_read ∷ case_create ∷ case_edit_draft ∷ case_manage_link ∷ case_assign_owner
    ∷ case_assign_reviewer ∷ file_read ∷ sensitive_file_read ∷ review_item_ability ∷ review_confirm
    ∷ case_close ∷ pdf_retry ∷ requirement_manage ∷ template_manage ∷ template_publish
    ∷ role_mapping_manage ∷ audit_read_all ∷ []

abbrev pub same_ability : Ability → Ability → Bool
same_ability a b = ability_code a == ability_code b

-- An entry of `capabilities`: an ability, the wildcard `*:*:*`, or another text.
pub data Capability : Type 0 where
  capability : Ability → Capability
  wildcard other_text : Capability

-- `SELF`, `DEPT`, `ALL`.
pub data DataScope : Type 0 where
  self_scope dept_scope all_scope : DataScope

abbrev pub scope_rank : DataScope → ℕ
scope_rank self_scope = 0
scope_rank dept_scope = 1
scope_rank all_scope = 2

pub record RoleMapping : Type 0 where
  pub role : Key
  pub enabled : Bool
  pub capabilities : List Capability
  pub data_scope : DataScope

abbrev pub grants : Ability → Capability → Bool
grants a (capability b) = same_ability b a
grants a wildcard = true
grants a other_text = false

unfoldable pub mapping_grants : Ability → RoleMapping → Bool
mapping_grants a m = any (grants a) m.capabilities

-- The mappings of the roles that are there and enabled; `find_mapping` is the repository's query.
unfoldable pub enabled_mappings : (Key → Option RoleMapping) → List Key → List RoleMapping
enabled_mappings find_mapping [] = []
enabled_mappings find_mapping (r ∷ roles) =
    let rest = enabled_mappings find_mapping roles in
    elim (find_mapping r) [ none ↦ rest | some m ↦ if m.enabled then m ∷ rest else rest ]

-- `scopeRank[mapping.dataScope] > scopeRank[dataScope]`, over the mappings in their order.
unfoldable pub widest : DataScope → List RoleMapping → DataScope
widest scope [] = scope
widest scope (m ∷ rest) =
    widest (if ltb (scope_rank scope) (scope_rank m.data_scope) then m.data_scope else scope) rest

pub record ResolvedAbilities : Type 0 where
  pub granted : List Ability
  pub data_scope : DataScope
  pub matched_roles : List Key

-- `resolve`; the roles are those of the identity, which `parseIdentity` has made distinct.
unfoldable pub resolve_abilities : (Key → Option RoleMapping) → List Key → Result ResolvedAbilities
unfolding enabled_mappings mapping_grants widest
resolve_abilities find_mapping roles =
    let enabled = enabled_mappings find_mapping roles in
    do
      require (ltb 0 (length enabled)) (forbidden not_authorized)
      ok (record {
        granted = filter (λ a. any (mapping_grants a) enabled) abilities;
        data_scope = widest self_scope enabled;
        matched_roles = map (λ m. m.role) enabled;
      })

-- The check of the guard once the identity is known; `none` where no ability is required.
unfoldable pub authorize :
    (Key → Option RoleMapping) → List Key → Option Ability → Result ResolvedAbilities
unfolding resolve_abilities
authorize find_mapping roles none = resolve_abilities find_mapping roles
authorize find_mapping roles (some a) = do
  resolved ← resolve_abilities find_mapping roles
  require (any (same_ability a) resolved.granted) (forbidden not_authorized)
  ok resolved
