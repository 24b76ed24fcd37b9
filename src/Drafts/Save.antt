-- ===== src/Drafts/Save.antt =====
-- `savePublicDraft` and `assertSupplementOnlyTx` of apps/api/src/cases/case.service.ts.
use authorization_document.Drafts.Content.{latest_draft, RenderInput, content_digest}
use authorization_document.Review.Confirm.{latest_snapshot}
use authorization_document.Links.Access.{resolve}
use authorization_document.Files.Capacity.{invalidate_signings}
use authorization_document.Model.Db.{Db, record_status, set_case, audit_as}
use authorization_document.Model.Rows.{
  Key, Content, Review, Hash, Json, Draft, Time, Case, the_customer, public_draft_new_version,
  public_draft_saved, TargetType,
}
use authorization_document.Model.Status.{
  awaiting_customer, customer_editing, needs_supplement, customer_actor, is_reject, same_status,
  is_editable,
}
use authorization_document.Base.{
  ℕ, ◌>>=◌, ◌>>◌, none, some, false, [], ◌∷◌, ok, List, Option, Bool, ◌==◌, any, ◌&&◌, not, Result,
  ◌||◌, same_id, require, ◌+◌, from_option, bad_request, if◌then◌else◌, not_found, supplement_only,
  case_missing, status_not_allowed, conflict, draft_version_conflict, option_map, find,
}

pub record DraftBody : Type 0 where
  pub base_version : ℕ
  pub answers : List (Key × Json)
  pub materials : Option Json
  pub file_versions : List Key

-- The names of the two answers that the code treats apart.
abbrev pub materials_name : Key
materials_name = 0

abbrev pub materials_version_name : Key
materials_version_name = 1

-- `answers[key]`
unfoldable pub answer : Key → List (Key × Json) → Option Json
answer key answers = option_map (λ (a : Key × Json). a.1) (find (λ a. a.0 == key) answers)

abbrev first_of : Option Json → Option Json → Option Json
first_of none b = b
first_of (some a) b = some a

unfoldable pub content_of : DraftBody → Content
unfolding answer
content_of body = record {
  answers = body.answers;
  materials = first_of body.materials (answer materials_name body.answers);
  file_versions = body.file_versions;
}

abbrev pub is_rejected_item : Key → Key → Review → Bool
is_rejected_item case_id requirement r =
    r.case_id == case_id && is_reject r.decision && r.requirement_version == requirement

-- Whether an answer belongs to a rejected item of the latest snapshot.
unfoldable pub is_allowed : Key → Db → Key → Bool
unfolding latest_snapshot
is_allowed case_id db key = elim (latest_snapshot case_id db) [
  | none ↦ false
  | some s ↦
      any
        (λ r.
          any (is_rejected_item case_id r.requirement_version) db.reviews
          && (r.requirement_version == key || r.key == key))
        s.requirements
]

abbrev pub previous_answers : Option Draft → List (Key × Json)
previous_answers none = []
previous_answers (some d) = d.content.answers

-- An answer outside the rejected items differs from the one before.
unfoldable pub is_foreign_change : Key → Db → List (Key × Json) → List (Key × Json) → Key → Bool
unfolding is_allowed answer
is_foreign_change case_id db answers previous key =
    not (is_allowed case_id db key)
    && not (key == materials_version_name)
    && not (same_id (answer key answers) (answer key previous))

unfoldable pub assert_supplement_only :
    Key → List (Key × Json) → Option Draft → Db → Result (Unit {0})
unfolding is_foreign_change
assert_supplement_only case_id answers latest db =
    require
      (not (any (λ a. is_foreign_change case_id db answers (previous_answers latest) a.0) answers))
      (bad_request supplement_only)

abbrev pub number_of : Option Draft → ℕ
number_of none = 0
number_of (some d) = d.version

-- The writes of a save.
unfoldable pub save_writes : Time → Key → Case → Bool → Bool → DraftBody → ℕ → Db → Db
unfolding invalidate_signings
save_writes now id item force changed body current db =
    let saved = record db {
      drafts =
          record {
            case_id = id;
            version = current + 1;
            base_version = if force then current else body.base_version;
            content = content_of body;
            actor_type = customer_actor;
          }
          ∷ db.drafts;
      answers =
          record {
            case_id = id;
            draft_version = current + 1;
            answers = body.answers;
            actor_type = customer_actor;
          }
          ∷ db.answers;
    } in
    let moved =
      if same_status item.status awaiting_customer
      then (record_status id (some item.status) customer_editing the_customer none
          (set_case id (record item { status = customer_editing }) saved))
      else saved in
    let signed = if changed then (invalidate_signings now id moved) else moved in
    audit_as customer_actor (if force then public_draft_new_version else public_draft_saved)
      TargetType.business_case id signed

unfoldable pub digest_before : (RenderInput → Hash) → Key → Option Draft → Db → Result (Option Hash)
unfolding content_digest
digest_before digest_of id none db = ok none
digest_before digest_of id (some d) db = do
  h ← content_digest digest_of id d.version d.content db
  ok (some h)

module _ (digest : Key → Hash) (digest_of : RenderInput → Hash) where
  unfoldable pub save_public_draft : Time → Key → DraftBody → Bool → Db → Result (ℕ × Db)
  unfolding resolve latest_draft assert_supplement_only digest_before content_digest save_writes
  save_public_draft now token body force db = do
    link ← resolve digest now token db
    item ← from_option (not_found case_missing) (db.cases link.case_id)
    require (is_editable item.status) (bad_request status_not_allowed)
    let latest = latest_draft link.case_id db
    let current = number_of latest
    require (force || current == body.base_version) (conflict draft_version_conflict)
    (if same_status item.status needs_supplement
        then (assert_supplement_only link.case_id body.answers latest db)
        else (ok tt))
    before ← digest_before digest_of link.case_id latest db
    after ← content_digest digest_of link.case_id (current + 1) (content_of body) db
    ok (
      current + 1,
      save_writes now link.case_id item force (not (same_id before (some after))) body current db,
    )
