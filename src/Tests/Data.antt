-- ===== src/Tests/Data.antt =====
-- The tables that the runs start from.
use authorization_document.Model.Db.{Db, put}
use authorization_document.Model.Rows.{published_version, Key, Case, Link, Hash, Time}
use authorization_document.Model.Status.{CaseStatus}
use authorization_document.Base.{none, some, [], ◌∷◌, ok, err, Result, ◌+◌, Option}

-- The value of a run; `other` is not reached.
abbrev pub get_ok {ℓ} : {A : Type ℓ} → Result A → A → A
get_ok (ok a) other = a
get_ok (err e) other = other

-- A digest that tells tokens apart.
abbrev pub hash_of : Key → Hash
hash_of t = t + 1000

abbrev pub some_case : CaseStatus → Option Key → Case
some_case status reviewer = record {
  status = status;
  template_version = 50;
  customer_name = b'A' ∷ [];
  contact_name = b'B' ∷ [];
  factory_department = b'C' ∷ [];
  owner = 60;
  reviewer = reviewer;
  department = 61;
  created_by = 60;
  closed_at = none;
}

abbrev pub some_link : Key → Key → Key → Time → Link
some_link id case_id token expires = record {
  id = id;
  case_id = case_id;
  hash = hash_of token;
  expires_at = expires;
  disabled_at = none;
  consumed_at = none;
  completed_at = none;
}

abbrev pub no_rows : Db
no_rows = record {
  cases = λ _. none;
  templates = λ _. some (record { status = published_version; ast = 0 });
  requirement_keys = λ r. r + 100;
  links = [];
  status_changes = [];
  snapshots = [];
  drafts = [];
  answers = [];
  signings = [];
  reviews = [];
  review_history = [];
  files = [];
  versions = [];
  tasks = [];
  outbox = [];
  audits = [];
}

-- One case, number 1, in a status, with an old link of token 7 that is open until 5000.
abbrev pub one_case : CaseStatus → Option Key → Db
one_case status reviewer = record no_rows {
  cases = put (λ _. none) 1 (some (some_case status reviewer));
  links = some_link 20 1 7 5000 ∷ [];
}
