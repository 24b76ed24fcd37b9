-- ===== src/Tests/AuthTests.antt =====
-- Runs of the identity cache.
use authorization_document.Auth.Revoked.{authenticate-authenticate}
use authorization_document.Auth.Identity.{
  authenticate, AuthState, RawEnvelope, BackendIdentity, cached_user, answered, unreachable,
  fetch_identity, settle, parse_identity, roles_of, distinct, upsert_user,
}
use authorization_document.Model.Rows.{Hash}
use authorization_document.Base.{
  ok, none, some, true, false, refl, [], ◌∷◌, err, Text, Result, ◌≡◌, codes, length, unavailable,
  upstream_unavailable, is_among, trim, is_space, is_blank, not_authorized,
}

runs : Unit {0}
unfolding authenticate cached_user fetch_identity settle parse_identity roles_of distinct
    upsert_user is_among trim is_space is_blank
runs = tt

abbrev token : Text
token = codes "t"

abbrev length_of : Text → Hash
length_of = length

abbrev empty : AuthState
empty = record { cache = λ h. none; users = [] }

abbrev payload : RawEnvelope
payload = record {
  code_is_200 = true;
  user = some (record {
    user_id = some (codes "7");
    user_name = none;
    nick_name = some (codes "N");
    dept_id = none;
    dept_name = none;
    role_keys = some (codes " admin ") ∷ none ∷ some (codes "admin") ∷ [];
  });
}

abbrev known : BackendIdentity
known = record {
  user_id = codes "7";
  name = codes "N";
  department_id = none;
  department_name = none;
  roles = codes "admin" ∷ [];
}

abbrev asked : Result BackendIdentity × AuthState
asked =
    authenticate length_of true (some 90) 1000 1100 false (answered 200 (some payload)) token empty

asked_run : asked.0 ≡ ok known
unfolding runs
asked_run = refl

-- A read within the minute is served from the cache, a write is not.
cached_run :
    ((authenticate length_of true none 61000 61100 false unreachable token asked.1).0 ≡ ok known)
    × ((authenticate length_of true none 61000 61100 true unreachable token asked.1).0
        ≡ err (unavailable upstream_unavailable))
unfolding runs
cached_run = (refl, refl)

authenticate-authenticate_example :
    (authenticate length_of true none 2200 2300 false unreachable token
      (authenticate length_of true none 2000 2100 true (answered 401 none) token asked.1).1).0
    ≡ fetch_identity true unreachable
unfolding runs
authenticate-authenticate_example =
    authenticate-authenticate length_of true none token refl 2000 2100 2200 2300 true false
      (answered 401 none) unreachable asked.1 not_authorized refl refl
