-- ===== src/Auth/Identity.antt =====
-- `AuthService` of apps/api/src/auth/auth.service.ts: the identity that the upstream system gives for
-- a token, and its cache. The answer of the upstream system is an argument.
use authorization_document.Model.Db.{put}
use authorization_document.Model.Rows.{Hash, Time}
use authorization_document.Base.{
  ok, ◌>>=◌, ◌>>◌, none, some, true, false, [], ◌∷◌, err, Text, Option, Bool, ℕ, trim, is_among,
  List, Failure, if◌then◌else◌, Result, unauthorized, is_empty, from_option, unavailable, ltb,
  text_eq, not, is_blank, not_authorized, upstream_unavailable, min, ◌&&◌, ◌+◌, token_missing,
  require, ◌==◌, ◌*◌, length, ◌||◌, leb,
}

pub record BackendIdentity : Type 0 where
  pub user_id : Text
  pub name : Text
  pub department_id : Option Text
  pub department_name : Option Text
  pub roles : List Text

-- The payload as it was sent: `none` where a value is missing or of a type that the code refuses; an
-- identifier, a name of a user and a department's identifier are given as `String` prints them.
pub record RawUser : Type 0 where
  pub user_id : Option Text
  pub user_name : Option Text
  pub nick_name : Option Text
  pub dept_id : Option Text
  pub dept_name : Option Text
  pub role_keys : List (Option Text)

pub record RawEnvelope : Type 0 where
  pub code_is_200 : Bool
  pub user : Option RawUser

-- What a request to the upstream system comes to: no answer in time or none that is JSON, or a status
-- with a payload.
pub data Answer : Type 0 where
  unreachable : Answer
  answered : ℕ → Option RawEnvelope → Answer

-- The role of an entry, if it has one.
abbrev role_of : Option Text → Option Text
role_of none = none
role_of (some key) = if is_empty (trim key) then none else some (trim key)

abbrev add_role : Option Text → List Text → List Text
add_role none roles = roles
add_role (some role) roles = role ∷ roles

-- `flatMap`, and the set of its values in their order.
unfoldable pub roles_of : List (Option Text) → List Text
unfolding trim
roles_of [] = []
roles_of (key ∷ rest) = add_role (role_of key) (roles_of rest)

unfoldable pub distinct : List Text → List Text → List Text
unfolding is_among
distinct seen [] = []
distinct seen (r ∷ rest) =
    let kept = r ∷ distinct (r ∷ seen) rest in
    let skipped = distinct seen rest in if is_among seen r then skipped else kept

abbrev or_empty : Option Text → Text
or_empty none = []
or_empty (some t) = t

abbrev name_of : RawUser → Text
name_of u = elim u.nick_name [ none ↦ or_empty u.user_name | some n ↦ n ]

-- `parseIdentity`
unfoldable pub parse_identity : Option RawEnvelope → Result BackendIdentity
unfolding roles_of distinct
parse_identity payload = do
  envelope ← from_option (unauthorized not_authorized) payload
  require envelope.code_is_200 (unauthorized not_authorized)
  u ← from_option (unauthorized not_authorized) envelope.user
  id ← from_option (unauthorized not_authorized) u.user_id
  require (not (is_empty (trim id))) (unauthorized not_authorized)
  let roles = distinct [] (roles_of u.role_keys)
  require (ltb 0 (length roles)) (unauthorized not_authorized)
  ok (record {
    user_id = id;
    name = name_of u;
    department_id = u.dept_id;
    department_name = u.dept_name;
    roles = roles;
  })

-- `fetchIdentity`; `configured` says whether there is an address to ask.
unfoldable pub fetch_identity : Bool → Answer → Result BackendIdentity
unfolding parse_identity
fetch_identity false answer = err (unavailable upstream_unavailable)
fetch_identity true unreachable = err (unavailable upstream_unavailable)
fetch_identity true (answered status payload) =
    if status == 401 || status == 403
    then err (unauthorized not_authorized)
    else if leb 200 status && leb status 299
    then parse_identity payload
    else err (unavailable upstream_unavailable)

pub record CacheEntry : Type 0 where
  pub user : BackendIdentity
  pub expires_at : Time

-- The cache, and the table of upstream users by their identifiers.
pub record AuthState : Type 0 where
  pub cache : Hash → Option CacheEntry
  pub users : List BackendIdentity

-- `positiveInteger(value, 60)` under the limit of 60 seconds.
abbrev pub ttl_seconds : Option ℕ → ℕ
ttl_seconds none = 60
ttl_seconds (some n) = if ltb 0 n then min n 60 else 60

-- `upsertUpstreamUser`
unfoldable pub upsert_user : BackendIdentity → List BackendIdentity → List BackendIdentity
upsert_user u [] = u ∷ []
upsert_user u (v ∷ vs) = if text_eq v.user_id u.user_id then u ∷ vs else v ∷ upsert_user u vs

-- A read is answered from the cache while its entry lasts.
unfoldable pub cached_user : Bool → Time → Option CacheEntry → Option BackendIdentity
cached_user write now none = none
cached_user write now (some entry) =
    if not write && ltb now entry.expires_at then some entry.user else none

abbrev is_unauthorized : Failure → Bool
is_unauthorized (unauthorized r) = true
is_unauthorized _ = false

-- What the answer of the upstream system leaves; `later` is the time after it.
unfoldable pub settle :
    Hash → Time → Option ℕ → AuthState → Result BackendIdentity → Result BackendIdentity × AuthState
unfolding upsert_user
settle hash later ttl st (err failure) = (
  err failure,
  if is_unauthorized failure then record st { cache = put st.cache hash none } else st,
)
settle hash later ttl st (ok user) = (
  ok user,
  record st {
    cache =
        put st.cache hash
          (some (record { user = user; expires_at = later + ttl_seconds ttl * 1000 }));
    users = upsert_user user st.users;
  },
)

-- `authenticate`; `digest` is SHA-256.
unfoldable pub authenticate :
    (Text → Hash)
    → Bool
    → Option ℕ
    → Time
    → Time
    → Bool
    → Answer
    → Text
    → AuthState
    → Result BackendIdentity × AuthState
unfolding trim cached_user fetch_identity settle
authenticate digest configured ttl now later write answer token st =
    if is_blank (some token)
    then (err (unauthorized token_missing), st)
    else elim (cached_user write now (st.cache (digest token))) [
      | some user ↦ (ok user, st)
      | none ↦ settle (digest token) later ttl st (fetch_identity configured answer)
    ]
