-- ===== src/Auth/Revoked.antt =====
-- When a cached identity stops being served.
use authorization_document.Auth.Identity.{
  authenticate, settle, Answer, AuthState, cached_user, fetch_identity, BackendIdentity,
}
use authorization_document.Model.Db.{put}
use authorization_document.Model.Rows.{Hash, Time}
use authorization_document.Base.{
  ok, none, some, false, refl, err, Text, Bool, Option, ℕ, is_blank, ◌≡◌, Result, Reason,
  unauthorized, ap, ==_refl, ◌∙◌,
}

module _ (digest : Text → Hash) (configured : Bool) (ttl : Option ℕ) (token : Text)
    (filled : is_blank (some token) ≡ false) where
  -- Where nothing is served from the cache, the answer is that of the upstream system.
  asked :
      (now later : Time) (write : Bool) (answer : Answer) (st : AuthState)
      → cached_user write now (st.cache (digest token)) ≡ none
      → authenticate digest configured ttl now later write answer token st
        ≡ settle (digest token) later ttl st (fetch_identity configured answer)
  unfolding authenticate
  asked now later write answer st e = rw (filled, e) refl

  settle_result :
      (hash : Hash) (later : Time) (st : AuthState) (r : Result BackendIdentity)
      → (settle hash later ttl st r).0 ≡ r
  unfolding settle
  settle_result hash later st (err f) = refl
  settle_result hash later st (ok u) = refl

  -- A refusal ends what the cache holds: where a request that is not served from the cache is
  -- answered by the upstream system as unauthorized, the next request of the token, a read or a
  -- write at any time, gets what the upstream system says then.
  pub authenticate-authenticate :
      (now later now' later' : Time) (write write' : Bool) (answer answer' : Answer)
      (st : AuthState) (reason : Reason)
      → cached_user write now (st.cache (digest token)) ≡ none
      → fetch_identity configured answer ≡ err (unauthorized reason)
      → (authenticate digest configured ttl now' later' write' answer' token
          (authenticate digest configured ttl now later write answer token st).1).0
        ≡ fetch_identity configured answer'
  unfolding settle cached_user
  authenticate-authenticate now later now' later' write write' answer answer' st reason e f =
      let first = asked now later write answer st e in
      let dropped : (authenticate digest configured ttl now later write answer token st).1
          ≡ record st { cache = put st.cache (digest token) none } =
        rw (first, f) refl in
      rw dropped (
        ap (λ (x : Result BackendIdentity × AuthState). x.0)
          (asked now' later' write' answer' (record st { cache = put st.cache (digest token) none })
            (rw (==_refl (digest token)) refl))
        ∙ settle_result (digest token) later'
            (record st { cache = put st.cache (digest token) none })
            (fetch_identity configured answer'))
