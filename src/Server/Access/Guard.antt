-- ===== src/Server/Access/Guard.antt =====
-- Whom checkAuth of auth.go lets in, and that a revoked device is not among them.
use maps_main.Shared.{
  ℕ, ◌≡◌, ◌≢◌, ◌↔◌, Text, text_eq_iff, cut, All, Bool, true, false, Option, some, List, arith, ◌⊎◌,
}
use maps_main.Auth.Store.{Store, revoke, is_empty, dot}
use maps_main.Auth.Store.Spec.{Call, after_all}
use maps_main.Auth.Store.Access.{pairs_not, verify_token-revoke}
use maps_main.Server.Access.{
  Request, Environment, allowed, check_origin, bearer_or_query_token, paired_token, check_auth,
}

module _ (hash_secret : Text → Text) where
  -- A request is let in exactly if its origin is one that is trusted and, besides, it bears the token of
  -- a paired device, or a key is configured and it bears that key, or no key is configured and it comes
  -- from the machine itself.
  check_auth_iff :
      (env : Environment) (read wrote : Bool) (now : ℕ) (r : Request) (auth : Option Store)
      → ((check_auth hash_secret env read wrote now r auth).0 ≡ allowed) ↔ (
          (check_origin env r ≡ true)
          × (((paired_token hash_secret read wrote (bearer_or_query_token r) now auth).0 ≡ true)
              ⊎ ((is_empty env.api_key ≡ false) × (bearer_or_query_token r ≡ env.api_key))
              ⊎ ((is_empty env.api_key ≡ true) × (r.peer_loopback ≡ true))))
  unfolding check_auth
  check_auth_iff env read wrote now r auth =
      let key = text_eq_iff (bearer_or_query_token r) env.api_key in ground (arith, key)

  -- A device that was revoked, calling from another machine, is refused with any token that names its
  -- id, after whatever further calls that do not pair the id again, unless that token is the configured
  -- key itself.
  pub check_auth-revoke :
      (env : Environment) (r : Request) (s : Store) (i secret : Text) (calls : List Call)
      (wrote : Bool) (now : ℕ)
      → cut dot (bearer_or_query_token r) ≡ some (i, secret)
      → r.peer_loopback ≡ false
      → bearer_or_query_token r ≢ env.api_key
      → All (λ c. pairs_not i c ≡ true) calls
      → (check_auth hash_secret env true wrote now r
          (some (after_all hash_secret calls (revoke true i s).1))).0
        ≢ allowed
  unfolding paired_token
  check_auth-revoke env r s i secret calls wrote now parts remote unkeyed ok got =
      let end = after_all hash_secret calls (revoke true i s).1 in
      let shut =
        verify_token-revoke hash_secret i secret s (bearer_or_query_token r) calls wrote now parts
          ok in
      let unpaired : (paired_token hash_secret true wrote (bearer_or_query_token r) now
            (some end)).0
          ≡ false =
        ground (arith, shut) in
      let why = (check_auth_iff env true wrote now r (some end)).0 got in ground (arith, why)
