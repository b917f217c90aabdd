-- ===== src/Server/Pairing.antt =====
-- engine/internal/server/pair.go, `handlePair`: the one request that needs no credential. Its body is
-- held as the JSON decoder reads it, code and label, or nothing if it does not decode or is too long.
pub mod Guesses
use maps_main.Shared.{
  ℕ, ◌+◌, ◌/◌, String, Text, Bool, true, false, not, Option, none, some, List, if◌then◌else◌,
}
use maps_main.Auth.Totp.{verify_code_at}
use maps_main.Auth.Store.{Store, Device, ensure_seed, pair}
use maps_main.Server.PairThrottle.{Buckets, allow, refund}
use maps_main.Server.Access.{Environment, Request, check_origin}

-- A request to pair at `at`, a Unix time in nanoseconds, with what the store draws for it.
pub record PairRequest : Type 0 where
  pub request : Request
  pub at : ℕ
  pub body : Option (Text × Text)
  pub seed_db : Bool
  pub pair_db : Bool
  pub raw_seed : Text
  pub id : Text
  pub secret : Text

pub data PairReply : Type 0 where
  forbidden : PairReply
  too_many_requests : PairReply
  bad_request : PairReply
  wrong_code : PairReply
  internal_error : PairReply
  paired : Text → Device → PairReply

pub record PairState : Type 0 where
  pub buckets : Buckets
  pub store : Store

abbrev pub seconds : ℕ → ℕ
seconds at = at / 1000000000

module _ (decode_seed : Text → Option (List ℕ)) (hmac_sha1 : List ℕ → List ℕ → ℕ → ℕ)
    (hash_secret : Text → Text) where
  -- `VerifyCode` of store.go
  unfoldable pub verify_code : Bool → Text → Text → ℕ → Store → Bool × Store
  verify_code db raw code t s =
      let seeded = ensure_seed db raw s in
      elim (seeded.0) [
        | none ↦ (false, seeded.1)
        | some seed ↦ (verify_code_at decode_seed hmac_sha1 seed code t, seeded.1)
      ]

  -- The pairing itself, once the code is right.
  unfoldable pub redeem : PairRequest → Text → PairState → PairReply × PairState
  redeem q label st =
      let made = pair hash_secret q.pair_db q.id q.secret label (seconds q.at) st.store in
      elim (made.0) [
        | none ↦ (internal_error, record st { store = made.1 })
        | some (token, dev) ↦ (
          paired token dev,
          record { buckets = refund q.request.client_ip st.buckets; store = made.1 },
        )
      ]

  -- The request once the throttle has granted it.
  unfoldable pub try_code : PairRequest → PairState → PairReply × PairState
  try_code q st = elim (q.body) [
    | none ↦ (bad_request, st)
    | some (code, label) ↦
        let checked = verify_code q.seed_db q.raw_seed code (seconds q.at) st.store in
        let st' = record st { store = checked.1 } in
        let rest = redeem q label st' in if checked.0 then rest else (wrong_code, st')
  ]

  -- `handlePair`
  unfoldable pub handle_pair : Environment → PairRequest → PairState → PairReply × PairState
  handle_pair env q st =
      let spent = allow q.request.client_ip q.at st.buckets in
      let st' = record st { buckets = spent.1 } in
      let rest = try_code q st' in
      if not (check_origin env q.request)
      then (forbidden, st)
      else if not spent.0
      then (too_many_requests, st')
      else rest
