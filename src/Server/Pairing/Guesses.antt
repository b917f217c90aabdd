-- ===== src/Server/Pairing/Guesses.antt =====
-- How many codes can be guessed through handlePair of pair.go.
use maps_main.Shared.{
  ℕ, suc, ◌+◌, ◌-◌, ◌*◌, ◌≤◌, ◌≡◌, String, Text, Bool, true, false, ◌&&◌, Option, List, [], ◌∷◌,
  arith, if◌then◌else◌, str_eq, Bool-cases, inl, inr,
}
use maps_main.Server.PairThrottle.{token, allow, refund}
use maps_main.Server.PairThrottle.Bound.{
  budget, budget-le, budget-later, budget-allow_same, budget-allow_other, refund-allow,
}
use maps_main.Server.Access.{Environment}
use maps_main.Server.Pairing.{
  PairRequest, PairReply, PairState, forbidden, too_many_requests, bad_request, wrong_code,
  internal_error, paired, redeem, try_code, handle_pair,
}

-- A reply that was given without a pairing after the throttle let the request through.
abbrev is_guess : PairReply → Bool
is_guess forbidden = false
is_guess too_many_requests = false
is_guess bad_request = true
is_guess wrong_code = true
is_guess internal_error = true
is_guess (paired t d) = false

abbrev guess_cost : Bool → ℕ
guess_cost true = token
guess_cost false = 0

module _ (decode_seed : Text → Option (List ℕ)) (hmac_sha1 : List ℕ → List ℕ → ℕ → ℕ)
    (hash_secret : Text → Text) where
  -- What a granted request does to the buckets.
  buckets-try_code :
      (q : PairRequest) (st : PairState)
      → let out = try_code decode_seed hmac_sha1 hash_secret q st in
        out.1.buckets
        ≡ (if is_guess out.0 then st.buckets else refund q.request.client_ip st.buckets)
  unfolding try_code redeem
  buckets-try_code q st = ground arith

  abbrev by : String → PairRequest → Bool
  by ip q = str_eq q.request.client_ip ip

  -- A request takes a token out of the budget of an address only as a guess of that address.
  budget-handle_pair :
      (ip : String) (env : Environment) (q : PairRequest) (st : PairState)
      → let out = handle_pair decode_seed hmac_sha1 hash_secret env q st in
        budget ip q.at out.1.buckets + guess_cost (by ip q && is_guess out.0)
        ≤ budget ip q.at st.buckets
  unfolding handle_pair
  budget-handle_pair ip env q st =
      let jp = q.request.client_ip in
      let spent_it = budget-allow_same ip jp q.at st.buckets in
      let untouched = budget-allow_other ip jp q.at st.buckets in
      let given_back = refund-allow jp ip q.at st.buckets in
      let after = buckets-try_code q (record st { buckets = (allow jp q.at st.buckets).1 }) in
      ground (arith, spent_it, untouched, given_back, after)

  -- Pairing requests in the order of their arrival, and when the last one came.
  abbrev InOrder : ℕ → List PairRequest → Type 0
  InOrder now [] = Unit {0}
  InOrder now (q ∷ rest) = (now ≤ q.at) × InOrder q.at rest

  abbrev pub last_at : ℕ → List PairRequest → ℕ
  last_at now [] = now
  last_at now (q ∷ rest) = last_at q.at rest

  -- How many guesses of one address the requests come to.
  pub guesses : String → Environment → List PairRequest → PairState → ℕ
  guesses ip env [] st = 0
  guesses ip env (q ∷ rest) st =
      let out = handle_pair decode_seed hmac_sha1 hash_secret env q st in
      let n = guesses ip env rest out.1 in if by ip q && is_guess out.0 then suc n else n

  last_at-le : (now : ℕ) (qs : List PairRequest) → InOrder now qs → now ≤ last_at now qs
  last_at-le now [] h = omega arith
  last_at-le now (q ∷ rest) h = omega (arith, last_at-le q.at rest h.1)

  guesses-budget :
      (ip : String) (env : Environment) (now : ℕ) (qs : List PairRequest) (st : PairState)
      → InOrder now qs
      → guesses ip env qs st * token ≤ budget ip now st.buckets + (last_at now qs - now)
  unfolding guesses
  guesses-budget ip env now [] st h = omega arith
  guesses-budget ip env now (q ∷ rest) st h =
      let out = handle_pair decode_seed hmac_sha1 hash_secret env q st in
      let bound = guesses-budget ip env q.at rest out.1 h.1 in
      let end = last_at-le q.at rest h.1 in
      let refill = budget-later ip now q.at st.buckets h.0 in
      let cost = budget-handle_pair ip env q st in
      elim (Bool-cases (by ip q && is_guess out.0)) [
        | inl hit ↦ rw hit (omega (arith, bound, end, refill, rw hit at cost))
        | inr miss ↦ rw miss (omega (arith, bound, end, refill, rw miss at cost))
      ]

  -- Whatever requests arrive, in whatever mix of addresses and with honest pairings in between, the
  -- guesses that one address gets at the pairing code number at most five and one more for every ten
  -- seconds: a guess is a request that the throttle lets through and that does not end in a pairing.
  pub guesses_bound :
      (ip : String) (env : Environment) (start : ℕ) (qs : List PairRequest) (st : PairState)
      → InOrder start qs
      → guesses ip env qs st * token ≤ 5 * token + (last_at start qs - start)
  guesses_bound ip env start qs st h =
      omega (arith, guesses-budget ip env start qs st h, budget-le ip start st.buckets)
