-- ===== src/Tests/Auth.antt =====
-- The theorems on the pairing code, the paired devices and the guard of the requests, with stand-ins
-- for base32, HMAC-SHA1 and SHA-256.
use maps_main.Shared.{
  ℕ, ◌+◌, ◌-◌, ◌*◌, ◌%◌, ◌≤◌, ◌≡◌, ◌≢◌, ◌↔◌, refl, Text, runes, true, false, Option, none, some,
  List, [], ◌∷◌, arith,
}
use maps_main.Auth.Totp.{verify_code_at}
use maps_main.Auth.Totp.Window.{Accepted, verify_code_at_iff}
use maps_main.Auth.Store.{Store, pair, verify_token, revoke, new_row, device_of}
use maps_main.Auth.Store.Spec.{
  Call, seeded, reseeded, paired, verified, withdrawn, view, after_all, meaning_all,
  after_all-refines,
}
use maps_main.Auth.Store.Access.{verify_token-pair}
use maps_main.Server.Access.{Request, Environment, allowed, bearer_or_query_token, check_auth}
use maps_main.Server.Access.Guard.{check_auth-revoke}
use maps_main.Server.PairThrottle.{token, no_buckets}
use maps_main.Server.Pairing.{PairRequest, PairState}
use maps_main.Server.Pairing.Guesses.{guesses, last_at, guesses_bound}

abbrev key : List ℕ
key = 1 ∷ 2 ∷ 3 ∷ []

abbrev pub decode : Text → Option (List ℕ)
decode seed = some key

abbrev sum : List ℕ → ℕ
sum [] = 0
sum (b ∷ bs) = b + sum bs

abbrev pub mac : List ℕ → List ℕ → ℕ → ℕ
mac k m i = (sum k + sum m * 37 + i * 11) % 256

abbrev hash : Text → Text
hash secret = 35 ∷ secret

abbrev pub seed : Text
seed = runes "JBSWY3DP"

verify_code_at_iff_example :
    (verify_code_at decode mac seed (runes " 123456 ") 1000 ≡ true)
    ↔ Accepted decode mac key (runes " 123456 ") 1000
verify_code_at_iff_example =
    verify_code_at_iff decode mac seed key (runes " 123456 ") 1000 refl (omega arith) (omega arith)

-- A phone and a tablet; the tablet is paired after the phone and revoked.
abbrev empty_store : Store
empty_store = record { seed = none; devices = [] }

abbrev phone : Text
phone = runes "p1"

abbrev pub tablet : Text
tablet = runes "t2"

abbrev calls : List Call
calls =
    seeded true seed
    ∷ paired true tablet (runes "zzz") (runes "tablette") 20
    ∷ reseeded false seed
    ∷ verified true true (runes "p1.abc") 30
    ∷ withdrawn true tablet
    ∷ []

after_all-refines_example :
    view (after_all hash calls empty_store) ≡ meaning_all hash calls (view empty_store)
after_all-refines_example = after_all-refines hash calls empty_store

verify_token-pair_example :
    (verify_token hash true true (runes "p1.abc") 40 (
      after_all hash calls
        (pair hash true phone (runes "abc") (runes " phone") 10 empty_store).1)).0
    ≡ true
unfolding pair
verify_token-pair_example =
    verify_token-pair hash phone (runes "abc") (runes " phone") 10 empty_store (runes "p1.abc")
      (device_of (new_row hash phone (runes "abc") (runes " phone") 10)) calls true 40 refl
      (ground arith) refl refl (refl, (refl, (refl, (refl, (refl, tt)))))

-- A request from the tablet, over the network, with its token as a bearer.
abbrev from_tablet : Request
from_tablet = record {
  origin = [];
  origin_url = none;
  host = runes "10.0.0.2:8080";
  authorization = runes "Bearer t2.zzz";
  subprotocols = [];
  query_token = [];
  client_ip = "10.0.0.9";
  peer_loopback = false;
}

abbrev with_key : Environment
with_key = record { api_key = runes "secret"; allowed_origins = [] }

abbrev pub with_tablet : Store
with_tablet = record {
  seed = none;
  devices = new_row hash tablet (runes "zzz") (runes "tablette") 20 ∷ [];
}

check_auth-revoke_example :
    (check_auth hash with_key true true 50 from_tablet
      (some (after_all hash (seeded true seed ∷ []) (revoke true tablet with_tablet).1))).0
    ≢ allowed
unfolding bearer_or_query_token
check_auth-revoke_example =
    check_auth-revoke hash with_key from_tablet with_tablet tablet (runes "zzz")
      (seeded true seed ∷ []) true 50 refl refl (λ h. ground arith) (refl, tt)

-- Three guesses from the network, a second apart.
abbrev guess : ℕ → PairRequest
guess at = record {
  request = from_tablet;
  at = at * 1000000000;
  body = some (runes "000000", runes "x");
  seed_db = true;
  pair_db = true;
  raw_seed = seed;
  id = tablet;
  secret = runes "zzz";
}

abbrev attempts : List PairRequest
attempts = guess 100 ∷ guess 101 ∷ guess 102 ∷ []

abbrev quiet : PairState
quiet = record { buckets = no_buckets; store = empty_store }

guesses_bound_example :
    guesses decode mac hash "10.0.0.9" with_key attempts quiet * token
    ≤ 5 * token + (last_at decode mac hash 100000000000 attempts - 100000000000)
guesses_bound_example =
    guesses_bound decode mac hash "10.0.0.9" with_key 100000000000 attempts quiet
      (omega arith, (omega arith, (omega arith, tt)))
