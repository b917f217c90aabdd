-- ===== src/Auth/Totp.antt =====
-- engine/internal/auth/totp.go: the rotating pairing code. A time is the bit pattern of its Unix
-- seconds, a number below 2^64; base32 decoding and HMAC-SHA1 are parameters. A byte of the MAC is
-- asked for by its index below 20, and the disjoint bits that `|` joins are added.
pub mod Window
use maps_main.Shared.{
  ℕ, ◌+◌, ◌-◌, ◌*◌, ◌/◌, ◌%◌, ◌^◌, Text, text_eq, byte_length, trim_space, Bool, true, false,
  Option, none, some, List, [], ◌∷◌, ◌==◌, ◌||◌, if◌then◌else◌,
}

-- totpStep in seconds, and totpDigits
abbrev totp_step : ℕ
totp_step = 30

abbrev totp_digits : ℕ
totp_digits = 6

abbrev pub big_endian : ℕ → List ℕ
big_endian n =
    n / 2 ^ 56 % 256
    ∷ n / 2 ^ 48 % 256
    ∷ n / 2 ^ 40 % 256
    ∷ n / 2 ^ 32 % 256
    ∷ n / 2 ^ 24 % 256
    ∷ n / 2 ^ 16 % 256
    ∷ n / 2 ^ 8 % 256
    ∷ n % 256
    ∷ []

-- The dynamic truncation of a MAC of 20 bytes to 31 bits.
unfoldable pub truncated : (ℕ → ℕ) → ℕ
truncated sum =
    let offset = sum 19 % 16 in
    sum offset % 128 * 2 ^ 24
    + sum (offset + 1) * 2 ^ 16
    + sum (offset + 2) * 2 ^ 8
    + sum (offset + 3)

abbrev pub digit : ℕ → ℕ
digit n = 48 + n % 10

-- `%06d` of a number below 10^6
unfoldable pub six_digits : ℕ → Text
six_digits v =
    digit (v / 100000)
    ∷ digit (v / 10000)
    ∷ digit (v / 1000)
    ∷ digit (v / 100)
    ∷ digit (v / 10)
    ∷ digit v
    ∷ []

-- `t.Add` of a step back or forth, on the bit pattern.
abbrev pub step_back : ℕ → ℕ
step_back t = (t + (2 ^ 64 - totp_step)) % 2 ^ 64

abbrev pub step_on : ℕ → ℕ
step_on t = (t + totp_step) % 2 ^ 64

module _ (decode_seed : Text → Option (List ℕ)) (hmac_sha1 : List ℕ → List ℕ → ℕ → ℕ) where
  unfoldable pub code_of : List ℕ → ℕ → Text
  code_of key counter = six_digits (truncated (hmac_sha1 key (big_endian counter)) % 1000000)

  -- `codeAt`; `none` for a seed that does not decode.
  unfoldable pub code_at : Text → ℕ → Option Text
  code_at seed t = elim (decode_seed seed) [
    | none ↦ none
    | some key ↦ some (code_of key (t / totp_step))
  ]

  -- The loop of `verifyCodeAt` over the skews.
  unfoldable pub tries : Text → Text → List ℕ → Bool
  tries seed code [] = false
  tries seed code (t ∷ ts) =
      let rest = tries seed code ts in
      elim (code_at seed t) [ none ↦ false | some want ↦ if text_eq want code then true else rest ]

  -- `verifyCodeAt`
  unfoldable pub verify_code_at : Text → Text → ℕ → Bool
  verify_code_at seed code t =
      let trimmed = trim_space code in
      if byte_length trimmed == totp_digits
      then tries seed trimmed (t ∷ step_back t ∷ step_on t ∷ [])
      else false
