-- ===== src/Auth/Totp/Window.antt =====
-- What the pairing code of totp.go is, and when it is accepted.
use maps_main.Shared.{
  ◌∙◌, sym, ◌↔◌, ℕ, ◌+◌, ◌-◌, ◌/◌, ◌%◌, ◌^◌, ◌≤◌, ◌<◌, ◌≡◌, refl, Text, text_eq, text_eq_sound,
  text_eq_self, byte_length, trim_space, utf8_width, ◌||◌, Bool, true, Option, some, List, [], ◌∷◌,
  length, All, arith, ◌⊎◌, inl, inr,
}
use maps_main.Auth.Totp.{
  big_endian, six_digits, step_back, step_on, code_of, code_at, tries, verify_code_at, truncated,
  digit,
}

abbrev IsDigit : ℕ → Type 0
IsDigit c = (48 ≤ c) × (c ≤ 57)

six_digits-All : (v : ℕ) → (length (six_digits v) ≡ 6) × All IsDigit (six_digits v)
unfolding six_digits
six_digits-All v = ground arith

trim_space-six_digits : (v : ℕ) → trim_space (six_digits v) ≡ six_digits v
unfolding six_digits
trim_space-six_digits v = ground arith

utf8_width-digit : (n : ℕ) → utf8_width (digit n) ≡ 1
utf8_width-digit n = ground arith

byte_length-six_digits : (v : ℕ) → byte_length (six_digits v) ≡ 6
unfolding six_digits
byte_length-six_digits v = omega (
  arith,
  utf8_width-digit (v / 100000),
  utf8_width-digit (v / 10000),
  utf8_width-digit (v / 1000),
  utf8_width-digit (v / 100),
  utf8_width-digit (v / 10),
  utf8_width-digit v,
)

module _ (decode_seed : Text → Option (List ℕ)) (hmac_sha1 : List ℕ → List ℕ → ℕ → ℕ) where
  code_at-some :
      (seed : Text) (key : List ℕ) (t : ℕ)
      → decode_seed seed ≡ some key
      → code_at decode_seed hmac_sha1 seed t ≡ some (code_of decode_seed hmac_sha1 key (t / 30))
  unfolding code_at
  code_at-some seed key t h = rw (h, code_at) refl

  code_of-All :
      (key : List ℕ) (c : ℕ)
      → let code = code_of decode_seed hmac_sha1 key c in (length code ≡ 6) × All IsDigit code
  unfolding code_of
  code_of-All key c = six_digits-All (truncated (hmac_sha1 key (big_endian c)) % 1000000)

  trim_space-code_of :
      (key : List ℕ) (c : ℕ)
      → let code = code_of decode_seed hmac_sha1 key c in
        (trim_space code ≡ code) × (byte_length code ≡ 6)
  unfolding code_of
  trim_space-code_of key c =
      let v = truncated (hmac_sha1 key (big_endian c)) % 1000000 in
      (trim_space-six_digits v, byte_length-six_digits v)

  -- A code is accepted for three windows: the present one and its two neighbours.
  abbrev pub Accepted : List ℕ → Text → ℕ → Type 0
  Accepted key code t =
      (c : ℕ) × (t / 30 ≤ c + 1)
      × (c ≤ t / 30 + 1)
      × (trim_space code ≡ code_of decode_seed hmac_sha1 key c)

  tries-three :
      (seed : Text) (key : List ℕ) (code : Text) (a b c : ℕ)
      → decode_seed seed ≡ some key
      → tries decode_seed hmac_sha1 seed code (a ∷ b ∷ c ∷ []) ≡ (
          text_eq (code_of decode_seed hmac_sha1 key (a / 30)) code
          || text_eq (code_of decode_seed hmac_sha1 key (b / 30)) code
          || text_eq (code_of decode_seed hmac_sha1 key (c / 30)) code)
  unfolding tries
  tries-three seed key code a b c h =
      let pa = code_at-some seed key a h in
      let pb = code_at-some seed key b h in
      let pc = code_at-some seed key c h in rw (tries, pa, pb, pc) (ground arith)

  verify_code_at-three :
      (seed : Text) (key : List ℕ) (code : Text) (t : ℕ)
      → decode_seed seed ≡ some key
      → byte_length (trim_space code) ≡ 6
      → verify_code_at decode_seed hmac_sha1 seed code t ≡ (
          text_eq (code_of decode_seed hmac_sha1 key (t / 30)) (trim_space code)
          || text_eq (code_of decode_seed hmac_sha1 key (step_back t / 30)) (trim_space code)
          || text_eq (code_of decode_seed hmac_sha1 key (step_on t / 30)) (trim_space code))
  unfolding verify_code_at
  verify_code_at-three seed key code t h six =
      rw (verify_code_at, six)
        (tries-three seed key (trim_space code) t (step_back t) (step_on t) h)

  verify_code_at-length :
      (seed code : Text) (t : ℕ)
      → verify_code_at decode_seed hmac_sha1 seed code t ≡ true
      → byte_length (trim_space code) ≡ 6
  unfolding verify_code_at
  verify_code_at-length seed code t h = ground arith

  either : (a b c : Bool) → (a || b || c) ≡ true → (a ≡ true) ⊎ (b ≡ true) ⊎ (c ≡ true)
  either a b c h = ground arith

  verify_code_at_sound :
      (seed : Text) (key : List ℕ) (code : Text) (t : ℕ)
      → decode_seed seed ≡ some key
      → 30 ≤ t
      → t < 2 ^ 64 - 30
      → verify_code_at decode_seed hmac_sha1 seed code t ≡ true
      → Accepted key code t
  verify_code_at_sound seed key code t h lo hi ok =
      let six = verify_code_at-length seed code t ok in
      let hit = sym (verify_code_at-three seed key code t h six) ∙ ok in
      elim (either _ _ _ hit) [
        | inl a ↦ (t / 30, omega arith, omega arith, sym (text_eq_sound _ _ a))
        | inr (inl b) ↦ (step_back t / 30, omega arith, omega arith, sym (text_eq_sound _ _ b))
        | inr (inr c) ↦ (step_on t / 30, omega arith, omega arith, sym (text_eq_sound _ _ c))
      ]

  window :
      (t c : ℕ)
      → t / 30 ≤ c + 1
      → c ≤ t / 30 + 1
      → 30 ≤ t
      → t < 2 ^ 64 - 30
      → (t / 30 ≡ c) ⊎ (step_back t / 30 ≡ c) ⊎ (step_on t / 30 ≡ c)
  window t c a b lo hi = omega arith

  verify_code_at_complete :
      (seed : Text) (key : List ℕ) (code : Text) (t : ℕ)
      → decode_seed seed ≡ some key
      → 30 ≤ t
      → t < 2 ^ 64 - 30
      → Accepted key code t
      → verify_code_at decode_seed hmac_sha1 seed code t ≡ true
  verify_code_at_complete seed key code t h lo hi (c, a, b, e) =
      let size = trim_space-code_of key c in
      let six : byte_length (trim_space code) ≡ 6 = rw e size.1 in
      let self : text_eq (code_of decode_seed hmac_sha1 key c) (trim_space code) ≡ true =
        rw e (text_eq_self (code_of decode_seed hmac_sha1 key c)) in
      let three = verify_code_at-three seed key code t h six in
      elim (window t c a b lo hi) [
        | inl x ↦ three ∙ rw (x, self) (ground arith)
        | inr (inl x) ↦ three ∙ rw (x, self) (ground arith)
        | inr (inr x) ↦ three ∙ rw (x, self) (ground arith)
      ]

  -- A typed code, blanks around it aside, is accepted at a time from half a minute after 1970 exactly
  -- if it is the code of the present window of thirty seconds, of the one before or of the next.
  pub verify_code_at_iff :
      (seed : Text) (key : List ℕ) (code : Text) (t : ℕ)
      → decode_seed seed ≡ some key
      → 30 ≤ t
      → t < 2 ^ 64 - 30
      → (verify_code_at decode_seed hmac_sha1 seed code t ≡ true) ↔ Accepted key code t
  verify_code_at_iff seed key code t h lo hi = (
    verify_code_at_sound seed key code t h lo hi,
    verify_code_at_complete seed key code t h lo hi,
  )

  -- A pairing code that is shown is six decimal digits, and is accepted when it is typed in up to
  -- thirty seconds later, or by a clock that is up to thirty seconds behind.
  verify_code_at-code_at :
      (seed : Text) (key : List ℕ) (t later : ℕ)
      → decode_seed seed ≡ some key
      → 30 ≤ later
      → later < 2 ^ 64 - 30
      → later ≤ t + 30
      → t ≤ later + 30
      → (code : Text) × (code_at decode_seed hmac_sha1 seed t ≡ some code)
        × (length code ≡ 6)
        × All IsDigit code
        × (verify_code_at decode_seed hmac_sha1 seed code later ≡ true)
  verify_code_at-code_at seed key t later h lo hi after before =
      let digits = code_of-All key (t / 30) in
      let accepted : Accepted key (code_of decode_seed hmac_sha1 key (t / 30)) later =
        (t / 30, omega arith, omega arith, (trim_space-code_of key (t / 30)).0) in
      (
        code_of decode_seed hmac_sha1 key (t / 30),
        code_at-some seed key t h,
        digits.0,
        digits.1,
        verify_code_at_complete seed key _ later h lo hi accepted,
      )
