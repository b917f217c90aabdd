-- ===== src/Routing/Polyline/RoundTrip.antt =====
-- The polylines of geometry.go against the encoding that Google documents.
use maps_main.Shared.{
  ℕ, zero, suc, ◌+◌, ◌-◌, ◌*◌, ◌/◌, ◌%◌, ◌^◌, ◌≤◌, ◌<◌, ◌≡◌, refl, ap, ◌∙◌, true, false, some, List,
  [], ◌∷◌, ◌++◌, length, ltb, All, arith, inl, inr, Bool-cases, if◌then◌else◌,
}
use native.Mathlib.Nat.{mod-eq_of_lt}
use maps_main.Routing.Polyline.{
  decode_bits, unzigzag, value_of, decode_polyline_value, Point, moved, second_delta, after_first,
  decode_pair, decoded, decode_points, next_point, decode_encoded_polyline, unless_empty,
  cons_point,
}

-- The encoding of a number in chunks of five bits, at most one more than the fuel.
abbrev encode_bits : ℕ → ℕ → List ℕ
encode_bits zero v = (v + 63) ∷ []
encode_bits (suc f) v =
    let more = encode_bits f (v / 32) in if ltb v 32 then (v + 63) ∷ [] else (v % 32 + 95) ∷ more

-- The zigzag of an int of 64 bits.
abbrev zigzag : ℕ → ℕ
zigzag v = if ltb v (2 ^ 63) then 2 * v else 2 * (2 ^ 64 - 1 - v) + 1

abbrev encode_value : ℕ → List ℕ
encode_value v = encode_bits 11 (zigzag v)

distribute : (r q p : ℕ) → (r + 32 * q) * p ≡ r * p + q * (32 * p)
distribute r q p = omega arith

split_lem : (v p : ℕ) → v * p ≡ v % 32 * p + v / 32 * (32 * p)
split_lem v p =
    let e : v ≡ v % 32 + 32 * (v / 32) = omega arith in
    ap (λ x. x * p) e ∙ distribute (v % 32) (v / 32) p

pow_step : (shift : ℕ) → 2 ^ (shift + 5) ≡ 32 * 2 ^ shift
pow_step shift =
    let e : shift + 5 ≡ suc (suc (suc (suc (suc shift)))) = omega arith in
    let five : 2 ^ suc (suc (suc (suc (suc shift)))) ≡ 32 * 2 ^ shift = omega arith in
    ap (λ n. 2 ^ n) e ∙ five

last_byte :
    (v shift result : ℕ) (rest : List ℕ)
    → v < 32
    → result + v * 2 ^ shift < 2 ^ 64
    → decode_bits shift result ((v + 63) ∷ rest) ≡ some (result + v * 2 ^ shift, rest)
unfolding decode_bits
last_byte v shift result rest lt small =
    let bits : (v + 63 + 1) % 32 ≡ v = omega arith in
    let stops : ltb (v + 63) 95 ≡ true = ground arith in
    let fits : (result + v * 2 ^ shift) % 2 ^ 64 ≡ result + v * 2 ^ shift = mod-eq_of_lt small in
    rw (stops, bits, fits) refl

first_byte :
    (v shift result : ℕ) (rest : List ℕ)
    → v < 32
    → result + v * 2 ^ shift < 2 ^ 64
    → decode_bits shift result ((v + 95) ∷ rest)
      ≡ decode_bits (shift + 5) (result + v * 2 ^ shift) rest
unfolding decode_bits
first_byte v shift result rest lt small =
    let bits : (v + 95 + 1) % 32 ≡ v = omega arith in
    let goes_on : ltb (v + 95) 95 ≡ false = ground arith in
    let fits : (result + v * 2 ^ shift) % 2 ^ 64 ≡ result + v * 2 ^ shift = mod-eq_of_lt small in
    rw (goes_on, bits, fits) refl

-- What is left of a number after its first five bits, at its weight.
rest_lem :
    (v shift result : ℕ)
    → result + v % 32 * 2 ^ shift + v / 32 * 2 ^ (shift + 5) ≡ result + v * 2 ^ shift
rest_lem v shift result =
    let s = split_lem v (2 ^ shift) in
    let w = ap (λ p. v / 32 * p) (pow_step shift) in omega (arith, s, w)

-- Decoding at a weight gives back what was encoded, added to the bits that are there.
decode_bits-encode_bits :
    (f v shift result : ℕ) (rest : List ℕ)
    → v < 32 ^ suc f
    → result + v * 2 ^ shift < 2 ^ 64
    → decode_bits shift result (encode_bits f v ++ rest) ≡ some (result + v * 2 ^ shift, rest)
decode_bits-encode_bits zero v shift result rest lt small = last_byte v shift result rest lt small
decode_bits-encode_bits (suc f) v shift result rest lt small = elim (Bool-cases (ltb v 32)) [
  | inl last ↦ rw last (last_byte v shift result rest (ground (arith, last)) small)
  | inr more ↦
      let split = rest_lem v shift result in
      let part : result + v % 32 * 2 ^ shift < 2 ^ 64 = omega (arith, split, small) in
      let low : v % 32 < 32 = omega arith in
      let fits : result + v % 32 * 2 ^ shift + v / 32 * 2 ^ (shift + 5) < 2 ^ 64 =
        omega (arith, split, small) in
      let less : v / 32 < 32 ^ suc f = omega (arith, lt) in
      let later =
        decode_bits-encode_bits f (v / 32) (shift + 5) (result + v % 32 * 2 ^ shift) rest less
          fits in
      rw more (
        first_byte (v % 32) shift result (encode_bits f (v / 32) ++ rest) low part
        ∙ later
        ∙ ap (λ x. some (x, rest)) split)
]

-- An int that is small enough to be encoded in twelve chunks.
abbrev IsSmall : ℕ → Type 0
IsSmall v = zigzag v < 2 ^ 60

unzigzag-zigzag : (v : ℕ) → v < 2 ^ 64 → IsSmall v → unzigzag (zigzag v) ≡ v
unfolding unzigzag
unzigzag-zigzag v bits small = ground (arith, bits, small)

decode_polyline_value-encode_value :
    (v : ℕ) (rest : List ℕ)
    → v < 2 ^ 64
    → IsSmall v
    → decode_polyline_value (encode_value v ++ rest) ≡ some (v, rest)
unfolding decode_polyline_value
decode_polyline_value-encode_value v rest bits small =
    let fits : 0 + zigzag v * 2 ^ 0 < 2 ^ 64 = omega (arith, small) in
    let read = decode_bits-encode_bits 11 (zigzag v) 0 0 rest small fits in
    let same : 0 + zigzag v * 2 ^ 0 ≡ zigzag v = omega arith in
    ap value_of read
    ∙ ap (λ x. some (unzigzag x, rest)) same
    ∙ ap (λ x. some (x, rest)) (unzigzag-zigzag v bits small)

-- The deltas of the points, each an int of 64 bits that is small enough.
abbrev pub encode_deltas : List Point → List ℕ
encode_deltas [] = []
encode_deltas ((a, b) ∷ ds) = encode_value a ++ (encode_value b ++ encode_deltas ds)

abbrev IsShort : Point → Type 0
IsShort (a, b) = (a < 2 ^ 64) × IsSmall a × (b < 2 ^ 64) × IsSmall b

-- The points that deltas lead to, on ints of 64 bits.
abbrev pub sums : Point → List Point → List Point
sums at [] = []
sums (lat, lon) ((a, b) ∷ ds) =
    let next : Point = ((lat + a) % 2 ^ 64, (lon + b) % 2 ^ 64) in next ∷ sums next ds

decode_pair-encode :
    (a b : ℕ) (rest : List ℕ)
    → IsShort (a, b)
    → decode_pair (encode_value a ++ (encode_value b ++ rest)) ≡ some (a, b, rest)
unfolding decode_pair
decode_pair-encode a b rest (a_bits, a_small, b_bits, b_small) =
    ap after_first (decode_polyline_value-encode_value a (encode_value b ++ rest) a_bits a_small)
    ∙ ap (second_delta a) (decode_polyline_value-encode_value b rest b_bits b_small)

first_of : (f v : ℕ) (rest : List ℕ) → (c : ℕ) × (cs : List ℕ) × (encode_bits f v ++ rest ≡ c ∷ cs)
first_of zero v rest = (v + 63, rest, refl)
first_of (suc f) v rest = elim (Bool-cases (ltb v 32)) [
  | inl last ↦ (v + 63, rest, rw last refl)
  | inr more ↦ (v % 32 + 95, encode_bits f (v / 32) ++ rest, rw more refl)
]

decode_points-step :
    (f : ℕ) (bytes : List ℕ) (at : Point) (c : ℕ) (cs : List ℕ)
    → bytes ≡ c ∷ cs
    → decode_points (suc f) bytes at
      ≡ next_point (λ rest p. decode_points f rest p) at (decode_pair bytes)
decode_points-step f bytes at c cs h = rw h refl

decode_points-encode_deltas :
    (f : ℕ) (ds : List Point) (at : Point)
    → length ds ≤ f
    → All IsShort ds
    → decode_points f (encode_deltas ds) at ≡ decoded (sums at ds)
decode_points-encode_deltas f [] at enough short = refl
decode_points-encode_deltas zero ((a, b) ∷ ds) at enough short = ground (arith, enough)
decode_points-encode_deltas (suc f) ((a, b) ∷ ds) at enough (short, rest) =
    let bytes = encode_deltas ((a, b) ∷ ds) in
    let (c, cs, first) = first_of 11 (zigzag a) (encode_value b ++ encode_deltas ds) in
    let later = decode_points-encode_deltas f ds (moved at a b) (omega (arith, enough)) rest in
    decode_points-step f bytes at c cs first
    ∙ ap (next_point (λ rest p. decode_points f rest p) at)
        (decode_pair-encode a b (encode_deltas ds) short)
    ∙ ap (cons_point (moved at a b)) later

longer : (f v : ℕ) (rest : List ℕ) → length rest < length (encode_bits f v ++ rest)
longer zero v rest = omega arith
longer (suc f) v rest =
    let more = longer f (v / 32) rest in
    elim (Bool-cases (ltb v 32)) [
      | inl short ↦ rw short (omega arith)
      | inr long ↦ rw long (omega (arith, more))
    ]

length-encode_deltas : (ds : List Point) → length ds ≤ length (encode_deltas ds)
length-encode_deltas [] = omega arith
length-encode_deltas ((a, b) ∷ ds) =
    let more = longer 11 (zigzag a) (encode_value b ++ encode_deltas ds) in
    let less = longer 11 (zigzag b) (encode_deltas ds) in
    let later = length-encode_deltas ds in omega (arith, more, less, later)

-- A polyline that encodes a non-empty list of deltas, each small enough for twelve chunks, is decoded
-- to the points that these deltas lead to, with no error, and the bytes are fuel enough for it.
pub decode_encoded_polyline-encode_deltas :
    (d : Point) (ds : List Point)
    → All IsShort (d ∷ ds)
    → decode_encoded_polyline (encode_deltas (d ∷ ds)) ≡ decoded (sums (0, 0) (d ∷ ds))
unfolding decode_encoded_polyline
decode_encoded_polyline-encode_deltas d ds short = ap unless_empty (
    decode_points-encode_deltas (length (encode_deltas (d ∷ ds))) (d ∷ ds) (0, 0)
      (length-encode_deltas (d ∷ ds)) short)
