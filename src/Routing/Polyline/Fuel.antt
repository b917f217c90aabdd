-- ===== src/Routing/Polyline/Fuel.antt =====
-- The loop of `decodeEncodedPolyline` of geometry.go ends.
use maps_main.Shared.{
  ℕ, zero, suc, ◌+◌, ◌*◌, ◌%◌, ◌^◌, ◌≤◌, ◌<◌, ◌≡◌, ◌≢◌, refl, some, List, [], ◌∷◌, length, ltb,
  arith, inl, inr, Bool-cases, Option-cases,
}
use maps_main.Routing.Polyline.{
  decode_bits, decode_polyline_value, Point, moved, decode_pair, Decoded, decoded, invalid,
  out_of_fuel, decode_points, cons_point, unless_empty, decode_encoded_polyline,
}

bits_shorter :
    (shift result : ℕ) (bytes : List ℕ) (r : ℕ) (rest : List ℕ)
    → decode_bits shift result bytes ≡ some (r, rest)
    → length rest < length bytes
unfolding decode_bits
bits_shorter shift result [] r rest h = ground (arith, h)
bits_shorter shift result (c ∷ cs) r rest h =
    let later = bits_shorter (shift + 5) ((result + (c + 1) % 32 * 2 ^ shift) % 2 ^ 64) cs r rest in
    elim (Bool-cases (ltb c 95)) [
      | inl last ↦ ground (arith, h, last)
      | inr more ↦ ground (arith, h, more, later)
    ]

value_shorter :
    (bytes : List ℕ) (v : ℕ) (rest : List ℕ)
    → decode_polyline_value bytes ≡ some (v, rest)
    → length rest < length bytes
unfolding decode_polyline_value
value_shorter bytes v rest h = elim (Option-cases (decode_bits 0 0 bytes)) [
  | inl nothing ↦ ground (arith, h, nothing)
  | inr ((r, rest'), some_bits) ↦
      let less = bits_shorter 0 0 bytes r rest' some_bits in ground (arith, h, some_bits, less)
]

pair_shorter :
    (bytes : List ℕ) (a b : ℕ) (rest : List ℕ)
    → decode_pair bytes ≡ some (a, b, rest)
    → length rest < length bytes
unfolding decode_pair
pair_shorter bytes a b rest h = elim (Option-cases (decode_polyline_value bytes)) [
  | inl nothing ↦ ground (arith, h, nothing)
  | inr ((v, middle), first) ↦
      let less = value_shorter bytes v middle first in
      elim (Option-cases (decode_polyline_value middle)) [
        | inl nothing ↦ ground (arith, h, first, nothing)
        | inr ((w, rest'), second) ↦
            let less' = value_shorter middle w rest' second in
            ground (arith, h, first, second, less, less')
      ]
]

cons_point-ends : (p : Point) (d : Decoded) → d ≢ out_of_fuel → cons_point p d ≢ out_of_fuel
cons_point-ends p (decoded ps) h = ground arith
cons_point-ends p invalid h = ground arith
cons_point-ends p out_of_fuel h = λ e. h refl

-- The loop ends, within as many turns as there are bytes: with that much fuel it does not run out.
decode_points_ends :
    (f : ℕ) (bytes : List ℕ) (at : Point)
    → length bytes ≤ f
    → decode_points f bytes at ≢ out_of_fuel
decode_points_ends f [] at h = ground arith
decode_points_ends zero (c ∷ cs) at h = ground (arith, h)
decode_points_ends (suc f) (c ∷ cs) at h = elim (Option-cases (decode_pair (c ∷ cs))) [
  | inl nothing ↦ rw nothing (ground arith)
  | inr ((a, b, rest), pair) ↦
      let less = pair_shorter (c ∷ cs) a b rest pair in
      let later = decode_points_ends f rest (moved at a b) (omega (arith, less, h)) in
      rw pair (cons_point-ends (moved at a b) (decode_points f rest (moved at a b)) later)
]

unless_empty-ends : (d : Decoded) → d ≢ out_of_fuel → unless_empty d ≢ out_of_fuel
unless_empty-ends (decoded []) h = ground arith
unless_empty-ends (decoded (p ∷ ps)) h = ground arith
unless_empty-ends invalid h = ground arith
unless_empty-ends out_of_fuel h = h

-- The decoding of any text ends, with points or with an error, and never for want of fuel: every turn
-- of the loop consumes bytes.
pub decode_encoded_polyline_ends : (bytes : List ℕ) → decode_encoded_polyline bytes ≢ out_of_fuel
unfolding decode_encoded_polyline
decode_encoded_polyline_ends bytes =
    unless_empty-ends (decode_points (length bytes) bytes (0, 0))
      (decode_points_ends (length bytes) bytes (0, 0) (omega arith))
