-- ===== src/Routing/Polyline.antt =====
-- engine/internal/routing/geometry.go: the encoded polylines that Google's routes come as. The text is
-- its bytes, and an index into it the bytes that are left. An int of 64 bits is its bits as a number
-- below 2 ^ 64, so that the sums wrap; a point is given before it is divided by 1e5.
pub mod RoundTrip
pub mod Fuel
use maps_main.Shared.{
  ℕ, zero, suc, length, ◌+◌, ◌-◌, ◌*◌, ◌/◌, ◌%◌, ◌^◌, Bool, Option, none, some, List, [], ◌∷◌, ltb,
  ◌==◌, if◌then◌else◌,
}

-- The loop of `decodePolylineValue`: five bits of each byte, the low ones first; `|=` adds, since the
-- bits do not overlap. A byte counts from 63, so its low five bits are those of the byte plus one.
unfoldable pub decode_bits : ℕ → ℕ → List ℕ → Option (ℕ × List ℕ)
decode_bits shift result [] = none
decode_bits shift result (c ∷ cs) =
    let result' = (result + (c + 1) % 32 * 2 ^ shift) % 2 ^ 64 in
    let more = decode_bits (shift + 5) result' cs in if ltb c 95 then some (result', cs) else more

-- `result >> 1` or `^(result >> 1)`: the shift keeps the sign, which the highest bit gives.
unfoldable pub unzigzag : ℕ → ℕ
unzigzag r =
    let half = r / 2 + (if ltb r (2 ^ 63) then 0 else 2 ^ 63) in
    if r % 2 == 0 then half else 2 ^ 64 - 1 - half

abbrev pub value_of : Option (ℕ × List ℕ) → Option (ℕ × List ℕ)
value_of none = none
value_of (some (r, rest)) = some (unzigzag r, rest)

-- `decodePolylineValue`: the value and the bytes after it; `none` where the text ends too soon.
unfoldable pub decode_polyline_value : List ℕ → Option (ℕ × List ℕ)
decode_polyline_value bytes = value_of (decode_bits 0 0 bytes)

abbrev pub Point : Type 0
Point = ℕ × ℕ

abbrev pub moved : Point → ℕ → ℕ → Point
moved (lat, lon) d_lat d_lon = ((lat + d_lat) % 2 ^ 64, (lon + d_lon) % 2 ^ 64)

-- One turn of the loop of `decodeEncodedPolyline`: the two deltas and the bytes after them.
abbrev pub second_delta : ℕ → Option (ℕ × List ℕ) → Option (ℕ × ℕ × List ℕ)
second_delta d_lat none = none
second_delta d_lat (some (d_lon, rest)) = some (d_lat, d_lon, rest)

abbrev pub after_first : Option (ℕ × List ℕ) → Option (ℕ × ℕ × List ℕ)
after_first none = none
after_first (some (d_lat, rest)) = second_delta d_lat (decode_polyline_value rest)

unfoldable pub decode_pair : List ℕ → Option (ℕ × ℕ × List ℕ)
decode_pair bytes = after_first (decode_polyline_value bytes)

-- What the loop ends with: the points, an error, or that the fuel ran out before the bytes did.
pub data Decoded : Type 0 where
  decoded : List Point → Decoded
  invalid out_of_fuel : Decoded

abbrev pub cons_point : Point → Decoded → Decoded
cons_point p (decoded ps) = decoded (p ∷ ps)
cons_point p invalid = invalid
cons_point p out_of_fuel = out_of_fuel

abbrev pub next_point : (List ℕ → Point → Decoded) → Point → Option (ℕ × ℕ × List ℕ) → Decoded
next_point later at none = invalid
next_point later at (some (d_lat, d_lon, rest)) =
    cons_point (moved at d_lat d_lon) (later rest (moved at d_lat d_lon))

-- The loop. Each turn takes two bytes at least.
abbrev pub decode_points : ℕ → List ℕ → Point → Decoded
decode_points fuel [] at = decoded []
decode_points zero (c ∷ cs) at = out_of_fuel
decode_points (suc fuel) (c ∷ cs) at =
    let later : List ℕ → Point → Decoded = λ rest p. decode_points fuel rest p in
    next_point later at (decode_pair (c ∷ cs))

-- `decodeEncodedPolyline`, which takes a text of no points for an error. The fuel is the number of bytes.
abbrev pub unless_empty : Decoded → Decoded
unless_empty (decoded []) = invalid
unless_empty (decoded (p ∷ ps)) = decoded (p ∷ ps)
unless_empty invalid = invalid
unless_empty out_of_fuel = out_of_fuel

unfoldable pub decode_encoded_polyline : List ℕ → Decoded
decode_encoded_polyline bytes = unless_empty (decode_points (length bytes) bytes (0, 0))
