-- ===== src/Tests/Polyline.antt =====
-- The theorems on encoded polylines at concrete texts; the first is the example of Google's guide.
use maps_main.Shared.{◌≡◌, ◌≢◌, ◌-◌, ◌^◌, refl, runes, [], ◌∷◌, arith}
use maps_main.Routing.Polyline.{
  decode_bits, unzigzag, decode_polyline_value, decode_pair, decoded, invalid, out_of_fuel,
  decode_encoded_polyline, Point,
}
use maps_main.Routing.Polyline.RoundTrip.{
  encode_deltas, sums, decode_encoded_polyline-encode_deltas,
}
use maps_main.Routing.Polyline.Fuel.{decode_encoded_polyline_ends}

abbrev first : Point
first = (3850000, 2 ^ 64 - 12020000)

abbrev second : Point
second = (220000, 2 ^ 64 - 75000)

google_guide : encode_deltas (first ∷ second ∷ []) ≡ runes "_p~iF~ps|U_ulLnnqC"
google_guide = refl

cut_short : decode_encoded_polyline (runes "_p~iF~ps|U_ulL") ≡ invalid
unfolding decode_bits unzigzag decode_polyline_value decode_pair decode_encoded_polyline
cut_short = refl

decode_encoded_polyline-encode_deltas_example :
    decode_encoded_polyline (encode_deltas (first ∷ second ∷ []))
    ≡ decoded (sums (0, 0) (first ∷ second ∷ []))
decode_encoded_polyline-encode_deltas_example =
    decode_encoded_polyline-encode_deltas first (second ∷ []) (
      (omega arith, omega arith, omega arith, omega arith),
      ((omega arith, omega arith, omega arith, omega arith), tt),
    )

decode_encoded_polyline_ends_example :
    decode_encoded_polyline (runes "_p~iF~ps|U_ulL") ≢ out_of_fuel
decode_encoded_polyline_ends_example = decode_encoded_polyline_ends (runes "_p~iF~ps|U_ulL")
