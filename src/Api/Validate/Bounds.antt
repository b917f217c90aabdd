-- ===== src/Api/Validate/Bounds.antt =====
-- What the payloads that validate.go lets through are like.
use maps_main.Shared.Int.{ℤ, pos, ◌≤ℤ◌, ◌<ℤ◌}
use maps_main.Shared.{
  ◌≤◌, ◌≡◌, ◌↔◌, refl, runes, text_eq, text_eq_iff, byte_length, Bool, true, false, ◌&&◌, Option,
  none, some, List, [], ◌∷◌, length, All, arith, ◌⊎◌, inl, inr, leb, ltb, if◌then◌else◌, Bool-cases,
}
use maps_main.Api.Validate.{
  Float, not_a_number, finite, within, min_lat, max_lat, min_lon, max_lon, max_speed_kmh,
  max_radius_m, valid_lat_lon, valid_speed, valid_name, SetLocationPayload, validate_set_location,
  Point, Leg, valid_leg, valid_legs, validate_play_sequence, PatrolZone, validate_patrol_update,
  undecodable, invalid, handled, dispatch_unmarshal, valid_circle, valid_rectangle, infinite,
}

abbrev pub IsWithin : ℤ → ℤ → Float → Type 0
IsWithin lo hi f = (x : ℤ) × (f ≡ finite x) × (lo ≤ℤ x) × (x ≤ℤ hi)

within_sound : (lo hi : ℤ) (f : Float) → within lo hi f ≡ true → IsWithin lo hi f
within_sound lo hi not_a_number h = ground arith
within_sound lo hi (infinite up) h = ground arith
within_sound lo hi (finite x) h = (x, refl, ground arith, ground arith)

within_complete : (lo hi : ℤ) (f : Float) → IsWithin lo hi f → within lo hi f ≡ true
within_complete lo hi f (x, e, a, b) = rw e (ground arith)

-- Coordinates on the globe and a speed that can be played, 0 included.
abbrev IsPosition : Float → Float → Type 0
IsPosition lat lon = IsWithin min_lat max_lat lat × IsWithin min_lon max_lon lon

abbrev IsSpeed : Float → Type 0
IsSpeed speed = IsWithin (pos 0) max_speed_kmh speed

abbrev pub IsLeg : Leg → Type 0
IsLeg l = IsPosition l.start.lat l.start.lon × IsPosition l.end.lat l.end.lon × IsSpeed l.speed

two : (a b : Bool) → ((a && b) ≡ true) ↔ ((a ≡ true) × (b ≡ true))
two a b = ground arith

three : (a b c : Bool) → ((a && b && c) ≡ true) ↔ ((a ≡ true) × (b ≡ true) × (c ≡ true))
three a b c = ground arith

guarded : (a b : Bool) → ((if a then b else false) ≡ true) ↔ ((a ≡ true) × (b ≡ true))
guarded a b = ground arith

within_iff : (lo hi : ℤ) (f : Float) → (within lo hi f ≡ true) ↔ IsWithin lo hi f
within_iff lo hi f = (within_sound lo hi f, within_complete lo hi f)

valid_lat_lon_iff : (lat lon : Float) → (valid_lat_lon lat lon ≡ true) ↔ IsPosition lat lon
unfolding valid_lat_lon
valid_lat_lon_iff lat lon =
    let both = two (within min_lat max_lat lat) (within min_lon max_lon lon) in
    let north = within_iff min_lat max_lat lat in
    let east = within_iff min_lon max_lon lon in
    ((λ h. (north.0 (both.0 h).0, east.0 (both.0 h).1)), (λ h. both.1 (north.1 h.0, east.1 h.1)))

valid_speed_iff : (speed : Float) → (valid_speed speed ≡ true) ↔ IsSpeed speed
unfolding valid_speed
valid_speed_iff speed = within_iff (pos 0) max_speed_kmh speed

valid_leg_iff : (l : Leg) → (valid_leg l ≡ true) ↔ IsLeg l
unfolding valid_leg
valid_leg_iff l =
    let start = valid_lat_lon_iff l.start.lat l.start.lon in
    let end = valid_lat_lon_iff l.end.lat l.end.lon in
    let speed = valid_speed_iff l.speed in
    let all =
      three (valid_lat_lon l.start.lat l.start.lon) (valid_lat_lon l.end.lat l.end.lon)
        (valid_speed l.speed) in
    (
      (λ h. let each = all.0 h in (start.0 each.0, end.0 each.1, speed.0 each.2)),
      (λ h. all.1 (start.1 h.0, end.1 h.1, speed.1 h.2)),
    )

valid_legs_iff : (ls : List Leg) → (valid_legs ls ≡ true) ↔ All IsLeg ls
valid_legs_iff [] = ((λ h. tt), (λ h. refl))
valid_legs_iff (l ∷ ls) =
    let first = valid_leg_iff l in
    let rest = valid_legs_iff ls in
    let both = guarded (valid_leg l) (valid_legs ls) in
    ((λ h. (first.0 (both.0 h).0, rest.0 (both.0 h).1)), (λ h. both.1 (first.1 h.0, rest.1 h.1)))

-- A sequence is accepted exactly if it has from one to 500 legs, each from a position on the globe to
-- another, at a speed from 0 to 2000 km/h; nothing that is not a finite number passes.
pub validate_play_sequence_iff :
    (legs : List Leg)
    → (validate_play_sequence legs ≡ true)
      ↔ ((1 ≤ length legs) × (length legs ≤ 500) × All IsLeg legs)
unfolding validate_play_sequence
validate_play_sequence_iff legs =
    let each = valid_legs_iff legs in
    let some_leg : (ltb 0 (length legs) ≡ true) ↔ (1 ≤ length legs) = ground arith in
    let few : (leb (length legs) 500 ≡ true) ↔ (length legs ≤ 500) = ground arith in
    let all = three (ltb 0 (length legs)) (leb (length legs) 500) (valid_legs legs) in
    (
      (λ h. let parts = all.0 h in (some_leg.0 parts.0, few.0 parts.1, each.0 parts.2)),
      (λ h. all.1 (some_leg.1 h.0, few.1 h.1, each.1 h.2)),
    )

-- A location is accepted exactly if it lies on the globe and its name has at most 200 bytes.
validate_set_location_iff :
    (p : SetLocationPayload)
    → (validate_set_location p ≡ true) ↔ (IsPosition p.lat p.lon × (byte_length p.name ≤ 200))
unfolding validate_set_location valid_name
validate_set_location_iff p =
    let place = valid_lat_lon_iff p.lat p.lon in
    let short : (leb (byte_length p.name) 200 ≡ true) ↔ (byte_length p.name ≤ 200) = ground arith in
    let both = two (valid_lat_lon p.lat p.lon) (leb (byte_length p.name) 200) in
    ((λ h. (place.0 (both.0 h).0, short.0 (both.0 h).1)), (λ h. both.1 (place.1 h.0, short.1 h.1)))

-- What a zone must be like to be patrolled.
abbrev IsCircle : PatrolZone → Type 0
IsCircle z =
    (z.type ≡ runes "circle")
    × ((c : Point) × (z.center ≡ some c) × IsPosition c.lat c.lon)
    × ((z.radius ≡ not_a_number)
        ⊎ ((x : ℤ) × (z.radius ≡ finite x) × (pos 0 <ℤ x) × (x ≤ℤ max_radius_m)))

abbrev IsRectangle : PatrolZone → Type 0
IsRectangle z =
    (z.type ≡ runes "rectangle")
    × ((ne : Point) × (sw : Point) × (z.bounds ≡ some (ne, sw))
        × IsPosition ne.lat ne.lon
        × IsPosition sw.lat sw.lon)

valid_circle_sound :
    (center : Option Point) (radius : Float)
    → valid_circle center radius ≡ true
    → ((c : Point) × (center ≡ some c) × IsPosition c.lat c.lon)
      × ((radius ≡ not_a_number)
          ⊎ ((x : ℤ) × (radius ≡ finite x) × (pos 0 <ℤ x) × (x ≤ℤ max_radius_m)))
unfolding valid_circle
valid_circle_sound none radius h = ground arith
valid_circle_sound (some c) (infinite up) h = ground arith
valid_circle_sound (some c) not_a_number h =
    let here = valid_lat_lon_iff c.lat c.lon in
    let both = (two (valid_lat_lon c.lat c.lon) true).0 h in ((c, refl, here.0 both.0), inl refl)
valid_circle_sound (some c) (finite x) h =
    let here = valid_lat_lon_iff c.lat c.lon in
    let place : valid_lat_lon c.lat c.lon ≡ true = ground arith in
    ((c, refl, here.0 place), inr (x, refl, ground arith, ground arith))

valid_rectangle_sound :
    (bounds : Option (Point × Point))
    → valid_rectangle bounds ≡ true
    → (ne : Point) × (sw : Point) × (bounds ≡ some (ne, sw))
      × IsPosition ne.lat ne.lon
      × IsPosition sw.lat sw.lon
unfolding valid_rectangle
valid_rectangle_sound none h = ground arith
valid_rectangle_sound (some (ne, sw)) h =
    let both = (two (valid_lat_lon ne.lat ne.lon) (valid_lat_lon sw.lat sw.lon)).0 h in
    (
      ne,
      sw,
      refl,
      (valid_lat_lon_iff ne.lat ne.lon).0 both.0,
      (valid_lat_lon_iff sw.lat sw.lon).0 both.1,
    )

-- A patrol that is accepted is a request to stop, a circle about a position on the globe with a radius
-- above 0 and of at most 1000 km (or not a number, which no bound excludes), or a rectangle between
-- two such positions; and a request to stop is accepted whatever its geometry.
validate_patrol_update_lem :
    (z : PatrolZone)
    → ((validate_patrol_update z ≡ false) ⊎ (z.active ≡ false) ⊎ IsCircle z ⊎ IsRectangle z)
      × ((z.active ≡ true) ⊎ (validate_patrol_update z ≡ true))
unfolding validate_patrol_update
validate_patrol_update_lem z =
    let circle = text_eq_iff z.type (runes "circle") in
    let rectangle = text_eq_iff z.type (runes "rectangle") in
    let round = valid_circle_sound z.center z.radius in
    let square = valid_rectangle_sound z.bounds in
    elim (Bool-cases z.active) [
      | inr off ↦ (inr (inl off), inr (rw off refl))
      | inl on ↦ elim (Bool-cases (text_eq z.type (runes "circle"))) [
        | inl is ↦ elim (Bool-cases (valid_circle z.center z.radius)) [
          | inl ok ↦ (inr (inr (inl (circle.0 is, (round ok).0, (round ok).1))), inl on)
          | inr bad ↦ (inl (rw (on, is, bad) refl), inl on)
        ]
        | inr isnt ↦ elim (Bool-cases (text_eq z.type (runes "rectangle"))) [
          | inl is ↦ elim (Bool-cases (valid_rectangle z.bounds)) [
            | inl ok ↦ (inr (inr (inr (rectangle.0 is, square ok))), inl on)
            | inr bad ↦ (inl (rw (on, isnt, is, bad) refl), inl on)
          ]
          | inr neither ↦ (inl (rw (on, isnt, neither) refl), inl on)
        ]
      ]
    ]

-- A message reaches the engine only if it decodes and is valid; otherwise the engine is as it was.
dispatch_unmarshal_lem :
    {P S : Type 0} (decoded : Option P) (validate : P → Bool) (fn : P → S → Bool × S) (s : S)
    → let out = dispatch_unmarshal decoded validate fn s in
      ((p : P) × (decoded ≡ some p)
        × (validate p ≡ true)
        × (out ≡ (handled (fn p s).0, (fn p s).1)))
      ⊎ ((out.1 ≡ s) × ((out.0 ≡ undecodable) ⊎ (out.0 ≡ invalid)))
unfolding dispatch_unmarshal
dispatch_unmarshal_lem none validate fn s = inr (refl, inl refl)
dispatch_unmarshal_lem (some p) validate fn s = elim (Bool-cases (validate p)) [
  | inl ok ↦ inl (p, refl, ok, rw ok refl)
  | inr bad ↦ rw bad (inr (refl, inr refl))
]
