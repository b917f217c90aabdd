-- ===== src/Api/Validate.antt =====
-- engine/internal/api/validate.go and messages.go, and the gate of engine/internal/server/dispatch.go that
-- calls it: the bounds on what a client sends. A float64 is not a number, infinite, or finite; a
-- finite one is held in units of 10^-9, so that the bounds are exact.
pub mod Bounds
use maps_main.Shared.Int.{ℤ, pos, negsuc, ltb_ℤ, leb_ℤ}
use maps_main.Shared.{
  ℕ, ◌*◌, Text, runes, text_eq, byte_length, String, Bool, true, false, not, ◌&&◌, ◌||◌, Option,
  none, some, List, [], ◌∷◌, length, ltb, leb, str_eq, if◌then◌else◌,
}

pub data Float : Type 0 where
  not_a_number : Float
  infinite : Bool → Float
  finite : ℤ → Float

-- Whether a finite number lies between two whole ones, the ends included.
abbrev pub within : ℤ → ℤ → Float → Bool
within lo hi not_a_number = false
within lo hi (infinite up) = false
within lo hi (finite x) = leb_ℤ lo x && leb_ℤ x hi

abbrev pub min_lat : ℤ
min_lat = negsuc 89999999999

abbrev pub max_lat : ℤ
max_lat = pos 90000000000

abbrev pub min_lon : ℤ
min_lon = negsuc 179999999999

abbrev pub max_lon : ℤ
max_lon = pos 180000000000

-- `validLatLon`
unfoldable pub valid_lat_lon : Float → Float → Bool
valid_lat_lon lat lon = within min_lat max_lat lat && within min_lon max_lon lon

-- maxSpeedKmh; `validSpeed`, where 0 asks for the default.
abbrev pub max_speed_kmh : ℤ
max_speed_kmh = pos 2000000000000

unfoldable pub valid_speed : Float → Bool
valid_speed speed = within (pos 0) max_speed_kmh speed

-- maxNameLen, maxMessageLen, maxGpxLen and maxLegs; a length is in bytes.
abbrev max_name_len : ℕ
max_name_len = 200

abbrev max_message_len : ℕ
max_message_len = 4000

abbrev max_gpx_len : ℕ
max_gpx_len = 16777216

abbrev max_legs : ℕ
max_legs = 500

unfoldable pub valid_name : Text → Bool
valid_name name = leb (byte_length name) max_name_len

pub record SetLocationPayload : Type 0 where
  pub lat : Float
  pub lon : Float
  pub name : Text

unfoldable pub validate_set_location : SetLocationPayload → Bool
unfolding valid_lat_lon valid_name
validate_set_location p = valid_lat_lon p.lat p.lon && valid_name p.name

pub record PlayRoutePayload : Type 0 where
  pub end_lat : Float
  pub end_lon : Float
  pub speed : Float
  pub profile : Text

abbrev valid_profile : Text → Bool
valid_profile p =
    text_eq p []
    || text_eq p (runes "driving")
    || text_eq p (runes "walking")
    || text_eq p (runes "cycling")

unfoldable validate_play_route : PlayRoutePayload → Bool
unfolding valid_lat_lon valid_speed
validate_play_route p =
    valid_lat_lon p.end_lat p.end_lon && valid_speed p.speed && valid_profile p.profile

pub record Point : Type 0 where
  pub lat : Float
  pub lon : Float

pub record Leg : Type 0 where
  pub start : Point
  pub end : Point
  pub speed : Float

unfoldable pub valid_leg : Leg → Bool
unfolding valid_lat_lon valid_speed
valid_leg l =
    valid_lat_lon l.start.lat l.start.lon
    && valid_lat_lon l.end.lat l.end.lon
    && valid_speed l.speed

abbrev pub valid_legs : List Leg → Bool
valid_legs [] = true
valid_legs (l ∷ ls) = if valid_leg l then valid_legs ls else false

unfoldable pub validate_play_sequence : List Leg → Bool
validate_play_sequence legs = ltb 0 (length legs) && leb (length legs) max_legs && valid_legs legs

unfoldable validate_play_custom_gpx : Text → Float → Bool
unfolding valid_speed
validate_play_custom_gpx gpx speed =
    ltb 0 (byte_length gpx) && leb (byte_length gpx) max_gpx_len && valid_speed speed

unfoldable validate_favorite : Float → Float → Text → Text → Bool
unfolding valid_lat_lon valid_name
validate_favorite lat lon name new_name =
    valid_lat_lon lat lon && valid_name name && valid_name new_name

unfoldable validate_debug_log : Text → Bool
validate_debug_log message = leb (byte_length message) max_message_len

pub record PatrolZone : Type 0 where
  pub active : Bool
  pub type : Text
  pub center : Option Point
  pub radius : Float
  pub bounds : Option (Point × Point)

-- maxRadiusM
abbrev pub max_radius_m : ℤ
max_radius_m = pos 1000000000000000

-- `z.Radius <= 0 || z.Radius > maxRadiusM`, false of what is not a number.
abbrev bad_radius : Float → Bool
bad_radius not_a_number = false
bad_radius (infinite up) = true
bad_radius (finite x) = leb_ℤ x (pos 0) || ltb_ℤ max_radius_m x

abbrev pub valid_circle : Option Point → Float → Bool
unfolding valid_lat_lon
valid_circle none radius = false
valid_circle (some c) radius = valid_lat_lon c.lat c.lon && not (bad_radius radius)

abbrev pub valid_rectangle : Option (Point × Point) → Bool
unfolding valid_lat_lon
valid_rectangle none = false
valid_rectangle (some (ne, sw)) = valid_lat_lon ne.lat ne.lon && valid_lat_lon sw.lat sw.lon

unfoldable pub validate_patrol_update : PatrolZone → Bool
unfolding valid_circle valid_rectangle
validate_patrol_update z =
    not z.active
    || (if text_eq z.type (runes "circle")
        then valid_circle z.center z.radius
        else if text_eq z.type (runes "rectangle")
        then valid_rectangle z.bounds
        else false)

-- How `dispatchUnmarshal` ends.
pub data Dispatched : Type 0 where
  undecodable : Dispatched
  invalid : Dispatched
  handled : Bool → Dispatched

-- `dispatchUnmarshal`: the payload as it decodes, its `Validate`, and the call of the engine, whose
-- result says whether it succeeded.
unfoldable pub dispatch_unmarshal :
    {P S : Type 0} → Option P → (P → Bool) → (P → S → Bool × S) → S → Dispatched × S
dispatch_unmarshal none validate fn s = (undecodable, s)
dispatch_unmarshal (some p) validate fn s =
    if validate p then (handled (fn p s).0, (fn p s).1) else (invalid, s)
