-- ===== src/Engine/Geometry.antt =====
-- engine/internal/simulation/geometry.go and types.go: the points of a journey, one for each second.
use maps_main.Shared.{
  ℕ, zero, suc, ◌+◌, ◌≡◌, refl, ◌∙◌, String, Bool, false, List, [], ◌∷◌, ◌++◌, if◌then◌else◌,
}
use maps_main.Domain.{LatLon}
use maps_main.Engine.Model.{Env}
use maps_main.Engine.Location.{distance}

pub record Plan (R : Type 0) : Type 0 where
  pub points : List (LatLon R)
  pub looping : Bool
  pub speed : R

module _ (env : Env) where
  open env use {Real, at_most, decimal, plus, minus, times, over, floor, parse_gpx}

  abbrev pub Coord : Type 0
  Coord = LatLon Real

  -- The point at a fraction of the way.
  abbrev pub along : Coord → Coord → Real → Coord
  along p1 p2 fraction = record {
    lat = plus p1.lat (times (minus p2.lat p1.lat) fraction);
    lon = plus p1.lon (times (minus p2.lon p1.lon) fraction);
  }

  -- The steps `s` to `s + n - 1` of a segment that takes `span` seconds.
  unfoldable pub steps_from : Coord → Coord → Real → ℕ → ℕ → List Coord
  steps_from p1 p2 span s zero = []
  steps_from p1 p2 span s (suc n) =
      along p1 p2 (over (decimal s 0) span) ∷ steps_from p1 p2 span (s + 1) n

  -- The steps of a segment that takes more than a second.
  unfoldable pub between : Real → Coord → Coord → List Coord
  between speed_ms p1 p2 =
      let dist = distance env p1 p2 in
      let span = over dist speed_ms in
      if at_most dist speed_ms then [] else steps_from p1 p2 span 1 (floor span)

  -- What one turn of the loop over the raw points adds.
  unfoldable pub segment : Real → Coord → Coord → List Coord
  segment speed_ms p1 p2 = between speed_ms p1 p2 ++ (p2 ∷ [])

  unfoldable pub segments : Real → Coord → List Coord → List Coord
  segments speed_ms p1 [] = []
  segments speed_ms p1 (p2 ∷ rest) = segment speed_ms p1 p2 ++ segments speed_ms p2 rest

  abbrev usual_speed : Real → Real
  usual_speed speed_kmh = if at_most speed_kmh (decimal 0 0) then decimal 15 0 else speed_kmh

  -- `Interpolate`
  unfoldable pub interpolate : List Coord → Real → List Coord
  interpolate [] speed_kmh = []
  interpolate (p ∷ rest) speed_kmh =
      p ∷ segments (over (usual_speed speed_kmh) (decimal 36 1)) p rest

  -- `RoutePath.Plan`, never looping where the engine builds one, and `GPX.Plan`.
  abbrev pub path_plan : List Coord → Real → Plan Real
  path_plan raw_points speed_kmh = record {
    points = interpolate raw_points speed_kmh;
    looping = false;
    speed = speed_kmh;
  }

  abbrev pub gpx_plan : String → Real → Plan Real
  gpx_plan content speed_kmh = path_plan (parse_gpx content) speed_kmh

-- A list keeps the elements of another in their order.
pub data Keeps {A : Type 0} : List A → List A → Type 0 where
  keeps_nil : {ys : List A} → Keeps [] ys
  keeps_both : {x : A} {xs ys : List A} → Keeps xs ys → Keeps (x ∷ xs) (x ∷ ys)
  keeps_skip : {x : A} {xs ys : List A} → Keeps xs ys → Keeps xs (x ∷ ys)

abbrev last_of : {A : Type 0} → A → List A → A
last_of x [] = x
last_of x (y ∷ ys) = last_of y ys

Keeps-append : {A : Type 0} (l : List A) {xs ys : List A} → Keeps xs ys → Keeps xs (l ++ ys)
Keeps-append [] h = h
Keeps-append (x ∷ l) h = keeps_skip (Keeps-append l h)

last_of-append :
    {A : Type 0} (x : A) (l : List A) (y : A) (ys : List A)
    → last_of x ((l ++ (y ∷ [])) ++ ys) ≡ last_of y ys
last_of-append x [] y ys = refl
last_of-append x (z ∷ l) y ys = last_of-append z l y ys

Keeps-segment :
    {A : Type 0} (l : List A) {y : A} {xs ys : List A}
    → Keeps xs ys
    → Keeps (y ∷ xs) ((l ++ (y ∷ [])) ++ ys)
Keeps-segment [] h = keeps_both h
Keeps-segment (x ∷ l) h = keeps_skip (Keeps-segment l h)

module _ (env : Env) where
  segments-Keeps :
      (v : env.floats.Real) (p : Coord env) (l : List (Coord env)) → Keeps l (segments env v p l)
  unfolding segments segment
  segments-Keeps v p [] = keeps_nil
  segments-Keeps v p (q ∷ l) = Keeps-segment (between env v p q) (segments-Keeps v q l)

  segments-last :
      (v : env.floats.Real) (p : Coord env) (l : List (Coord env))
      → last_of p (segments env v p l) ≡ last_of p l
  unfolding segments segment
  segments-last v p [] = refl
  segments-last v p (q ∷ l) =
      last_of-append p (between env v p q) q (segments env v q l) ∙ segments-last v q l

  -- With at least one raw point, the points of a journey start and end where the raw points do and hold
  -- each of these, in order, whatever the speed.
  interpolate-Keeps :
      (p : Coord env) (l : List (Coord env)) (speed_kmh : env.floats.Real)
      → Keeps (p ∷ l) (interpolate env (p ∷ l) speed_kmh)
        × ((rest : List (Coord env)) × (interpolate env (p ∷ l) speed_kmh ≡ p ∷ rest)
            × (last_of p rest ≡ last_of p l))
  unfolding interpolate
  interpolate-Keeps p l speed_kmh =
      (keeps_both (segments-Keeps _ p l), (_, refl, segments-last _ p l))
