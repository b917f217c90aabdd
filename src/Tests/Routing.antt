-- ===== src/Tests/Routing.antt =====
-- The theorems on registry.go, with one provider that fails and one that has no points.
use maps_main.Shared.{ℕ, true, Option, none, some, List, [], ◌∷◌}
use maps_main.Routing.{ProviderId, osrm, google, mapbox, manual, Config, Answers}

abbrev config : Config
config = record {
  mode = manual;
  provider = some mapbox;
  provider_priority = "osrm" ∷ "osrm" ∷ "other" ∷ [];
}

abbrev points_of : ProviderId → Option (List ℕ)
points_of osrm = some (7 ∷ [])
points_of google = none
points_of mapbox = some []

abbrev answers : Answers ℕ
answers = record { available = λ id. true; answer = points_of }
