-- ===== src/Settings/RoutingConfig.antt =====
-- engine/internal/routing/registry.go and types.go: the configuration of the routing as the settings hold
-- it, and its normal form.
use maps_main.Shared.{
  Text, runes, text_eq, trim_space, trim_suffix, lower, Bool, false, ◌||◌, List, [], ◌∷◌, ◌++◌, map,
  if◌then◌else◌,
}
use maps_main.Settings.Schema.{default_priority}

-- routing.Config
pub record RoutingConfig : Type 0 where
  pub osrm_base_url : Text
  pub mode : Text
  pub provider : Text
  pub provider_priority : List Text
  pub google_routes_api_key : Text
  pub mapbox_access_token : Text

abbrev fold : Text → Text
fold s = lower (trim_space s)

-- `NormalizeMode`, `NormalizeProviderID` and `NormalizePriority`
unfoldable pub normalize_mode : Text → Text
normalize_mode mode = if text_eq (fold mode) (runes "manual") then runes "manual" else runes "auto"

unfoldable pub normalize_provider_id : Text → Text
normalize_provider_id id =
    if text_eq (fold id) (runes "google")
    then runes "google"
    else if text_eq (fold id) (runes "mapbox")
    then runes "mapbox"
    else runes "osrm"

abbrev is_among : Text → List Text → Bool
is_among t [] = false
is_among t (u ∷ us) = text_eq t u || is_among t us

abbrev once_each : List Text → List Text → List Text
once_each seen [] = []
once_each seen (id ∷ ids) =
    let fresh = once_each (id ∷ seen) ids in
    let rest = once_each seen ids in if is_among id seen then rest else id ∷ fresh

abbrev not_among : List Text → List Text → List Text
not_among seen [] = []
not_among seen (id ∷ ids) =
    let rest = not_among seen ids in if is_among id seen then rest else id ∷ rest

unfoldable pub normalize_priority : List Text → List Text
unfolding normalize_provider_id
normalize_priority priority =
    let out = once_each [] (map normalize_provider_id priority) in
    out ++ not_among out default_priority

abbrev pub trim_slash : Text → Text
trim_slash url = trim_suffix (runes "/") (trim_space url)

-- `NormalizeConfig`
unfoldable pub normalize_config : RoutingConfig → RoutingConfig
normalize_config c = record {
  osrm_base_url = trim_slash c.osrm_base_url;
  mode = normalize_mode c.mode;
  provider = normalize_provider_id c.provider;
  provider_priority = normalize_priority c.provider_priority;
  google_routes_api_key = trim_space c.google_routes_api_key;
  mapbox_access_token = trim_space c.mapbox_access_token;
}
