-- ===== src/Tests/Settings.antt =====
-- The theorems on the settings at a concrete engine.
use maps_main.Shared.{ℕ, ◌≡◌, ◌⊎◌, refl, runes, true, false, none, [], ◌∷◌}
use maps_main.Settings.Schema.{default_priority}
use maps_main.Settings.Store.{Secrets, Database, save_secrets, load_secrets, google_key}
use maps_main.Settings.Store.Laws.{load_secrets-save_secrets}
use maps_main.Settings.RoutingConfig.{
  RoutingConfig, normalize_config, normalize_mode, normalize_provider_id, normalize_priority,
}
use maps_main.Settings.Live.{Live, Defaults, persist, persist_secrets}
use maps_main.Settings.Live.Restart.{anew, restarted, good_transaction, restarted-persist}

abbrev defaults : Defaults
defaults = record {
  osrm_base_url = runes "http://router.project-osrm.org";
  google_keys = [];
  mapbox_tokens = [];
  heartbeat_seconds = 10;
  master_dead_seconds = 30;
  peer_timeout_seconds = 3;
}

abbrev routing : RoutingConfig
routing = record {
  osrm_base_url = runes "http://osrm";
  mode = runes "manual";
  provider = runes "google";
  provider_priority = default_priority;
  google_routes_api_key = runes "key";
  mapbox_access_token = [];
}

abbrev live : Live ℕ
live = record {
  usb_driver = runes "pymobiledevice";
  wifi_driver = runes "go-ios";
  fallback_enabled = false;
  notifications_enabled = true;
  dynamic_island_enabled = false;
  jitter_enabled = true;
  favorites = 1 ∷ [];
  recent_history = 2 ∷ 3 ∷ [];
  osrm_base_url = runes "http://osrm";
  routing = routing;
  heartbeat_seconds = 5;
  master_dead_seconds = 20;
  peer_timeout_seconds = 2;
  rsd_port = 49152;
  cluster = none;
}

abbrev empty_database : Database ℕ ℕ
empty_database = record { settings = none; secrets = (google_key, runes "old") ∷ [] }

restarted-persist_example :
    restarted defaults
      (persist_secrets good_transaction live (persist true none live empty_database))
    ≡ anew live
unfolding normalize_config normalize_mode normalize_provider_id normalize_priority
restarted-persist_example =
    restarted-persist defaults none live empty_database
      (refl, refl, refl, refl, refl, refl, refl, refl)

abbrev new_secrets : Secrets
new_secrets = record { google_routes_api_key = []; mapbox_access_token = runes "token" }

load_secrets-save_secrets_example :
    let (done, after) = save_secrets good_transaction new_secrets empty_database.secrets in
    ((done ≡ true) × (load_secrets after ≡ new_secrets))
    ⊎ ((done ≡ false) × (after ≡ empty_database.secrets))
load_secrets-save_secrets_example =
    load_secrets-save_secrets good_transaction new_secrets empty_database.secrets
