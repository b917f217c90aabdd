-- ===== src/Settings/Live.antt =====
-- engine/internal/engine/engine_settings.go and engine_persistence.go, and the part of NewWithSecrets
-- that reads the settings: the configuration that a running engine holds, kept apart from the rest of
-- its state. Numbers of a payload below zero, which change nothing, are left out. What the manager of
-- the cluster reports while the settings are written is an argument, since its update runs beside.
pub mod Restart
use maps_main.Shared.{
  ℕ, Text, runes, text_eq, trim_space, trim_suffix, lower, Bool, true, false, not, ◌||◌, Option,
  none, some, is_some, List, [], ◌∷◌, ◌++◌, map, ltb, if◌then◌else◌,
}
use maps_main.Auth.Store.{is_empty}
use maps_main.Settings.Schema.{Settings, default_settings, default_priority, go_ios, or_else}
use maps_main.Settings.RoutingConfig.{RoutingConfig, trim_slash, normalize_config}
use maps_main.Settings.Store.{Secrets, Database, save, Transaction, save_secrets}

-- What the manager of the cluster reports.
pub record ClusterConfig : Type 0 where
  pub mode : Text
  pub nodes : List Text
  pub sync_certs : Bool

-- The configuration of a running engine; `osrm_base_url` is the one that its status shows.
pub record Live (Fav : Type 0) : Type 0 where
  pub usb_driver : Text
  pub wifi_driver : Text
  pub fallback_enabled : Bool
  pub notifications_enabled : Bool
  pub dynamic_island_enabled : Bool
  pub jitter_enabled : Bool
  pub favorites : List Fav
  pub recent_history : List Fav
  pub osrm_base_url : Text
  pub routing : RoutingConfig
  pub heartbeat_seconds : ℕ
  pub master_dead_seconds : ℕ
  pub peer_timeout_seconds : ℕ
  pub rsd_port : ℕ
  pub cluster : Option ClusterConfig

-- `SaveSettingsPayload`
pub record Payload : Type 0 where
  pub companion_port : Option ℕ
  pub preferred_driver : Option Text
  pub usb_driver : Option Text
  pub wifi_driver : Option Text
  pub fallback_enabled : Option Bool
  pub notifications_enabled : Option Bool
  pub dynamic_island_enabled : Option Bool
  pub jitter_enabled : Option Bool
  pub osrm_base_url : Option Text
  pub routing_mode : Option Text
  pub routing_provider : Option Text
  pub routing_provider_priority : Option (List Text)
  pub google_routes_api_key : Option Text
  pub mapbox_access_token : Option Text
  pub cluster_heartbeat_seconds : Option ℕ
  pub cluster_master_dead_seconds : Option ℕ
  pub cluster_peer_timeout_seconds : Option ℕ
  pub cluster_mode : Option Text
  pub cluster_nodes : Option (List Text)
  pub cluster_sync_certs : Option Bool

-- What an engine takes from its environment: the OSRM server of `defaultOsrmBaseURL`, the variables
-- with API keys, and the timings that the cluster package holds before the settings are read.
pub record Defaults : Type 0 where
  pub osrm_base_url : Text
  pub google_keys : List Text
  pub mapbox_tokens : List Text
  pub heartbeat_seconds : ℕ
  pub master_dead_seconds : ℕ
  pub peer_timeout_seconds : ℕ

abbrev pub text_or : Text → Text → Text
text_or t d = if is_empty t then d else t

abbrev osrm_after : Text → Option Text → Text → Text
osrm_after d none old = old
osrm_after d (some raw) old = text_or (trim_slash raw) d

abbrev positive_or : Option ℕ → ℕ → ℕ
positive_or none old = old
positive_or (some n) old = if ltb 0 n then n else old

-- The routing part of `SaveSettings`.
unfoldable pub save_routing : Defaults → Payload → Text → RoutingConfig → RoutingConfig
save_routing env p shown r = normalize_config (record {
  osrm_base_url = osrm_after env.osrm_base_url p.osrm_base_url shown;
  mode = or_else p.routing_mode r.mode;
  provider = or_else p.routing_provider r.provider;
  provider_priority = or_else p.routing_provider_priority r.provider_priority;
  google_routes_api_key = or_else p.google_routes_api_key r.google_routes_api_key;
  mapbox_access_token = or_else p.mapbox_access_token r.mapbox_access_token;
})

-- The engine after `SaveSettings`, but for the update of the cluster.
unfoldable pub apply_settings : {Fav : Type 0} → Defaults → Payload → Live Fav → Live Fav
apply_settings env p l =
    let routing = save_routing env p l.osrm_base_url l.routing in
    record l {
      rsd_port = or_else p.companion_port l.rsd_port;
      usb_driver = or_else p.usb_driver (or_else p.preferred_driver l.usb_driver);
      wifi_driver = or_else p.wifi_driver (or_else p.preferred_driver l.wifi_driver);
      fallback_enabled = or_else p.fallback_enabled l.fallback_enabled;
      notifications_enabled = or_else p.notifications_enabled l.notifications_enabled;
      dynamic_island_enabled = or_else p.dynamic_island_enabled l.dynamic_island_enabled;
      jitter_enabled = or_else p.jitter_enabled l.jitter_enabled;
      osrm_base_url = routing.osrm_base_url;
      routing = routing;
      heartbeat_seconds = positive_or p.cluster_heartbeat_seconds l.heartbeat_seconds;
      master_dead_seconds = positive_or p.cluster_master_dead_seconds l.master_dead_seconds;
      peer_timeout_seconds = positive_or p.cluster_peer_timeout_seconds l.peer_timeout_seconds;
    }

-- The configuration that `SaveSettings` asks the manager for, if it does.
unfoldable pub cluster_request : Payload → Option ClusterConfig → Option ClusterConfig
cluster_request p none = none
cluster_request p (some c) =
    if is_some p.cluster_mode || is_some p.cluster_nodes || is_some p.cluster_sync_certs
    then some (record {
      mode = or_else p.cluster_mode c.mode;
      nodes = or_else p.cluster_nodes c.nodes;
      sync_certs = or_else p.cluster_sync_certs c.sync_certs;
    })
    else none

-- `exportSettingsLocked`, with what the manager reports then.
abbrev with_cluster :
    {Fav Place : Type 0} → Option ClusterConfig → Settings Fav Place → Settings Fav Place
with_cluster none cfg = cfg
with_cluster (some c) cfg = record cfg {
  cluster_mode = c.mode;
  cluster_sync_certs = c.sync_certs;
  cluster_nodes = c.nodes;
}

unfoldable pub export_settings :
    {Fav Place : Type 0} → Option ClusterConfig → Live Fav → Settings Fav Place
export_settings reported l = with_cluster reported (record default_settings {
  usb_driver = l.usb_driver;
  wifi_driver = l.wifi_driver;
  preferred_driver = text_or l.usb_driver go_ios;
  fallback_enabled = l.fallback_enabled;
  notifications_enabled = l.notifications_enabled;
  dynamic_island_enabled = l.dynamic_island_enabled;
  jitter_enabled = l.jitter_enabled;
  favorites = l.favorites;
  recent_history = l.recent_history;
  osrm_base_url = l.routing.osrm_base_url;
  routing_mode = l.routing.mode;
  routing_provider = l.routing.provider;
  routing_provider_priority = l.routing.provider_priority;
  cluster_heartbeat_seconds = l.heartbeat_seconds;
  cluster_master_dead_seconds = l.master_dead_seconds;
  cluster_peer_timeout_seconds = l.peer_timeout_seconds;
})

-- What `persistSecrets` saves.
unfoldable pub secrets_of : {Fav : Type 0} → Live Fav → Secrets
secrets_of l = record {
  google_routes_api_key = l.routing.google_routes_api_key;
  mapbox_access_token = l.routing.mapbox_access_token;
}

-- `persist` and `persistSecrets`: a failure is only logged.
unfoldable pub persist :
    {Fav Place : Type 0}
    → Bool
    → Option ClusterConfig
    → Live Fav
    → Database Fav Place
    → Database Fav Place
persist db reported l d = or_else (save db (export_settings reported l) d) d

unfoldable pub persist_secrets :
    {Fav Place : Type 0} → Transaction → Live Fav → Database Fav Place → Database Fav Place
persist_secrets t l d = record d { secrets = (save_secrets t (secrets_of l) d.secrets).1 }

abbrev pub is_secret : Payload → Bool
is_secret p = is_some p.google_routes_api_key || is_some p.mapbox_access_token

-- `SaveSettings`: the engine, the database, and what is asked of the manager. `reported` is what the
-- manager reports when the settings are written.
unfoldable pub save_settings :
    {Fav Place : Type 0}
    → Defaults
    → Bool
    → Transaction
    → Option ClusterConfig
    → Payload
    → Live Fav × Database Fav Place
    → Option ClusterConfig × Live Fav × Database Fav Place
save_settings env db t reported p (l, d) =
    let l' = apply_settings env p l in
    let d' = persist db reported l' d in
    (cluster_request p l.cluster, l', if is_secret p then persist_secrets t l' d' else d')

-- `firstNonEmpty`
abbrev pub first_non_empty : List Text → Text
first_non_empty [] = []
first_non_empty (v ∷ vs) = text_or (trim_space v) (first_non_empty vs)

abbrev pub number_or : ℕ → ℕ → ℕ
number_or n d = if ltb 0 n then n else d

-- `NewWithSecrets`: the configuration of an engine that starts, before a manager is attached.
unfoldable pub new_with_secrets :
    {Fav Place : Type 0} → Defaults → Settings Fav Place → Secrets → Live Fav
new_with_secrets env cfg secrets =
    let osrm = text_or cfg.osrm_base_url env.osrm_base_url in
    record {
      usb_driver = cfg.usb_driver;
      wifi_driver = cfg.wifi_driver;
      fallback_enabled = cfg.fallback_enabled;
      notifications_enabled = cfg.notifications_enabled;
      dynamic_island_enabled = cfg.dynamic_island_enabled;
      jitter_enabled = cfg.jitter_enabled;
      favorites = cfg.favorites;
      recent_history = cfg.recent_history;
      osrm_base_url = osrm;
      routing = normalize_config (record {
        osrm_base_url = osrm;
        mode = cfg.routing_mode;
        provider = cfg.routing_provider;
        provider_priority = cfg.routing_provider_priority;
        google_routes_api_key = first_non_empty (secrets.google_routes_api_key ∷ env.google_keys);
        mapbox_access_token = first_non_empty (secrets.mapbox_access_token ∷ env.mapbox_tokens);
      });
      heartbeat_seconds = number_or cfg.cluster_heartbeat_seconds env.heartbeat_seconds;
      master_dead_seconds = number_or cfg.cluster_master_dead_seconds env.master_dead_seconds;
      peer_timeout_seconds = number_or cfg.cluster_peer_timeout_seconds env.peer_timeout_seconds;
      rsd_port = 0;
      cluster = none;
    }
