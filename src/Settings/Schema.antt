-- ===== src/Settings/Schema.antt =====
-- engine/internal/settings/schema.go: the settings and their defaults, and the JSON document that they
-- are stored as. `Fav` is a favourite or a history entry and `Place` a named position. Numbers below
-- zero, which nothing writes, are left out, and so is the text of the document: a field is there or not.
use maps_main.Shared.{
  ℕ, Text, runes, Bool, true, false, Option, none, some, is_some, List, [], ◌∷◌, ltb, if◌then◌else◌,
}

pub record Settings (Fav Place : Type 0) : Type 0 where
  pub wifi_ip : Text
  pub wifi_port : ℕ
  pub companion_port : ℕ
  pub connection_mode : Text
  pub operation_mode : Text
  pub eveil_mode : Bool
  pub eveil_interval : ℕ
  pub preferred_driver : Text
  pub usb_driver : Text
  pub wifi_driver : Text
  pub fallback_enabled : Bool
  pub server_ip : Text
  pub preferred_ip : Text
  pub manual_tunnel_mode : Bool
  pub manual_tunnel_address : Text
  pub network_only_mode : Bool
  pub cluster_mode : Text
  pub cluster_nodes : List Text
  pub server_name : Text
  pub cluster_sync_certs : Bool
  pub cluster_heartbeat_seconds : ℕ
  pub cluster_master_dead_seconds : ℕ
  pub cluster_peer_timeout_seconds : ℕ
  pub osrm_base_url : Text
  pub routing_mode : Text
  pub routing_provider : Text
  pub routing_provider_priority : List Text
  pub log_level : Text
  pub notifications_enabled : Bool
  pub dynamic_island_enabled : Bool
  pub jitter_enabled : Bool
  pub favorites : List Fav
  pub recent_history : List Fav
  pub last_active_location : Option Place

abbrev pub go_ios : Text
go_ios = runes "go-ios"

abbrev pub default_priority : List Text
default_priority = runes "google" ∷ runes "mapbox" ∷ runes "osrm" ∷ []

-- `Default`
abbrev pub default_settings : {Fav Place : Type 0} → Settings Fav Place
default_settings = record {
  wifi_ip = [];
  wifi_port = 0;
  companion_port = 8080;
  connection_mode = runes "both";
  operation_mode = runes "hybrid";
  eveil_mode = true;
  eveil_interval = 5;
  preferred_driver = go_ios;
  usb_driver = go_ios;
  wifi_driver = go_ios;
  fallback_enabled = true;
  server_ip = [];
  preferred_ip = [];
  manual_tunnel_mode = false;
  manual_tunnel_address = [];
  network_only_mode = false;
  cluster_mode = runes "off";
  cluster_nodes = [];
  server_name = [];
  cluster_sync_certs = false;
  cluster_heartbeat_seconds = 10;
  cluster_master_dead_seconds = 30;
  cluster_peer_timeout_seconds = 3;
  osrm_base_url = [];
  routing_mode = runes "auto";
  routing_provider = runes "osrm";
  routing_provider_priority = default_priority;
  log_level = runes "info";
  notifications_enabled = true;
  dynamic_island_enabled = true;
  jitter_enabled = true;
  favorites = [];
  recent_history = [];
  last_active_location = none;
}

-- The document: `present` for the fields that are always there, and apart from it the fields that
-- `omitempty` leaves out when they are empty, whose values in `present` are never read.
pub record Document (Fav Place : Type 0) : Type 0 where
  pub present : Settings Fav Place
  pub wifi_ip : Option Text
  pub wifi_port : Option ℕ
  pub server_ip : Option Text
  pub preferred_ip : Option Text
  pub manual_tunnel_address : Option Text
  pub cluster_nodes : Option (List Text)
  pub server_name : Option Text
  pub cluster_heartbeat_seconds : Option ℕ
  pub cluster_master_dead_seconds : Option ℕ
  pub cluster_peer_timeout_seconds : Option ℕ
  pub osrm_base_url : Option Text
  pub routing_mode : Option Text
  pub routing_provider : Option Text
  pub routing_provider_priority : Option (List Text)
  pub last_active_location : Option Place

abbrev pub unless_empty : {A : Type 0} → List A → Option (List A)
unless_empty [] = none
unless_empty (x ∷ xs) = some (x ∷ xs)

abbrev pub unless_zero : ℕ → Option ℕ
unless_zero n = if ltb 0 n then some n else none

abbrev pub or_else : {A : Type 0} → Option A → A → A
or_else none d = d
or_else (some x) d = x

-- `json.Marshal`
unfoldable pub encode : {Fav Place : Type 0} → Settings Fav Place → Document Fav Place
encode s = record {
  present = s;
  wifi_ip = unless_empty s.wifi_ip;
  wifi_port = unless_zero s.wifi_port;
  server_ip = unless_empty s.server_ip;
  preferred_ip = unless_empty s.preferred_ip;
  manual_tunnel_address = unless_empty s.manual_tunnel_address;
  cluster_nodes = unless_empty s.cluster_nodes;
  server_name = unless_empty s.server_name;
  cluster_heartbeat_seconds = unless_zero s.cluster_heartbeat_seconds;
  cluster_master_dead_seconds = unless_zero s.cluster_master_dead_seconds;
  cluster_peer_timeout_seconds = unless_zero s.cluster_peer_timeout_seconds;
  osrm_base_url = unless_empty s.osrm_base_url;
  routing_mode = unless_empty s.routing_mode;
  routing_provider = unless_empty s.routing_provider;
  routing_provider_priority = unless_empty s.routing_provider_priority;
  last_active_location = s.last_active_location;
}

-- `json.Unmarshal` over the settings `d`: a field that is left out keeps its value of `d`.
unfoldable pub decode :
    {Fav Place : Type 0} → Document Fav Place → Settings Fav Place → Settings Fav Place
decode j d = record j.present {
  wifi_ip = or_else j.wifi_ip d.wifi_ip;
  wifi_port = or_else j.wifi_port d.wifi_port;
  server_ip = or_else j.server_ip d.server_ip;
  preferred_ip = or_else j.preferred_ip d.preferred_ip;
  manual_tunnel_address = or_else j.manual_tunnel_address d.manual_tunnel_address;
  cluster_nodes = or_else j.cluster_nodes d.cluster_nodes;
  server_name = or_else j.server_name d.server_name;
  cluster_heartbeat_seconds = or_else j.cluster_heartbeat_seconds d.cluster_heartbeat_seconds;
  cluster_master_dead_seconds = or_else j.cluster_master_dead_seconds d.cluster_master_dead_seconds;
  cluster_peer_timeout_seconds =
      or_else j.cluster_peer_timeout_seconds d.cluster_peer_timeout_seconds;
  osrm_base_url = or_else j.osrm_base_url d.osrm_base_url;
  routing_mode = or_else j.routing_mode d.routing_mode;
  routing_provider = or_else j.routing_provider d.routing_provider;
  routing_provider_priority = or_else j.routing_provider_priority d.routing_provider_priority;
  last_active_location =
      if is_some j.last_active_location then j.last_active_location else d.last_active_location;
}
