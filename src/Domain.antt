-- ===== src/Domain.antt =====
-- engine/internal/domain/types.go, engine/internal/api/status.go: the data that the engine's parts
-- share. A coordinate is a float64 in the source: its type `R` is a parameter. Times are
-- milliseconds. Left out of the status are the fields that no modelled code writes (environment,
-- cluster, last active location) and the routing settings.
use maps_main.Shared.{ℕ, String, Bool, Option, List}

pub data ConnectionType : Type 0 where
  conn_usb conn_wifi conn_manual conn_unknown : ConnectionType

pub record LatLon (R : Type 0) : Type 0 where
  pub lat : R
  pub lon : R

-- Also HistoryEntry and LocationStamp: the three have the same fields.
pub record Favorite (R : Type 0) : Type 0 where
  pub lat : R
  pub lon : R
  pub name : String
  pub timestamp : ℕ

pub record RealLocation (R : Type 0) : Type 0 where
  pub lat : R
  pub lon : R
  pub drift : R
  pub timestamp : ℕ

pub record TunnelHealth : Type 0 where
  pub established_at : ℕ
  pub last_injection_ok_at : ℕ
  pub consecutive_inject_failures : ℕ
  pub last_reresolve_at : ℕ
  pub last_check_rtt_ms : ℕ
  pub searching : Bool

pub record TunnelInfo : Type 0 where
  pub address : String
  pub port : ℕ
  pub type : ConnectionType
  pub userspace_port : ℕ

pub record DeviceInfo : Type 0 where
  pub name : String
  pub driver : String

pub record NavigationProgress (R : Type 0) : Type 0 where
  pub index : ℕ
  pub total : ℕ
  pub lat : R
  pub lon : R
  pub speed : R

pub data NavigationState : Type 0 where
  nav_running nav_paused nav_stopped : NavigationState

pub record NavigationStatus : Type 0 where
  pub state : NavigationState
  pub index : ℕ
  pub total : ℕ

pub record PatrolBounds (R : Type 0) : Type 0 where
  pub ne : LatLon R
  pub sw : LatLon R

pub data ZoneType : Type 0 where
  circle rectangle other_zone : ZoneType

pub record PatrolZone (R : Type 0) : Type 0 where
  pub type : ZoneType
  pub center : Option (LatLon R)
  pub radius : R
  pub bounds : Option (PatrolBounds R)
  pub active : Bool

pub data EngineState : Type 0 where
  idle ready starting running moving paused : EngineState

pub record Status (R : Type 0) : Type 0 where
  pub state : EngineState
  pub tunnel_active : Bool
  pub rsd_address : String
  pub rsd_port : ℕ
  pub connection_type : ConnectionType
  pub device_info : Option DeviceInfo
  pub last_injected_location : Option (Favorite R)
  pub last_verified_location : Option (Favorite R)
  pub last_real_location : Option (RealLocation R)
  pub tunnel_health : Option TunnelHealth
  pub maintain_active : Bool
  pub last_heartbeat : ℕ
  pub usb_driver : String
  pub wifi_driver : String
  pub jitter_enabled : Bool
  pub favorites : List (Favorite R)
  pub recent_history : List (Favorite R)
  pub current_sequence_preview : List (LatLon R)
  pub patrol_zone : Option (PatrolZone R)
  pub progress : Option (NavigationProgress R)
  pub navigation : Option NavigationStatus

pub data LegType : Type 0 where
  leg_start leg_drive leg_walk leg_flight leg_wait : LegType

pub record RouteLeg (R : Type 0) : Type 0 where
  pub type : LegType
  pub start : LatLon R
  pub end : LatLon R
  pub speed : R
