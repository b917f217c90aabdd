-- ===== src/Server/Dispatch.antt =====
-- engine/internal/server/dispatch.go: the table of the actions, how they are counted (metrics.go), and
-- the results that the background actions send to one client. What the engine answers is an argument:
-- `true` is an error.
pub mod Counts
pub mod Reply
use maps_main.Shared.{
  ℕ, ◌+◌, Bool, true, false, not, ◌&&◌, ◌||◌, Option, none, some, List, [], ◌∷◌, ◌==◌, length,
  if◌then◌else◌,
}
use maps_main.Server.Hub.{Message, Client, Hub, has_room, member}

pub data Action : Type 0 where
  set_location clear_location get_status real_location heartbeat : Action
  play_route play_osrm_route play_sequence play_custom_gpx patrol_update : Action
  stop_route pause_route resume_route : Action
  add_favorite remove_favorite rename_favorite clear_history : Action
  switch_driver get_logs debug_log save_settings relance : Action
  get_device_info get_network_devices scan_mdns probe_rsd_ports pair_device : Action
  get_pair_code list_paired_devices revoke_paired_device get_diagnostics : Action
  restart_services restart_tunnel restart_mdns : Action
  unrecognized : ℕ → Action

-- Two actions with the same text.
abbrev number_of : Action → ℕ
number_of set_location = 0
number_of clear_location = 1
number_of get_status = 2
number_of real_location = 3
number_of heartbeat = 4
number_of play_route = 5
number_of play_osrm_route = 6
number_of play_sequence = 7
number_of play_custom_gpx = 8
number_of patrol_update = 9
number_of stop_route = 10
number_of pause_route = 11
number_of resume_route = 12
number_of add_favorite = 13
number_of remove_favorite = 14
number_of rename_favorite = 15
number_of clear_history = 16
number_of switch_driver = 17
number_of get_logs = 18
number_of debug_log = 19
number_of save_settings = 20
number_of relance = 21
number_of get_device_info = 22
number_of get_network_devices = 23
number_of scan_mdns = 24
number_of probe_rsd_ports = 25
number_of pair_device = 26
number_of get_pair_code = 27
number_of list_paired_devices = 28
number_of revoke_paired_device = 29
number_of get_diagnostics = 30
number_of restart_services = 31
number_of restart_tunnel = 32
number_of restart_mdns = 33
number_of (unrecognized n) = 34 + n

abbrev same_action : Action → Action → Bool
same_action a b = number_of a == number_of b

-- How a message goes: whether its payload decodes, whether it is valid, and whether the engine, or what
-- else the action calls, gives an error, at once or in the background.
pub record Handling : Type 0 where
  pub decodes : Bool
  pub valid : Bool
  pub fails : Bool

-- What a case of the switch does: it ends with an error or without, or runs on in the background.
pub data Handled : Type 0 where
  ended : (error : Bool) → Handled
  behind : Handled

-- The cases that go through `dispatchUnmarshal`.
abbrev unmarshalled : Handling → Bool
unmarshalled h = not h.decodes || not h.valid || h.fails

-- The switch of `dispatch`, as to the error that it leaves in `err`.
unfoldable pub handle : Handling → Action → Handled
handle h set_location = ended (unmarshalled h)
handle h real_location = ended (not h.decodes || not h.valid)
handle h play_route = ended (unmarshalled h)
handle h play_osrm_route = ended (unmarshalled h)
handle h play_sequence = ended (unmarshalled h)
handle h play_custom_gpx = ended (unmarshalled h)
handle h patrol_update = ended (unmarshalled h)
handle h add_favorite = ended (unmarshalled h)
handle h remove_favorite = ended (unmarshalled h)
handle h rename_favorite = ended (unmarshalled h)
handle h debug_log = ended (not h.decodes || not h.valid)
handle h save_settings = ended (unmarshalled h)
handle h clear_location = ended h.fails
handle h stop_route = ended h.fails
handle h pause_route = ended h.fails
handle h resume_route = ended h.fails
handle h clear_history = ended h.fails
handle h relance = ended h.fails
handle h get_device_info = ended h.fails
handle h get_network_devices = ended h.fails
handle h scan_mdns = ended h.fails
handle h pair_device = ended h.fails
handle h get_pair_code = ended h.fails
handle h revoke_paired_device = ended h.fails
handle h get_diagnostics = ended h.fails
handle h get_status = ended false
handle h heartbeat = ended false
handle h get_logs = ended false
handle h probe_rsd_ports = ended false
handle h list_paired_devices = ended false
handle h switch_driver = behind
handle h restart_services = behind
handle h restart_tunnel = behind
handle h restart_mdns = behind
handle h (unrecognized n) = ended true

-- `wsActions`: how often an action was counted, as a success and as an error.
abbrev pub Counters : Type 0
Counters = Action → Bool → ℕ

abbrev same_bool : Bool → Bool → Bool
same_bool true b = b
same_bool false b = not b

-- `trackAction` with `incrementActionMetric`
unfoldable pub track_action : Action → Bool → Counters → Counters
track_action a error m b e = if same_action b a && same_bool e error then m b e + 1 else m b e

-- The actions that the deferred call of `dispatch` does not count.
abbrev is_excluded : Action → Bool
is_excluded a = same_action a switch_driver || same_action a restart_services

-- `dispatch` up to its return: `err` is nil for an action that runs on.
abbrev error_of : Handled → Bool
error_of (ended error) = error
error_of behind = false

unfoldable pub count_deferred : Handling → Action → Counters → Counters
count_deferred h a m = if is_excluded a then m else track_action a (error_of (handle h a)) m

-- The background part, which ends later: `dispatchSwitchDriver` counts at once if its payload does not
-- decode, and the others, which have no payload, call the engine.
abbrev pub late_error : Handling → Action → Bool
late_error h a = if same_action a switch_driver then not h.decodes || h.fails else h.fails

abbrev count_late_of : Handled → Handling → Action → Counters → Counters
count_late_of (ended error) h a m = m
count_late_of behind h a m = track_action a (late_error h a) m

unfoldable pub count_late : Handling → Action → Counters → Counters
count_late h a m = count_late_of (handle h a) h a m

-- How a send on a client's channel goes, as in `c.send <- …`: the channel may be closed.
pub data Sent : Type 0 where
  queued : Sent
  blocks : Sent
  panics : Sent

abbrev pub is_closed : ℕ → List ℕ → Bool
is_closed i [] = false
is_closed i (j ∷ js) = if j == i then true else is_closed i js

abbrev pub room_of : ℕ → List Client → Sent
room_of i [] = queued
room_of i (c ∷ cs) =
    let rest = room_of i cs in if c.id == i then if has_room c then queued else blocks else rest

unfoldable pub send_reply : ℕ → Hub → Sent
send_reply i h = if is_closed i h.closed then panics else room_of i h.clients

-- How the background part of an action ends: the counters, a wait for room in the client's queue, or
-- the end of the engine, since nothing recovers the panic of its goroutine.
pub data Finish : Type 0 where
  counted : Counters → Finish
  waiting : Finish
  engine_down : Finish

-- `dispatchRestartServices`, `dispatchRestartTunnel` and `dispatchRestartMdns` send their result on the
-- client's channel before they count; `dispatchSwitchDriver` only counts.
abbrev pub sends_result : Action → Bool
sends_result a =
    same_action a restart_services || same_action a restart_tunnel || same_action a restart_mdns

abbrev after_send : Sent → Counters → Finish
after_send queued m = counted m
after_send blocks m = waiting
after_send panics m = engine_down

unfoldable pub finish_late : Handling → Action → ℕ → Hub → Counters → Finish
finish_late hd a i h m =
    if sends_result a
    then after_send (send_reply i h) (count_late hd a m)
    else counted (count_late hd a m)
