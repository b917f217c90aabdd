-- ===== src/Server/Dispatch/Counts.antt =====
-- How the actions of dispatch.go are counted.
use maps_main.Shared.{◌≡◌, Bool, true, false, arith}
use maps_main.Server.Dispatch.{
  Action, restart_tunnel, restart_mdns, Handling, Handled, ended, behind, handle, Counters,
  track_action, count_deferred, late_error, count_late,
}

-- The error that a message ends with, in the background or not.
abbrev final_error : Handled → Handling → Action → Bool
final_error (ended error) h a = error
final_error behind h a = late_error h a

abbrev pub outcome_of : Handling → Action → Bool
outcome_of h a = final_error (handle h a) h a

abbrev is_twice : Action → Bool
is_twice restart_tunnel = true
is_twice restart_mdns = true
is_twice _ = false

-- Every action but RESTART_TUNNEL and RESTART_MDNS is counted once, by its final outcome, once it has
-- ended.
pub counted_once :
    (h : Handling) (a : Action) (m : Counters)
    → is_twice a ≡ false
    → count_late h a (count_deferred h a m) ≡ track_action a (outcome_of h a) m
unfolding count_late count_deferred handle
counted_once h a m once = ground (arith, once)

-- RESTART_TUNNEL and RESTART_MDNS are counted as a success as soon as they begin, and a second time by
-- their outcome: one that fails is counted as a success and as an error.
counted_twice :
    (h : Handling) (a : Action) (m : Counters)
    → is_twice a ≡ true
    → count_late h a (count_deferred h a m) ≡ track_action a h.fails (track_action a false m)
unfolding count_late count_deferred handle
counted_twice h a m twice = ground (arith, twice)
