-- ===== src/Tests/Dispatch.antt =====
-- The theorems on the dispatcher at concrete messages.
use maps_main.Shared.{◌≡◌, refl, true, false, []}
use maps_main.Server.Hub.{Message, Client, Hub, new_hub, register, unregister, broadcast}
use maps_main.Server.Dispatch.{
  Handling, set_location, Counters, track_action, count_deferred, count_late,
}
use maps_main.Server.Dispatch.Counts.{outcome_of, counted_once}

abbrev invalid : Handling
invalid = record { decodes = true; valid = false; fails = false }

abbrev no_counts : Counters
no_counts a e = 0

abbrev client : Client
client = record { id = 3; queue = []; room = 256 }

counted_once_example :
    count_late invalid set_location (count_deferred invalid set_location no_counts)
    ≡ track_action set_location (outcome_of invalid set_location) no_counts
counted_once_example = counted_once invalid set_location no_counts refl

-- The client is at work, a status goes out, and then its window is closed.
abbrev message : Message
message = record { text = 1; size = 40 }

abbrev left : Hub
left = unregister 3 (broadcast message (register client new_hub))
