-- ===== src/Tests/Messages.antt =====
-- The theorems on the log buffer, the readiness report and the validation of messages at concrete data.
use maps_main.Shared.Int.{pos}
use maps_main.Shared.{◌≤◌, ◌≡◌, ◌↔◌, String, runes, true, none, some, List, [], ◌∷◌, length, All}
use maps_main.Logging.{LogEntry, new_service, keep_last, get}
use maps_main.Logging.Recent.{add_all, entries_of, IsLevel, get-add_all}
use maps_main.Diagnostics.{DeviceState}
use maps_main.Api.Validate.{finite, Point, Leg, validate_play_sequence, PatrolZone}
use maps_main.Api.Validate.Bounds.{IsLeg, validate_play_sequence_iff}

abbrev entry : String → LogEntry
entry level = record {
  timestamp = 1;
  level = level;
  source = "engine";
  category = "";
  action = "";
  message = "m";
  fields = [];
}

abbrev entries : List LogEntry
entries = entry "warn" ∷ entry "fatal" ∷ entry "debug" ∷ []

get-add_all_example :
    let shown = get (add_all entries (new_service 2)) in
    (shown ≡ keep_last 2 (entries_of entries))
    × (length shown ≤ 2)
    × All (λ e. IsLevel e.level) shown
get-add_all_example = get-add_all 2 entries

abbrev seen : DeviceState
seen = record { developer_mode_enabled = some true; developer_image_mounted = none }

abbrev paris : Point
paris = record { lat = finite (pos 48856600000); lon = finite (pos 2352200000) }

abbrev stroll : Leg
stroll = record { start = paris; end = paris; speed = finite (pos 5000000000) }

validate_play_sequence_iff_example :
    (validate_play_sequence (stroll ∷ []) ≡ true)
    ↔ ((1 ≤ length (stroll ∷ [])) × (length (stroll ∷ []) ≤ 500) × All IsLeg (stroll ∷ []))
validate_play_sequence_iff_example = validate_play_sequence_iff (stroll ∷ [])

abbrev zone : PatrolZone
zone = record {
  active = true;
  type = runes "circle";
  center = some paris;
  radius = finite (pos 500000000000);
  bounds = none;
}
