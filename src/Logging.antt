-- ===== src/Logging.antt =====
-- engine/internal/logging/service.go: the log buffer. The time is an argument, the fields of an entry
-- are a list of pairs.
pub mod Recent
use maps_main.Shared.{
  ℕ, ◌-◌, String, Bool, List, [], ◌∷◌, ◌++◌, length, drop, ltb, ◌||◌, str_eq, if◌then◌else◌,
}

pub record LogEntry : Type 0 where
  pub timestamp : ℕ
  pub level : String
  pub source : String
  pub category : String
  pub action : String
  pub message : String
  pub fields : List (String × String)

pub record Service : Type 0 where
  pub logs : List LogEntry
  pub max_logs : ℕ

-- `NewService`
unfoldable pub new_service : ℕ → Service
new_service n = record { logs = []; max_logs = n }

-- `normalizeLevel`
unfoldable pub normalize_level : String → String
normalize_level l =
    if str_eq l "warn" || str_eq l "error" || str_eq l "debug" || str_eq l "console"
    then l
    else "info"

-- The entry that `Add` makes of its arguments.
abbrev pub entry_of : LogEntry → LogEntry
unfolding normalize_level
entry_of e = record e { level = normalize_level e.level }

abbrev pub keep_last : ℕ → List LogEntry → List LogEntry
keep_last n l = if ltb n (length l) then drop (length l - n) l else l

-- `Add`
unfoldable pub add : LogEntry → Service → LogEntry × Service
unfolding entry_of
add e s = (entry_of e, record s { logs = keep_last s.max_logs (s.logs ++ entry_of e ∷ []) })

-- `Get`: a copy.
abbrev pub get : Service → List LogEntry
get s = s.logs
