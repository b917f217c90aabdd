-- ===== src/Drivers/Gate.antt =====
-- engine/internal/driver/mountgate.go and budget.go, and `mountDeveloperImage` of goios/tunnel.go and
-- pmd3/tunnel.go, which are the same but for the command. Times are in seconds; `seen` is absent for
-- Go's zero time. Each call of a backend's tool is an outcome that the run brings.
pub mod Witnessed
use maps_main.Shared.{
  ℕ, ◌-◌, Text, text_eq, Bool, true, false, ◌&&◌, Option, none, some, [], ltb, if◌then◌else◌,
}

abbrev pub mount_gate_ttl : ℕ
mount_gate_ttl = 300

pub record MountGate : Type 0 where
  pub udid : Text
  pub seen : Option ℕ

abbrev pub no_observation : MountGate
no_observation = record { udid = []; seen = none }

abbrev is_recent : Option ℕ → ℕ → Bool
is_recent none now = false
is_recent (some t) now = ltb (now - t) mount_gate_ttl

-- `Mounted`, `MarkMounted` and `Forget`
unfoldable pub mounted : Text → ℕ → MountGate → Bool
mounted u now g = text_eq g.udid u && is_recent g.seen now

unfoldable pub mark_mounted : Text → ℕ → MountGate → MountGate
mark_mounted u now g = record { udid = u; seen = some now }

unfoldable pub forget : MountGate → MountGate
forget g = no_observation

-- How one run goes: whether the backend's tool is found, what the probe of the device answers if it
-- answers, whether the mount succeeds, and the times at which the gate is asked and marked.
pub record ImageRun : Type 0 where
  pub tool : Bool
  pub probe : Option Bool
  pub mounts : Bool
  pub asked_at : ℕ
  pub marked_at : ℕ

-- What a run did: nothing, for want of the tool or by the gate; or how far it got.
pub data ImageAction : Type 0 where
  no_tool trusted already_there mounted_now mount_failed : ImageAction

abbrev says_mounted : Option Bool → Bool
says_mounted none = false
says_mounted (some b) = b

-- `mountDeveloperImage`
unfoldable pub mount_developer_image : Text → ImageRun → MountGate → ImageAction × MountGate
unfolding mark_mounted
mount_developer_image u r g =
    if r.tool
    then if mounted u r.asked_at g
      then (trusted, g)
      else if says_mounted r.probe
      then (already_there, mark_mounted u r.marked_at g)
      else if r.mounts
      then (mounted_now, mark_mounted u r.marked_at g)
      else (mount_failed, g)
    else (no_tool, g)
