-- ===== src/Tests/Backend.antt =====
-- The theorems on the pymobiledevice3 backend and on the mount gate at concrete calls.
use maps_main.Shared.{
  ℕ, ◌-◌, ◌<◌, ◌≡◌, refl, Bool, String, runes, true, false, none, some, [], ◌∷◌, Any,
}
use maps_main.Domain.{TunnelInfo}
use maps_main.Drivers.Mount.{Turn, deadline, start, poll}
use maps_main.Drivers.Gate.{
  no_observation, mount_gate_ttl, ImageRun, mounted, mount_developer_image,
}
use maps_main.Drivers.Gate.Witnessed.{Confirms, entry_of, fresh as unseen, ran, Reach-mounted}
use maps_main.Drivers.Pmd3.{
  Driver, userspace_endpoint, StartRun, start_tunnel, stop_tunnel, tunnel, set_location,
  clear_location, done, broken, location_session, start_tunneld, mount_image,
  start_userspace_tunnel, open_session, drop_session, take_location_session,
}
use maps_main.Drivers.Pmd3.Sole.{
  IsSole, new, fresh, next, started, located, stopped, Reach, Reach-IsSole,
}
use maps_main.Drivers.Native.{
  Answers, Attempt, new as native, start_tunnel as native_start, set_location as native_location,
  teardown,
}
use maps_main.Drivers.Native.Handle.{
  IsOpen, Reach-IsOpen, fresh as native_fresh, next as next_native, started as native_started,
  stopped as native_stopped, located as native_located,
}
use maps_main.Drivers.Pmd3.Mode.{
  IsUserspace, IsStranded, set_location_bound, start_tunnel-IsUserspace, clear_location_userspace,
}

abbrev nothing : Answers
nothing = record { find = λ u. none; list = none }

abbrev one_tunnel : Answers
one_tunnel = record {
  find = λ u. some (record { udid = u; endpoint = some userspace_endpoint });
  list = none;
}

abbrev attempt : Answers → Attempt
attempt a = record { pair_records = true; listed = some (runes "udid"); polls = nothing ∷ a ∷ [] }

-- A first attempt without a tunnel, a second with one, a call that fails, and a stop.
Reach-IsOpen_example : IsOpen (
    teardown
      (native_location true true
        (native_start (attempt nothing) false (attempt one_tunnel) (native [] none)).1).1)
Reach-IsOpen_example = Reach-IsOpen (
    next_native
      (next_native
        (next_native (native_fresh [] none)
          (native_started (attempt nothing) false (attempt one_tunnel)))
        (native_located true true))
      native_stopped)

abbrev image_run : ImageRun
image_run = record { tool = true; probe = none; mounts = true; asked_at = 10; marked_at = 40 }

abbrev late_turn : Turn
late_turn = record {
  exits_before = false;
  resolved = none;
  exits_between = false;
  wake = deadline true;
}

-- The daemon publishes no tunnel in time, and the worker of the fallback gets ready.
abbrev no_admin : StartRun
no_admin = record {
  python = true;
  image = image_run;
  daemon_starts = true;
  turns = late_turn ∷ [];
  context_over = false;
  worker_ready = true;
}

abbrev idle : Driver
idle = new (runes "udid") none

abbrev up_in_process : Driver
up_in_process = (start_tunnel no_admin idle).1

abbrev in_process-Reach : Reach up_in_process
in_process-Reach = next (fresh (runes "udid") none) (started no_admin)

abbrev nowhere : String × ℕ → Bool
nowhere a = false

Reach-mounted_example :
    (t : ℕ) × (100 - t < mount_gate_ttl)
    × Any (Confirms (runes "udid") t) (entry_of (runes "udid") image_run no_observation ∷ [])
unfolding mounted mount_developer_image
Reach-mounted_example = Reach-mounted (ran (runes "udid") image_run unseen) (runes "udid") 100 refl

-- Up without administrator rights, a position that breaks the worker, and a stop.
Reach-IsSole_example :
    IsSole (stop_tunnel true none (some "stuck") (set_location true true broken up_in_process).1).1
Reach-IsSole_example =
    Reach-IsSole
      (next (next in_process-Reach (located true true broken)) (stopped true none (some "stuck")))

start_tunnel-IsUserspace_example : IsUserspace 0 nowhere (start_tunnel no_admin idle)
unfolding start_tunneld start mount_image new poll
start_tunnel-IsUserspace_example =
    start_tunnel-IsUserspace no_admin idle nowhere (Reach-IsSole (fresh (runes "udid") none)) refl
      refl refl refl refl

set_location_bound_example :
    (ti : TunnelInfo) × (tunnel up_in_process ≡ some ti)
    × (userspace_endpoint.address ≡ ti.address)
    × (userspace_endpoint.port ≡ ti.port)
unfolding set_location location_session start_tunnel start_tunneld start mount_image new poll
    start_userspace_tunnel open_session drop_session take_location_session
set_location_bound_example =
    set_location_bound true true done up_in_process
      (record { pid = 0; endpoint = userspace_endpoint }) (Reach-IsSole in_process-Reach) refl

clear_location_userspace_example :
    IsStranded true true true done nowhere (clear_location true true up_in_process)
unfolding start_tunnel start_tunneld start mount_image new poll start_userspace_tunnel open_session
clear_location_userspace_example =
    clear_location_userspace true true true done nowhere up_in_process
      (Reach-IsSole in_process-Reach) refl
