-- ===== src/Drivers/Mount/Follow.antt =====
-- How ReresolveActiveTunnel of endpoint.go follows a device.
use maps_main.Shared.{
  ◌≡◌, refl, Text, text_eq_sound, Bool, true, false, Option, none, some, List, [], ◌∷◌, ◌||◌, Any,
  arith, ◌⊎◌, inl, inr, Option-cases, Bool-cases,
}
use maps_main.Auth.Store.{is_empty}
use maps_main.Domain.{TunnelInfo}
use maps_main.Drivers.Mount.{
  TunnelMount, NetworkDevice, info_of, first_wanted, reresolve_active_tunnel, is_manual,
  daemon_running, update_info,
}

abbrev IsWanted : Text → NetworkDevice → Type 0
IsWanted want d = (is_empty want ≡ true) ⊎ (d.udid ≡ want)

first_wanted-IsWanted :
    (want : Text) (ds : List NetworkDevice) (d : NetworkDevice)
    → first_wanted want ds ≡ some d
    → IsWanted want d × Any (λ e. e ≡ d) ds
first_wanted-IsWanted want [] d h = ground arith
first_wanted-IsWanted want (e ∷ ds) d h =
    let rest = first_wanted-IsWanted want ds d in
    let same = text_eq_sound e.udid want in ground (arith, rest, same)

-- What a search may answer: nothing, and the mount is as it was; or the endpoint of a listed device.
abbrev NotFound : TunnelMount → Option TunnelInfo × Bool × TunnelMount → Type 0
NotFound m (found, alive, m') =
    (found ≡ none) × (m' ≡ m) × (alive ≡ (is_manual m || daemon_running m))

abbrev pub Found :
    List NetworkDevice → TunnelMount → Option TunnelInfo × Bool × TunnelMount → Type 0
Found devices m (found, alive, m') =
    (d : NetworkDevice) × Any (λ e. e ≡ d) devices
    × IsWanted m.udid d
    × (is_manual m ≡ false)
    × (found ≡ some (info_of d))
    × (alive ≡ true)
    × (m' ≡ update_info (info_of d) m)

-- A search for the device of a mount changes nothing unless it finds a listed device with the mount's
-- identifier (or any, if the mount has none); then it replaces the endpoint alone. It never touches a
-- mount on a manual address, and reports a daemon to restart only if none is running.
reresolve_active_tunnel_lem :
    (devices : List NetworkDevice) (m : TunnelMount)
    → NotFound m (reresolve_active_tunnel (some devices) m)
      ⊎ Found devices m (reresolve_active_tunnel (some devices) m)
unfolding reresolve_active_tunnel
reresolve_active_tunnel_lem devices m =
    let hit = first_wanted-IsWanted m.udid devices in
    elim (Bool-cases (is_manual m)) [
      | inl manual ↦ inl (rw (reresolve_active_tunnel, manual) (refl, refl, refl))
      | inr auto ↦ elim (Option-cases (first_wanted m.udid devices)) [
        | inl nothing ↦ inl (rw (auto, nothing) (refl, refl, refl))
        | inr (d, is) ↦ inr (rw (auto, is) (d, (hit d is).1, (hit d is).0, refl, refl, refl, refl))
      ]
    ]
