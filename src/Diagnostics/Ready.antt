-- ===== src/Diagnostics/Ready.antt =====
-- What a positive report of readiness.go stands for.
use maps_main.Shared.{
  ◌≡◌, ◌≢◌, ◌↔◌, refl, String, Bool, true, false, Option, none, some, List, [], ◌∷◌, All,
  str_eq_iff, arith, ◌⊎◌, inr, map, if◌then◌else◌,
}
use maps_main.Diagnostics.{
  DeviceState, requirement_ok, unpaired, probed, check_readiness, pairing_requirement, status_of,
  fix_for, devices_or_none, device_requirement, is_ok, verdict_of, mode_fix, image_fix,
}

-- Every device that has a UDID is paired.
abbrev ArePaired : (String → Bool) → List String → Type 0
ArePaired is_paired [] = Unit {0}
ArePaired is_paired (d ∷ ds) = ((d ≡ "") ⊎ (is_paired d ≡ true)) × ArePaired is_paired ds

unpaired_iff :
    (is_paired : String → Bool) (ds : List String)
    → (unpaired is_paired ds ≡ []) ↔ ArePaired is_paired ds
unpaired_iff is_paired [] = ((λ h. tt), (λ h. refl))
unpaired_iff is_paired (d ∷ ds) = ground (arith, unpaired_iff is_paired ds, str_eq_iff d "")

verdict_of_iff : (us : List String) → (is_ok (verdict_of us).status ≡ true) ↔ (us ≡ [])
verdict_of_iff [] = ground arith
verdict_of_iff (u ∷ us) = ground arith

cons_nil : {d : String} {ds : List String} → (d ∷ ds) ≢ []
cons_nil h = ground arith

status_of_iff : (o : Option Bool) → (is_ok (status_of o) ≡ true) ↔ (o ≡ some true)
unfolding status_of
status_of_iff none = ground arith
status_of_iff (some true) = ground arith
status_of_iff (some false) = ground arith

device_requirement_iff :
    (listed : Option (List String))
    → (is_ok (device_requirement listed).status ≡ true) ↔ (devices_or_none listed ≢ [])
device_requirement_iff none = ground arith
device_requirement_iff (some []) = ground arith
device_requirement_iff (some (d ∷ ds)) = ((λ h. cons_nil), (λ h. refl))

four :
    (a b c d : Bool)
    → ((if a
          then (if b then (if c then (if d then true else false) else false) else false)
          else false)
        ≡ true)
      ↔ ((a ≡ true) × (b ≡ true) × (c ≡ true) × (d ≡ true))
four a b c d = ground arith

pairing_requirement_iff :
    (is_paired : String → Bool) (ds : List String)
    → (is_ok (pairing_requirement is_paired ds).status ≡ true)
      ↔ ((ds ≢ []) × ArePaired is_paired ds)
unfolding pairing_requirement
pairing_requirement_iff is_paired [] = ground arith
pairing_requirement_iff is_paired (d ∷ ds) =
    let all = unpaired_iff is_paired (d ∷ ds) in
    let verdict = verdict_of_iff (unpaired is_paired (d ∷ ds)) in
    ((λ h. (cons_nil, all.0 (verdict.0 h))), (λ h. verdict.1 (all.1 h.1)))

-- The report is positive exactly if devices are listed, at least one, all of those with a UDID have a
-- pairing record, and the device was seen to have both developer mode on and the image mounted: what
-- could not be observed does not pass.
check_readiness_iff :
    (is_paired : String → Bool) (listed : Option (List String)) (prober : Option DeviceState)
    → ((check_readiness is_paired listed prober).ready ≡ true) ↔ (
        (devices_or_none listed ≢ [])
        × ArePaired is_paired (devices_or_none listed)
        × ((probed prober).developer_mode_enabled ≡ some true)
        × ((probed prober).developer_image_mounted ≡ some true))
unfolding check_readiness
check_readiness_iff is_paired listed prober =
    let pairing = pairing_requirement_iff is_paired (devices_or_none listed) in
    let device = device_requirement_iff listed in
    let mode = status_of_iff (probed prober).developer_mode_enabled in
    let image = status_of_iff (probed prober).developer_image_mounted in
    let all = four _ _ _ _ in
    (
      (λ h.
          let each = all.0 h in
          (device.0 each.0, (pairing.0 each.1).1, mode.0 each.2, image.0 each.3)),
      (λ h. all.1 (device.1 h.0, pairing.1 (h.0, h.1), mode.1 h.2, image.1 h.3)),
    )

device_requirement-fix :
    (listed : Option (List String))
    → let r = device_requirement listed in
      (r.id ≡ "device") × ((r.status ≢ requirement_ok) ⊎ (r.fix ≡ ""))
device_requirement-fix none = (refl, ground arith)
device_requirement-fix (some []) = (refl, ground arith)
device_requirement-fix (some (d ∷ ds)) = (refl, inr refl)

verdict_of-fix :
    (us : List String)
    → let r = verdict_of us in (r.id ≡ "pairing") × ((r.status ≢ requirement_ok) ⊎ (r.fix ≡ ""))
verdict_of-fix [] = (refl, inr refl)
verdict_of-fix (u ∷ us) = (refl, ground arith)

pairing_requirement-fix :
    (is_paired : String → Bool) (ds : List String)
    → let r = pairing_requirement is_paired ds in
      (r.id ≡ "pairing") × ((r.status ≢ requirement_ok) ⊎ (r.fix ≡ ""))
unfolding pairing_requirement
pairing_requirement-fix is_paired [] = (refl, inr refl)
pairing_requirement-fix is_paired (d ∷ ds) = verdict_of-fix (unpaired is_paired (d ∷ ds))

fix_for-status_of :
    (o : Option Bool) (fix : String) → (status_of o ≢ requirement_ok) ⊎ (fix_for o fix ≡ "")
unfolding status_of fix_for
fix_for-status_of none fix = ground arith
fix_for-status_of (some true) fix = inr refl
fix_for-status_of (some false) fix = ground arith

-- Every report names the same four requirements, and one that is met comes with no advice.
check_readiness_lem :
    (is_paired : String → Bool) (listed : Option (List String)) (prober : Option DeviceState)
    → let rs = (check_readiness is_paired listed prober).requirements in
      (map (λ r. r.id) rs ≡ "device" ∷ "pairing" ∷ "developer-mode" ∷ "developer-image" ∷ [])
      × All (λ r. (r.status ≢ requirement_ok) ⊎ (r.fix ≡ "")) rs
unfolding check_readiness
check_readiness_lem is_paired listed prober =
    let device = device_requirement-fix listed in
    let pairing = pairing_requirement-fix is_paired (devices_or_none listed) in
    let mode = fix_for-status_of (probed prober).developer_mode_enabled in
    let image = fix_for-status_of (probed prober).developer_image_mounted in
    (rw (device.0, pairing.0) refl, (device.1, (pairing.1, (mode mode_fix, (image image_fix, tt)))))
