-- ===== src/Diagnostics.antt =====
-- engine/internal/diagnostics/readiness.go: the check before a position can be injected. What usbmux
-- and the device answer are arguments; the labels and details, which are for reading only, are left out.
pub mod Ready
use maps_main.Shared.{
  String, Bool, true, false, not, ◌&&◌, Option, none, some, List, [], ◌∷◌, ◌++◌, str_eq,
  if◌then◌else◌,
}

pub data RequirementStatus : Type 0 where
  requirement_ok : RequirementStatus
  requirement_failed : RequirementStatus
  requirement_unknown : RequirementStatus

pub record Requirement : Type 0 where
  pub id : String
  pub status : RequirementStatus
  pub fix : String

pub record Readiness : Type 0 where
  pub ready : Bool
  pub requirements : List Requirement

-- A device by its UDID, and DeviceState.
pub record DeviceState : Type 0 where
  pub developer_mode_enabled : Option Bool
  pub developer_image_mounted : Option Bool

-- `statusOf` and `fixFor`
unfoldable pub status_of : Option Bool → RequirementStatus
status_of none = requirement_unknown
status_of (some true) = requirement_ok
status_of (some false) = requirement_failed

unfoldable pub fix_for : Option Bool → String → String
fix_for none fix = fix
fix_for (some true) fix = ""
fix_for (some false) fix = fix

abbrev pub unpaired : (String → Bool) → List String → List String
unpaired is_paired [] = []
unpaired is_paired (udid ∷ udids) =
    let rest = unpaired is_paired udids in
    if not (str_eq udid "") && not (is_paired udid) then udid ∷ rest else rest

-- `pairingRequirement`
abbrev pairing_fix : String
pairing_fix =
    "Branchez l'iPhone en USB et validez « Faire confiance à cet ordinateur ? » sur son écran (ou lancez l'action PAIR_DEVICE)."

abbrev pub verdict_of : List String → Requirement
verdict_of [] = record { id = "pairing"; status = requirement_ok; fix = "" }
verdict_of (u ∷ us) = record { id = "pairing"; status = requirement_failed; fix = pairing_fix }

unfoldable pub pairing_requirement : (String → Bool) → List String → Requirement
pairing_requirement is_paired [] = record { id = "pairing"; status = requirement_unknown; fix = "" }
pairing_requirement is_paired (d ∷ ds) = verdict_of (unpaired is_paired (d ∷ ds))

-- The first requirement: `none` stands for a failed listing.
abbrev listing_fix : String
listing_fix =
    "Vérifiez qu'Apple Mobile Device Service / iTunes (usbmuxd) est lancé, puis rebranchez le câble."

abbrev cable_fix : String
cable_fix =
    "Branchez l'iPhone en USB et déverrouillez-le. Un appareil uniquement en Wi-Fi ne suffit pas tant qu'il n'a jamais été appairé en USB."

abbrev pub device_requirement : Option (List String) → Requirement
device_requirement none = record { id = "device"; status = requirement_failed; fix = listing_fix }
device_requirement (some []) = record {
  id = "device";
  status = requirement_failed;
  fix = cable_fix;
}
device_requirement (some (d ∷ ds)) = record { id = "device"; status = requirement_ok; fix = "" }

abbrev pub devices_or_none : Option (List String) → List String
devices_or_none none = []
devices_or_none (some ds) = ds

abbrev pub mode_fix : String
mode_fix =
    "Sur l'iPhone : Réglages → Confidentialité et sécurité → Mode développeur, puis redémarrez l'appareil. Sans lui le tunnel s'établit mais tous les services DVT sont refusés."

abbrev pub image_fix : String
image_fix =
    "Le moteur la monte automatiquement au démarrage du tunnel. Sur iOS 17+ l'image est signée par Apple : une connexion Internet est nécessaire au premier montage."

abbrev pub is_ok : RequirementStatus → Bool
is_ok requirement_ok = true
is_ok requirement_failed = false
is_ok requirement_unknown = false

-- The loop that sets Ready.
abbrev all_ok : List Requirement → Bool
all_ok [] = true
all_ok (r ∷ rs) = if is_ok r.status then all_ok rs else false

abbrev no_state : DeviceState
no_state = record { developer_mode_enabled = none; developer_image_mounted = none }

-- Without a prober the state is that of nothing known.
abbrev pub probed : Option DeviceState → DeviceState
probed none = no_state
probed (some s) = s

-- `CheckReadiness`
unfoldable pub check_readiness :
    (String → Bool) → Option (List String) → Option DeviceState → Readiness
unfolding status_of fix_for pairing_requirement
check_readiness is_paired listed prober =
    let state = probed prober in
    let requirements =
      device_requirement listed
      ∷ pairing_requirement is_paired (devices_or_none listed)
      ∷ record {
        id = "developer-mode";
        status = status_of state.developer_mode_enabled;
        fix = fix_for state.developer_mode_enabled mode_fix;
      }
      ∷ record {
        id = "developer-image";
        status = status_of state.developer_image_mounted;
        fix = fix_for state.developer_image_mounted image_fix;
      }
      ∷ [] in
    record { ready = all_ok requirements; requirements = requirements }
