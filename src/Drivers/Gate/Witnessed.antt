-- ===== src/Drivers/Gate/Witnessed.antt =====
-- What the gate of mountgate.go may trust.
use maps_main.Shared.{
  ℕ, ◌-◌, ◌<◌, ◌≡◌, Text, text_eq_sound, Bool, true, false, some, List, [], ◌∷◌, Any, arith, inl,
  inr, Option-cases, subst,
}
use maps_main.Drivers.Gate.{
  MountGate, no_observation, mount_gate_ttl, mounted, mark_mounted, forget, ImageRun, ImageAction,
  already_there, mounted_now, mount_developer_image,
}

-- A run that ended: for which device, when, and what it did.
pub record Entry : Type 0 where
  pub udid : Text
  pub at : ℕ
  pub action : ImageAction

abbrev has_confirmed : ImageAction → Bool
has_confirmed already_there = true
has_confirmed mounted_now = true
has_confirmed _ = false

abbrev pub Confirms : Text → ℕ → Entry → Type 0
Confirms u t e = (e.udid ≡ u) × (e.at ≡ t) × (has_confirmed e.action ≡ true)

abbrev pub entry_of : Text → ImageRun → MountGate → Entry
entry_of u r g = record { udid = u; at = r.marked_at; action = (mount_developer_image u r g).0 }

-- A gate with the runs that led to it, the last one first.
pub data Reach : MountGate → List Entry → Type 0 where
  fresh : Reach no_observation []
  ran :
      {g : MountGate} {log : List Entry} (u : Text) (r : ImageRun)
      → Reach g log
      → Reach (mount_developer_image u r g).1 (entry_of u r g ∷ log)
  forgotten : {g : MountGate} {log : List Entry} → Reach g log → Reach (forget g) log

abbrev IsWitnessed : MountGate → List Entry → Type 0
IsWitnessed g log = (t : ℕ) → g.seen ≡ some t → Any (Confirms g.udid t) log

run-IsWitnessed :
    (u : Text) (r : ImageRun) (g : MountGate) (log : List Entry)
    → IsWitnessed g log
    → IsWitnessed (mount_developer_image u r g).1 (entry_of u r g ∷ log)
unfolding mount_developer_image mark_mounted
run-IsWitnessed u r g log w t = let before = w t in ground (arith, before)

Reach-IsWitnessed : {g : MountGate} {log : List Entry} → Reach g log → IsWitnessed g log
unfolding forget
Reach-IsWitnessed fresh = λ t h. ground arith
Reach-IsWitnessed (ran {g} {log} u r reached) =
    run-IsWitnessed u r g log (Reach-IsWitnessed reached)
Reach-IsWitnessed (forgotten reached) = λ t h. ground arith

-- Whatever runs went before, the mount of the developer image is left out on the gate's word only if,
-- less than five minutes ago, a run for the same device found the image mounted or mounted it itself:
-- a run that failed, that could not ask, or that was left out is never trusted.
pub Reach-mounted :
    {g : MountGate} {log : List Entry}
    → Reach g log
    → (u : Text) (now : ℕ) → mounted u now g ≡ true
    → (t : ℕ) × (now - t < mount_gate_ttl) × Any (Confirms u t) log
unfolding mounted
Reach-mounted {g} {log} reached u now h =
    let sound = text_eq_sound g.udid u in
    let witness = Reach-IsWitnessed reached in
    elim (Option-cases g.seen) [
      | inl never ↦ ground (arith, h, never)
      | inr (t, seen) ↦
          let same : g.udid ≡ u = ground (arith, h, sound) in
          let recent : now - t < mount_gate_ttl = ground (arith, h, seen) in
          (t, recent, subst (λ v. Any (Confirms v t) log) same (witness t seen))
    ]
