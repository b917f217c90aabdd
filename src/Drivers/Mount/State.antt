-- ===== src/Drivers/Mount/State.antt =====
-- What the state of a mount of tunnel_mount.go always is, whatever calls and exits come in what order.
use maps_main.Shared.{
  sym, subst, ℕ, suc, ◌<◌, ◌≡◌, refl, Text, Bool, true, false, Option, none, some, is_some, List,
  [], ◌∷◌, arith, ◌⊎◌, inl, inr, if◌then◌else◌, Bool-cases, Option-cases,
}
use maps_main.Domain.{TunnelInfo}
use maps_main.Drivers.Mount.{
  TunnelMount, Host, no_mount, mark, set, set_active, update_info, on_daemon_exit, reap, reap_if,
  kill_and_reap, kill_daemon, stop, Turn, Wake, daemon_gone, deadline, cancelled, ticked, Started,
  poll, wake_up, StartConfig, start, NetworkDevice, reresolve_active_tunnel, is_manual,
}

abbrev IsBelow : ℕ → Option ℕ → Type 0
IsBelow n none = Unit {0}
IsBelow n (some p) = p < n

abbrev is_gone : Option ℕ → (ℕ → Bool) → Bool
is_gone none dead = false
is_gone (some p) dead = dead p

abbrev IsDown : TunnelMount → Type 0
IsDown m =
    (m.on ≡ false) × (m.info ≡ none) × (m.cmd ≡ none) × (m.udid ≡ []) × (m.daemon_exited ≡ false)

-- A mount is down and bare, or up with an endpoint; its daemon is one that was launched; and if it
-- says that its daemon has exited, it has a daemon and that daemon is gone.
abbrev pub IsSound : Host → Type 0
IsSound h =
    (IsDown h.mount ⊎ ((h.mount.on ≡ true) × (is_some h.mount.info ≡ true)))
    × IsBelow h.next_pid h.mount.cmd
    × ((h.mount.daemon_exited ≡ false) ⊎ (is_gone h.mount.cmd h.dead ≡ true))

reap-IsSound : (p : ℕ) (h : Host) → IsSound h → IsSound (reap p h)
unfolding reap on_daemon_exit
reap-IsSound p h s = ground arith

reap_if-IsSound : (b : Bool) (p : ℕ) (h : Host) → IsSound h → IsSound (reap_if b p h)
reap_if-IsSound true p h s = reap-IsSound p h s
reap_if-IsSound false p h s = s

kill_and_reap-IsSound :
    (in_time : Bool) (p : ℕ) (h : Host) → IsSound h → IsSound (kill_and_reap in_time p h)
unfolding kill_and_reap
kill_and_reap-IsSound in_time p h s =
    reap_if-IsSound in_time p (record h { killed = mark p h.killed }) s

kill_daemon-IsSound :
    (in_time : Bool) (c : Option ℕ) (h : Host) → IsSound h → IsSound (kill_daemon in_time c h)
unfolding kill_daemon
kill_daemon-IsSound in_time none h s = s
kill_daemon-IsSound in_time (some p) h s = kill_and_reap-IsSound in_time p h s

stop-IsSound : (in_time : Bool) (h : Host) → IsSound h → IsSound (stop in_time h)
unfolding stop
stop-IsSound in_time h s =
    let off = record h { mount = no_mount } in
    let bare : IsSound off = (inl (refl, refl, refl, refl, refl), tt, inl refl) in
    let killed = kill_daemon-IsSound in_time h.mount.cmd off bare in
    elim (Bool-cases h.mount.on) [
      | inl up_was ↦
          subst (λ b. IsSound (if b then kill_daemon in_time h.mount.cmd off else off)) (sym up_was)
            killed
      | inr down_was ↦
          subst (λ b. IsSound (if b then kill_daemon in_time h.mount.cmd off else off))
            (sym down_was) bare
    ]

set-IsSound :
    (ti : TunnelInfo) (p : ℕ) (udid : Text) (h : Host)
    → p < h.next_pid
    → IsSound (record h { mount = set ti (some p) udid h.mount })
unfolding set
set-IsSound ti p udid h lt = (inr (refl, refl), lt, inl refl)

wake_up-IsSound :
    (p : ℕ) (w : Wake) (rest : Started × Host) (h : Host)
    → IsSound h
    → IsSound rest.1
    → IsSound (wake_up p w rest h).1
wake_up-IsSound p daemon_gone rest h s later = reap-IsSound p h s
wake_up-IsSound p (deadline in_time) rest h s later = kill_and_reap-IsSound in_time p h s
wake_up-IsSound p (cancelled in_time) rest h s later = kill_and_reap-IsSound in_time p h s
wake_up-IsSound p ticked rest h s later = later

reap_if-next_pid : (b : Bool) (p : ℕ) (h : Host) → (reap_if b p h).next_pid ≡ h.next_pid
unfolding reap
reap_if-next_pid true p h = refl
reap_if-next_pid false p h = refl

poll-IsSound :
    (p : ℕ) (turns : List Turn) (h : Host) → IsSound h → p < h.next_pid → IsSound (poll p turns h).1
unfolding poll
poll-IsSound p [] h s lt = s
poll-IsSound p (t ∷ turns) h s lt =
    let h' = reap_if t.exits_before p h in
    let s' = reap_if-IsSound t.exits_before p h s in
    let n = reap_if-next_pid t.exits_before p h in
    let lt' : p < h'.next_pid = rw n lt in
    let later = poll-IsSound p turns h' s' lt' in
    elim (Option-cases t.resolved) [
      | inl nothing ↦ rw nothing (wake_up-IsSound p t.wake (poll p turns h') h' s' later)
      | inr ((ti, udid), found) ↦
          let n' = reap_if-next_pid t.exits_between p h' in
          rw found (set-IsSound ti p udid (reap_if t.exits_between p h') (rw (n', n) lt))
    ]

start-IsSound :
    (cfg : StartConfig) (turns : List Turn) (h : Host) → IsSound h → IsSound (start cfg turns h).1
unfolding start set_active set
start-IsSound cfg turns h s =
    let h' = record h { next_pid = suc h.next_pid } in
    let s' : IsSound h' = ground arith in
    let launched = poll-IsSound h.next_pid turns h' s' (omega arith) in ground (arith, launched)

follow-IsSound :
    (listed : Option (List NetworkDevice)) (h : Host)
    → IsSound h
    → IsSound (record h { mount = (reresolve_active_tunnel listed h.mount).2 })
unfolding reresolve_active_tunnel update_info is_manual
follow-IsSound listed h s = ground arith

-- What happens to a mount: its calls, and the exit of a process.
pub data Step : Host → Host → Type 0 where
  started : (cfg : StartConfig) (turns : List Turn) {h : Host} → Step h (start cfg turns h).1
  stopped : (in_time : Bool) {h : Host} → Step h (stop in_time h)
  exited : (p : ℕ) {h : Host} → Step h (reap p h)
  followed :
      (listed : Option (List NetworkDevice)) {h : Host}
      → Step h (record h { mount = (reresolve_active_tunnel listed h.mount).2 })

pub data Reach : Host → Type 0 where
  fresh :
      {dead killed : ℕ → Bool} {n : ℕ}
      → Reach (record { mount = no_mount; next_pid = n; dead = dead; killed = killed })
  next : {h k : Host} → Reach h → Step h k → Reach k

Step-IsSound : {h k : Host} → IsSound h → Step h k → IsSound k
Step-IsSound {h} s (started cfg turns) = start-IsSound cfg turns h s
Step-IsSound {h} s (stopped in_time) = stop-IsSound in_time h s
Step-IsSound {h} s (exited p) = reap-IsSound p h s
Step-IsSound {h} s (followed listed) = follow-IsSound listed h s

-- Through any starts, stops, searches for the device and exits of processes, in any order, the mount is
-- down and bare or up with an endpoint, its daemon is one that was launched, and it says that its
-- daemon has exited only if that very daemon has: the late exit of an older one does not count.
pub Reach-IsSound : {h : Host} → Reach h → IsSound h
Reach-IsSound fresh = (inl (refl, refl, refl, refl, refl), tt, inl refl)
Reach-IsSound (next r step) = Step-IsSound (Reach-IsSound r) step
