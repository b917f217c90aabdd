-- ===== src/Drivers/Mount/Daemon.antt =====
-- The daemon's life in `Start` and `Stop` of tunnel_mount.go.
use maps_main.Shared.{
  Text, ℕ, suc, ◌≡◌, ◌≢◌, refl, subst, Bool, true, false, Option, none, some, List, [], ◌∷◌, arith,
  ◌||◌,
}
use maps_main.Domain.{TunnelInfo}
use maps_main.Drivers.Mount.{
  TunnelMount, Host, no_mount, is_cmd, mark, set, reap, kill_and_reap, Turn, Wake, daemon_gone,
  deadline, cancelled, ticked, Started, up, failed, waiting, poll, wake_up, StartConfig, start,
  on_daemon_exit, daemon_running, is_manual, reresolve_active_tunnel, reap_if,
}

-- How a start that launched the daemon `p` on the mount `m` may leave the machine.
abbrev pub Settled : ℕ → TunnelMount → Started × Host → Type 0
Settled p m (up ti, h) =
    (h.mount.info ≡ some ti)
    × (h.mount.on ≡ true)
    × (h.mount.cmd ≡ some p)
    × (h.mount.daemon_exited ≡ false)
Settled p m (failed, h) = (h.mount ≡ m) × ((h.dead p || h.killed p) ≡ true)
Settled p m (waiting, h) = h.mount ≡ m

reap-mount : (p : ℕ) (h : Host) → is_cmd p h.mount.cmd ≡ false → (reap p h).mount ≡ h.mount
unfolding reap on_daemon_exit
reap-mount p h out = rw out refl

reap_if-mount :
    (b : Bool) (p : ℕ) (h : Host) → is_cmd p h.mount.cmd ≡ false → (reap_if b p h).mount ≡ h.mount
reap_if-mount true p h out = reap-mount p h out
reap_if-mount false p h out = refl

reap-dead : (p : ℕ) (h : Host) → (reap p h).dead p ≡ true
unfolding reap
reap-dead p h = ground arith

kill_and_reap-lem :
    (in_time : Bool) (p : ℕ) (h : Host)
    → is_cmd p h.mount.cmd ≡ false
    → ((kill_and_reap in_time p h).mount ≡ h.mount) × ((kill_and_reap in_time p h).killed p ≡ true)
unfolding kill_and_reap reap
kill_and_reap-lem in_time p h out =
    let asked = record h { killed = mark p h.killed } in
    (reap_if-mount in_time p asked out, ground arith)

wake_up-Settled :
    (p : ℕ) (w : Wake) (rest : Started × Host) (h : Host)
    → is_cmd p h.mount.cmd ≡ false
    → Settled p h.mount rest
    → Settled p h.mount (wake_up p w rest h)
wake_up-Settled p daemon_gone rest h out later = (reap-mount p h out, ground (arith, reap-dead p h))
wake_up-Settled p (deadline in_time) rest h out later =
    let k = kill_and_reap-lem in_time p h out in (k.0, ground (arith, k.1))
wake_up-Settled p (cancelled in_time) rest h out later =
    let k = kill_and_reap-lem in_time p h out in (k.0, ground (arith, k.1))
wake_up-Settled p ticked rest h out later = later

set-lem :
    (p : ℕ) (ti : TunnelInfo) (udid : Text) (m : TunnelMount) (h : Host)
    → Settled p m (up ti, record h { mount = set ti (some p) udid h.mount })
unfolding set
set-lem p ti udid m h = (refl, refl, refl, refl)

settle :
    (p : ℕ) (w : Wake) (rest : Started × Host) (h : Host) (resolved : Option (TunnelInfo × Text))
    (between : Bool)
    → Settled p h.mount (wake_up p w rest h)
    → Settled p h.mount (elim resolved [
      | some (ti, udid) ↦
          let h' = reap_if between p h in
          (up ti, record h' { mount = set ti (some p) udid h'.mount })
      | none ↦ wake_up p w rest h
    ])
settle p w rest h (some (ti, udid)) between later = set-lem p ti udid h.mount (reap_if between p h)
settle p w rest h none between later = later

poll-Settled :
    (p : ℕ) (turns : List Turn) (h : Host)
    → is_cmd p h.mount.cmd ≡ false
    → Settled p h.mount (poll p turns h)
unfolding poll
poll-Settled p [] h out = refl
poll-Settled p (t ∷ turns) h out =
    let h' = reap_if t.exits_before p h in
    let same = reap_if-mount t.exits_before p h out in
    let out' : is_cmd p h'.mount.cmd ≡ false = rw same out in
    let later = poll-Settled p turns h' out' in
    subst (λ m. Settled p m (poll p (t ∷ turns) h)) same
      (settle p t.wake (poll p turns h') h' t.resolved t.exits_between
        (wake_up-Settled p t.wake (poll p turns h') h' out' later))

is_cmd-no_mount : (p : ℕ) (h : Host) → h.mount ≡ no_mount → is_cmd p h.mount.cmd ≡ false
is_cmd-no_mount p h off = rw off refl

start_launches :
    (cfg : StartConfig) (turns : List Turn) (h : Host)
    → h.mount ≡ no_mount
    → cfg.manual ≡ none
    → cfg.before_start ≡ true
    → cfg.daemon_starts ≡ true
    → start cfg turns h ≡ poll h.next_pid turns (record h { next_pid = suc h.next_pid })
unfolding start
start_launches cfg turns h off auto before starts =
    let idle : h.mount.on ≡ false = rw off refl in simp (start, idle, auto, before, starts)

-- A start that launches a daemon either comes back with a tunnel, and then the mount is up with that
-- endpoint and that daemon, or it fails, and then the mount is as it was and the daemon is gone or was
-- killed: no daemon is left behind.
pub start_settles :
    (cfg : StartConfig) (turns : List Turn) (h : Host)
    → h.mount ≡ no_mount
    → cfg.manual ≡ none
    → cfg.before_start ≡ true
    → cfg.daemon_starts ≡ true
    → Settled h.next_pid no_mount (start cfg turns h)
start_settles cfg turns h off auto before starts =
    let h' = record h { next_pid = suc h.next_pid } in
    let done = poll-Settled h.next_pid turns h' (is_cmd-no_mount h.next_pid h' off) in
    rw (start_launches cfg turns h off auto before starts)
      (subst (λ m. Settled h.next_pid m (poll h.next_pid turns h')) off done)

-- A turn that ends the loop: an endpoint, the daemon's exit, the deadline or the caller's cancellation.
abbrev pub ends : Option (TunnelInfo × Text) → Wake → Bool
ends (some r) w = true
ends none ticked = false
ends none daemon_gone = true
ends none (deadline in_time) = true
ends none (cancelled in_time) = true

abbrev any_ends : List Turn → Bool
any_ends [] = false
any_ends (t ∷ turns) = ends t.resolved t.wake || any_ends turns

abbrev over : Started → Bool
over (up ti) = true
over failed = true
over waiting = false

over-poll :
    (p : ℕ) (turns : List Turn) (h : Host) → any_ends turns ≡ true → over (poll p turns h).0 ≡ true
unfolding poll
over-poll p [] h e = ground arith
over-poll p (t ∷ turns) h e =
    let later = over-poll p turns (reap_if t.exits_before p h) in ground (arith, later)

over-waiting : (o : Started) → over o ≡ true → o ≢ waiting
over-waiting o e = ground arith

-- A start does not wait for ever: if at some turn there is an endpoint, or the daemon exits, or the
-- deadline or the caller's cancellation comes, the start is over.
start_ends :
    (cfg : StartConfig) (turns : List Turn) (h : Host)
    → any_ends turns ≡ true
    → (start cfg turns h).0 ≢ waiting
unfolding start
start_ends cfg turns h e =
    let launched = over-poll h.next_pid turns (record h { next_pid = suc h.next_pid }) e in
    over-waiting (start cfg turns h).0 (ground (arith, launched))

set_after_exit :
    (p : ℕ) (t : Turn) (turns : List Turn) (h : Host) (ti : TunnelInfo) (udid : Text)
    → t.resolved ≡ some (ti, udid)
    → t.exits_between ≡ true
    → let h' = (poll p (t ∷ turns) h).1 in
      (h'.dead p ≡ true)
      × (daemon_running h'.mount ≡ true)
      × (reresolve_active_tunnel none h'.mount ≡ (none, true, h'.mount))
unfolding poll set daemon_running reresolve_active_tunnel is_manual
set_after_exit p t turns h ti udid got gone =
    let dead = reap-dead p (reap_if t.exits_before p h) in rw (got, gone) (dead, refl, refl)

-- A daemon that exits after its endpoint was resolved and before the mount has it is never noticed: the
-- mount reports a running daemon although it is gone, and a search for the device that finds nothing
-- reports that there is no need to restart it.
start_misses_exit :
    (cfg : StartConfig) (t : Turn) (turns : List Turn) (h : Host) (ti : TunnelInfo) (udid : Text)
    → h.mount ≡ no_mount
    → cfg.manual ≡ none
    → cfg.before_start ≡ true
    → cfg.daemon_starts ≡ true
    → t.resolved ≡ some (ti, udid)
    → t.exits_between ≡ true
    → let h' = (start cfg (t ∷ turns) h).1 in
      (h'.dead h.next_pid ≡ true)
      × (daemon_running h'.mount ≡ true)
      × (reresolve_active_tunnel none h'.mount ≡ (none, true, h'.mount))
start_misses_exit cfg t turns h ti udid off auto before starts got gone =
    rw (start_launches cfg (t ∷ turns) h off auto before starts)
      (set_after_exit h.next_pid t turns (record h { next_pid = suc h.next_pid }) ti udid got gone)
