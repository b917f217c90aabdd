-- ===== src/Drivers/Pmd3/Mode.antt =====
-- What the calls of the pymobiledevice3 backend guarantee in its two modes.
use maps_main.Shared.{
  sym, ap, subst, ℕ, not, ◌&&◌, ◌≡◌, refl, String, str_eq_iff, Bool, true, false, Option, none,
  some, [], ◌∷◌, arith, inl, inr, Bool-cases, Option-cases,
}
use maps_main.Domain.{TunnelInfo}
use maps_main.Drivers.Mount.{
  Host, no_mount, set_active, stop, kill_daemon, kill_and_reap, reap, on_daemon_exit, Started, up,
  failed, start, check_health as dial_health, health_dial_target,
}
use maps_main.Drivers.Pmd3.{
  Worker, Driver, userspace_endpoint, drop_session, open_session, StartRun, start_tunneld,
  start_userspace_tunnel, mount_image, fall_back, start_tunnel, stop_tunnel, tunnel, check_health,
  same_endpoint, session_for, session_of, location_session, Reply, done, context_over, broken,
  settle_set, set_location, clear_location,
}
use maps_main.Drivers.Pmd3.Sole.{IsSole, drop_session-IsWorkerless, drop_session_mode}

abbrev IsCleared : Driver → Type 0
IsCleared d =
    (d.running ≡ []) × (d.location ≡ none) × (d.userspace ≡ false) × (d.host.mount ≡ no_mount)

kill_daemon_mount :
    (in_time : Bool) (c : Option ℕ) (h : Host)
    → h.mount ≡ no_mount
    → (kill_daemon in_time c h).mount ≡ no_mount
unfolding kill_daemon kill_and_reap reap on_daemon_exit
kill_daemon_mount in_time none h m = m
kill_daemon_mount true (some p) h m = ap (λ n. on_daemon_exit p n) m
kill_daemon_mount false (some p) h m = m

stop_mount : (in_time : Bool) (h : Host) → (stop in_time h).mount ≡ no_mount
unfolding stop
stop_mount in_time h =
    let killed = kill_daemon_mount in_time h.mount.cmd (record h { mount = no_mount }) refl in
    ground (arith, killed)

-- Whatever error the worker or the daemon gives, a stop of a driver whose workers are in order
-- leaves no worker process, no session, no userspace mode and a mount that is down, so that the next
-- start cannot answer the old endpoint.
stop_tunnel_clears :
    (reaped : Bool) (kill_error worker_error : Option String) (d : Driver)
    → IsSole d
    → IsCleared (stop_tunnel reaped kill_error worker_error d).1
unfolding stop_tunnel
stop_tunnel_clears reaped kill_error worker_error d s =
    let dropped = drop_session-IsWorkerless d s in
    let down = stop_mount reaped d.host in ground (arith, dropped, down)

pub same_endpoint_self : (ti : TunnelInfo) → same_endpoint ti ti ≡ true
same_endpoint_self ti = let self = (str_eq_iff ti.address ti.address).1 refl in ground (arith, self)

open_session_bound :
    (gets_ready : Bool) (ti : TunnelInfo) (d : Driver) (w : Worker)
    → (open_session gets_ready ti d).0 ≡ some w
    → w.endpoint ≡ ti
unfolding open_session
open_session_bound gets_ready ti d w h = ground (arith, h)

session_for_bound :
    (python gets_ready : Bool) (ti : TunnelInfo) (o : Option Worker) (d : Driver) (w : Worker)
    → (session_for python gets_ready ti o d).0 ≡ some w
    → same_endpoint w.endpoint ti ≡ true
session_for_bound python gets_ready ti none d w h =
    let self = same_endpoint_self ti in
    let opened = open_session_bound gets_ready ti d w in ground (arith, h, self, opened)
session_for_bound python gets_ready ti (some v) d w h =
    let self = same_endpoint_self ti in
    let opened = open_session_bound gets_ready ti (drop_session d) w in
    ground (arith, h, self, opened)

session_of_bound :
    (python gets_ready : Bool) (o : Option TunnelInfo) (d : Driver) (w : Worker)
    → o ≡ tunnel d
    → IsSole d
    → (session_of python gets_ready o d).0 ≡ some w
    → (ti : TunnelInfo) × (tunnel d ≡ some ti) × (same_endpoint w.endpoint ti ≡ true)
session_of_bound python gets_ready none d w o s h = ground (arith, h)
session_of_bound python gets_ready (some ti) d w o s h =
    let self = same_endpoint_self ti in
    let bound = session_for_bound python gets_ready ti d.location d w in
    (
      ti,
      sym o,
      elim (Bool-cases d.userspace) [
        | inl user ↦
            let holds = s.2 user w in
            let mode = s.1 user in
            let info : some ti ≡ d.host.mount.info = ground (arith, o, mode) in
            ground (arith, h, self, user, holds, mode, info)
        | inr kernel ↦ ground (arith, h, kernel, bound)
      ],
    )

settle_set_lem :
    (reply : Reply) (o : Option Worker) (d : Driver) (w : Worker)
    → (settle_set reply (o, d)).0 ≡ some w
    → o ≡ some w
settle_set_lem reply none d w h = h
settle_set_lem done (some v) d w h = h
settle_set_lem context_over (some v) d w h = ground (arith, h)
settle_set_lem broken (some v) d w h = ground (arith, h)

same_endpoint_lem :
    (a b : TunnelInfo) → same_endpoint a b ≡ true → (a.address ≡ b.address) × (a.port ≡ b.port)
same_endpoint_lem a b h = ground (arith, h, str_eq_iff a.address b.address)

-- An injection that succeeds was carried out by a worker bound to the address and port that the tunnel
-- has at that moment, never by one that an earlier endpoint has left behind. The driver is one whose workers
-- are in order (`IsSole`).
pub set_location_bound :
    (python gets_ready : Bool) (reply : Reply) (d : Driver) (w : Worker)
    → IsSole d
    → (set_location python gets_ready reply d).0 ≡ some w
    → (ti : TunnelInfo) × (tunnel d ≡ some ti)
      × (w.endpoint.address ≡ ti.address)
      × (w.endpoint.port ≡ ti.port)
unfolding set_location location_session
set_location_bound python gets_ready reply d w s h =
    let asked = location_session python gets_ready d in
    let (ti, is_up, same) =
      session_of_bound python gets_ready (tunnel d) d w refl s
        (settle_set_lem reply asked.0 asked.1 w h) in
    let (address, port) = same_endpoint_lem w.endpoint ti same in (ti, is_up, address, port)

-- A tunnel in userspace mode whose one worker has the number `n`.
abbrev pub IsUserspace : ℕ → (String × ℕ → Bool) → Started × Driver → Type 0
IsUserspace n dial (answer, d) =
    (answer ≡ up userspace_endpoint)
    × (d.userspace ≡ true)
    × (tunnel d ≡ some userspace_endpoint)
    × (d.running ≡ n ∷ [])
    × (check_health true dial d ≡ true)

start_userspace_tunnel-IsUserspace :
    (r : StartRun) (d : Driver) (dial : String × ℕ → Bool)
    → IsSole d
    → r.python ≡ true
    → r.worker_ready ≡ true
    → IsUserspace d.next_worker dial (start_userspace_tunnel r d)
unfolding start_userspace_tunnel open_session check_health set_active
start_userspace_tunnel-IsUserspace r d dial s python ready =
    let alone = drop_session-IsWorkerless d s in
    let kept = drop_session_mode d in ground (arith, python, ready, alone, kept)

fall_back_lem :
    (r : StartRun) (first : Started) (d : Driver)
    → first ≡ failed
    → d.manual ≡ none
    → r.context_over ≡ false
    → start_userspace_tunnel r d ≡ fall_back r first d
fall_back_lem r first d fails auto waits = ground (arith, fails, auto, waits)

-- When the first attempt fails, no address is set by hand and the caller still waits, a worker that
-- gets ready gives the in-process tunnel: the start succeeds without administrator rights, the mount
-- is up on the in-process endpoint, and the one worker that lives is the driver's, which answers the
-- health check. The driver is one whose workers are in order.
pub start_tunnel-IsUserspace :
    (r : StartRun) (d : Driver) (dial : String × ℕ → Bool)
    → IsSole d
    → (start_tunneld r (mount_image r.image (record d { userspace = false }))).0 ≡ failed
    → d.manual ≡ none
    → r.context_over ≡ false
    → r.python ≡ true
    → r.worker_ready ≡ true
    → IsUserspace d.next_worker dial (start_tunnel r d)
unfolding start_tunnel start_tunneld mount_image
start_tunnel-IsUserspace r d dial s fails auto waits python ready =
    let first = start_tunneld r (mount_image r.image (record d { userspace = false })) in
    let s' : IsSole first.1 = ground (arith, s) in
    let fallen = start_userspace_tunnel-IsUserspace r first.1 dial s' python ready in
    subst (IsUserspace d.next_worker dial) (fall_back_lem r first.0 first.1 fails auto waits) fallen

abbrev pub IsStranded :
    (python gets_ready pongs : Bool) → Reply → (String × ℕ → Bool) → Driver → Type 0
IsStranded python gets_ready pongs reply dial d =
    (tunnel d ≡ some userspace_endpoint)
    × (d.running ≡ [])
    × (check_health pongs dial d ≡ false)
    × ((set_location python gets_ready reply d).0 ≡ none)

drop_session-IsStranded :
    (python gets_ready pongs : Bool) (reply : Reply) (dial : String × ℕ → Bool) (d : Driver)
    → IsSole d
    → d.userspace ≡ true
    → IsStranded python gets_ready pongs reply dial (drop_session d)
unfolding check_health set_location location_session
drop_session-IsStranded python gets_ready pongs reply dial d s user =
    let alone = drop_session-IsWorkerless d s in
    let kept = drop_session_mode d in let mode = s.1 user in ground (arith, alone, kept, mode, user)

clear_location-drop_session :
    (python gets_ready : Bool) (d : Driver)
    → d.userspace ≡ true
    → drop_session d ≡ clear_location python gets_ready d
unfolding clear_location location_session
clear_location-drop_session python gets_ready d user = elim (Option-cases (tunnel d)) [
  | inl off ↦ ground (arith, off)
  | inr (ti, on) ↦ ground (arith, user, on)
]

-- Clearing the position in userspace mode ends the worker that is the tunnel. The mount still says
-- that the tunnel is up, but the next health check fails, and so does the next injection, whatever the
-- interpreter and the workers do. The driver is one whose workers are in order.
pub clear_location_userspace :
    (python gets_ready pongs : Bool) (reply : Reply) (dial : String × ℕ → Bool) (d : Driver)
    → IsSole d
    → d.userspace ≡ true
    → IsStranded python gets_ready pongs reply dial (clear_location python gets_ready d)
clear_location_userspace python gets_ready pongs reply dial d s user =
    subst (IsStranded python gets_ready pongs reply dial)
      (clear_location-drop_session python gets_ready d user)
      (drop_session-IsStranded python gets_ready pongs reply dial d s user)

-- A start of a driver whose in-process tunnel is up, with no stop before it, answers that tunnel and
-- puts the driver out of userspace mode: from then on a health check dials the in-process endpoint.
-- The driver is one whose workers are in order.
start_tunnel_mode :
    (r : StartRun) (d : Driver) (pongs : Bool) (dial : String × ℕ → Bool)
    → IsSole d
    → d.userspace ≡ true
    → ((start_tunnel r d).0 ≡ up userspace_endpoint)
      × ((start_tunnel r d).1.userspace ≡ false)
      × (check_health pongs dial (start_tunnel r d).1
          ≡ (not d.host.mount.daemon_exited && dial ("in-process", 0)))
unfolding start_tunnel start_tunneld mount_image check_health start dial_health health_dial_target
start_tunnel_mode r d pongs dial s user = let mode = s.1 user in ground (arith, mode)
