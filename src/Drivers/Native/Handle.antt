-- ===== src/Drivers/Native/Handle.antt =====
-- The managers of the in-process go-ios backend, and the endpoint that its calls reach.
use maps_main.Shared.{
  ℕ, ◌≡◌, refl, ◌∙◌, Text, Bool, true, false, Option, none, some, List, [], ◌∷◌, arith,
}
use maps_main.Domain.{TunnelInfo}
use maps_main.Drivers.Pmd3.{same_endpoint}
use maps_main.Drivers.Pmd3.Mode.{same_endpoint_self}
use maps_main.Drivers.Native.{
  Driver, Answers, Attempt, new, resolve_udid, find_tunnel, await_tunnel, teardown, settle,
  with_manager, start_mode, second_mode, start_with, start_unless, start_tunnel, follow,
  follow_managed, follow_unless, reresolve_tunnel, rebuilt, handle_for, handle_at, device_handle,
  settle_call, set_location,
}

abbrev numbers_of : Option ℕ → List ℕ
numbers_of none = []
numbers_of (some m) = m ∷ []

-- The managers that are open are the driver's own one or none, and without a tunnel there is none.
abbrev pub IsOpen : Driver → Type 0
IsOpen d = (d.open_managers ≡ numbers_of d.manager) × (d.active ≡ none → d.manager ≡ none)

teardown-IsOpen : (d : Driver) → d.open_managers ≡ numbers_of d.manager → IsOpen (teardown d)
unfolding teardown
teardown-IsOpen d s = ground (arith, s)

resolve_udid-IsOpen :
    (listed : Option Text) (d : Driver) → IsOpen d → IsOpen (resolve_udid listed d).1
unfolding resolve_udid
resolve_udid-IsOpen listed d s = ground (arith, s)

resolve_udid_active :
    (listed : Option Text) (d : Driver) → (resolve_udid listed d).1.active ≡ d.active
unfolding resolve_udid
resolve_udid_active listed d = ground arith

settle-IsOpen :
    (o : Option TunnelInfo) (d : Driver)
    → d.active ≡ none
    → IsOpen d
    → IsOpen (settle o (with_manager d)).1
settle-IsOpen none d off s = teardown-IsOpen (with_manager d) (ground (arith, off, s))
settle-IsOpen (some ti) d off s = ground (arith, off, s)

start_mode-IsOpen :
    (a : Attempt) (d : Driver) → d.active ≡ none → IsOpen d → IsOpen (start_mode a d).1
unfolding start_mode
start_mode-IsOpen a d off s =
    let known = resolve_udid a.listed d in
    let same = resolve_udid_active a.listed d in
    let kept = resolve_udid-IsOpen a.listed d s in
    let settled = settle-IsOpen (await_tunnel known.0 a.polls) known.1 (same ∙ off) kept in
    ground (arith, kept, settled)

settle_failed :
    (o : Option TunnelInfo) (d : Driver) → (settle o d).0 ≡ none → (settle o d).1.active ≡ none
unfolding teardown
settle_failed none d h = refl
settle_failed (some ti) d h = ground (arith, h)

start_mode_failed :
    (a : Attempt) (d : Driver)
    → d.active ≡ none
    → (start_mode a d).0 ≡ none
    → (start_mode a d).1.active ≡ none
unfolding start_mode
start_mode_failed a d off h =
    let known = resolve_udid a.listed d in
    let same = resolve_udid_active a.listed d in
    let failed = settle_failed (await_tunnel known.0 a.polls) (with_manager known.1) in
    ground (arith, off, same, h, failed)

second_mode-IsOpen :
    (over : Bool) (a : Attempt) (o : Option TunnelInfo) (d : Driver)
    → (o ≡ none → d.active ≡ none)
    → IsOpen d
    → IsOpen (second_mode over a o d).1
second_mode-IsOpen over a (some ti) d off s = s
second_mode-IsOpen true a none d off s = s
second_mode-IsOpen false a none d off s = start_mode-IsOpen a d (off refl) s

start_with-IsOpen :
    (o : Option (Option TunnelInfo)) (kernel : Attempt) (over : Bool) (userspace : Attempt)
    (d : Driver)
    → d.active ≡ none
    → IsOpen d
    → IsOpen (start_with o kernel over userspace d).1
start_with-IsOpen (some none) kernel over userspace d off s = s
start_with-IsOpen (some (some ti)) kernel over userspace d off s = ground (arith, s)
start_with-IsOpen none kernel over userspace d off s =
    let first = start_mode kernel d in
    second_mode-IsOpen over userspace first.0 first.1 (start_mode_failed kernel d off)
      (start_mode-IsOpen kernel d off s)

start_unless-IsOpen :
    (o : Option TunnelInfo) (kernel : Attempt) (over : Bool) (userspace : Attempt) (d : Driver)
    → d.active ≡ o
    → IsOpen d
    → IsOpen (start_unless o kernel over userspace d).1
start_unless-IsOpen (some ti) kernel over userspace d on s = s
start_unless-IsOpen none kernel over userspace d off s =
    start_with-IsOpen d.manual kernel over userspace d off s

start_tunnel-IsOpen :
    (kernel : Attempt) (over : Bool) (userspace : Attempt) (d : Driver)
    → IsOpen d
    → IsOpen (start_tunnel kernel over userspace d).1
unfolding start_tunnel
start_tunnel-IsOpen kernel over userspace d s =
    start_unless-IsOpen d.active kernel over userspace d refl s

follow-IsOpen : (o : Option TunnelInfo) (d : Driver) → IsOpen d → IsOpen (follow o d).2
follow-IsOpen none d s = s
follow-IsOpen (some ti) d s = ground (arith, s)

follow_managed-IsOpen :
    (m : Option ℕ) (a : Answers) (d : Driver) → IsOpen d → IsOpen (follow_managed m a d).2
follow_managed-IsOpen none a d s = s
follow_managed-IsOpen (some m) a d s = follow-IsOpen (find_tunnel d.udid a) d s

follow_unless-IsOpen :
    (o : Option (Option TunnelInfo)) (a : Answers) (d : Driver)
    → IsOpen d
    → IsOpen (follow_unless o a d).2
follow_unless-IsOpen none a d s = follow_managed-IsOpen d.manager a d s
follow_unless-IsOpen (some address) a d s = s

reresolve_tunnel-IsOpen : (a : Answers) (d : Driver) → IsOpen d → IsOpen (reresolve_tunnel a d).2
unfolding reresolve_tunnel
reresolve_tunnel-IsOpen a d s = follow_unless-IsOpen d.manual a d s

rebuilt_same :
    (builds : Bool) (ti : TunnelInfo) (d : Driver) → IsOpen d → IsOpen (rebuilt builds ti d).1
rebuilt_same true ti d s = s
rebuilt_same false ti d s = s

handle_for-IsOpen :
    (builds : Bool) (ti : TunnelInfo) (b : Option TunnelInfo) (d : Driver)
    → IsOpen d
    → IsOpen (handle_for builds ti b d).1
handle_for-IsOpen builds ti none d s = rebuilt_same builds ti d s
handle_for-IsOpen builds ti (some b) d s =
    let again = rebuilt_same builds ti d s in ground (arith, s, again)

handle_at-IsOpen :
    (builds : Bool) (o : Option TunnelInfo) (d : Driver)
    → IsOpen d
    → IsOpen (handle_at builds o d).1
handle_at-IsOpen builds none d s = s
handle_at-IsOpen builds (some ti) d s = handle_for-IsOpen builds ti d.bound d s

settle_call-IsOpen :
    (fails : Bool) (o : Option TunnelInfo) (d : Driver)
    → IsOpen d
    → IsOpen (settle_call fails (o, d)).1
settle_call-IsOpen fails none d s = s
settle_call-IsOpen true (some b) d s = s
settle_call-IsOpen false (some b) d s = s

set_location-IsOpen :
    (builds fails : Bool) (d : Driver) → IsOpen d → IsOpen (set_location builds fails d).1
unfolding set_location device_handle
set_location-IsOpen builds fails d s =
    let handle = handle_at builds d.active d in
    settle_call-IsOpen fails handle.0 handle.1 (handle_at-IsOpen builds d.active d s)

-- What happens to a driver: its calls, one after the other.
pub data Step : Driver → Driver → Type 0 where
  started :
      (kernel : Attempt) (over : Bool) (userspace : Attempt) {d : Driver}
      → Step d (start_tunnel kernel over userspace d).1
  stopped : {d : Driver} → Step d (teardown d)
  followed : (a : Answers) {d : Driver} → Step d (reresolve_tunnel a d).2
  located : (builds fails : Bool) {d : Driver} → Step d (set_location builds fails d).1

pub data Reach : Driver → Type 0 where
  fresh : (udid : Text) (manual : Option (Option TunnelInfo)) → Reach (new udid manual)
  next : {c d : Driver} → Reach c → Step c d → Reach d

Step-IsOpen : {c d : Driver} → IsOpen c → Step c d → IsOpen d
Step-IsOpen {c} s (started kernel over userspace) = start_tunnel-IsOpen kernel over userspace c s
Step-IsOpen {c} s stopped = teardown-IsOpen c s.0
Step-IsOpen {c} s (followed a) = reresolve_tunnel-IsOpen a c s
Step-IsOpen {c} s (located builds fails) = set_location-IsOpen builds fails c s

new-IsOpen : (udid : Text) (manual : Option (Option TunnelInfo)) → IsOpen (new udid manual)
unfolding new
new-IsOpen udid manual = ground arith

-- Through any starts, failed ones included, stops, searches and calls, one after the other, at most
-- one tunnel manager is open, the one that the driver holds, and none is when no tunnel is up: a failed
-- attempt leaves nothing running.
pub Reach-IsOpen : {d : Driver} → Reach d → IsOpen d
Reach-IsOpen (fresh udid manual) = new-IsOpen udid manual
Reach-IsOpen (next r step) = Step-IsOpen (Reach-IsOpen r) step

handle_for_bound :
    (builds : Bool) (ti : TunnelInfo) (o : Option TunnelInfo) (d : Driver) (b : TunnelInfo)
    → (handle_for builds ti o d).0 ≡ some b
    → same_endpoint b ti ≡ true
handle_for_bound builds ti none d b h = let self = same_endpoint_self ti in ground (arith, h, self)
handle_for_bound builds ti (some c) d b h =
    let self = same_endpoint_self ti in ground (arith, h, self)

handle_at_bound :
    (builds : Bool) (o : Option TunnelInfo) (d : Driver) (b : TunnelInfo)
    → (handle_at builds o d).0 ≡ some b
    → (ti : TunnelInfo) × (o ≡ some ti) × (same_endpoint b ti ≡ true)
handle_at_bound builds none d b h = ground (arith, h)
handle_at_bound builds (some ti) d b h = (ti, refl, handle_for_bound builds ti d.bound d b h)

settle_call_lem :
    (fails : Bool) (o : Option TunnelInfo) (d : Driver) (b : TunnelInfo)
    → (settle_call fails (o, d)).0 ≡ some b
    → o ≡ some b
settle_call_lem fails none d b h = h
settle_call_lem true (some c) d b h = ground (arith, h)
settle_call_lem false (some c) d b h = h

-- A call that succeeds reached the endpoint that the tunnel has at that moment, whatever handle was
-- kept from before.
set_location-same_endpoint :
    (builds fails : Bool) (d : Driver) (b : TunnelInfo)
    → (set_location builds fails d).0 ≡ some b
    → (ti : TunnelInfo) × (d.active ≡ some ti) × (same_endpoint b ti ≡ true)
unfolding set_location device_handle
set_location-same_endpoint builds fails d b h =
    let handle = handle_at builds d.active d in
    handle_at_bound builds d.active d b (settle_call_lem fails handle.0 handle.1 b h)
