-- ===== src/Discovery/Wake.antt =====
-- engine/internal/discovery/wake.go: the browses that keep an iPhone discoverable. Times are in
-- seconds. A run of `Start` has a number, and so has the context it is started under; `live` holds the
-- runs whose browses are not cancelled, each with its context.
pub mod Alerts
pub mod Runs
use maps_main.Shared.{
  ℕ, suc, ◌+◌, ◌*◌, Bool, true, false, not, ◌&&◌, Option, none, some, List, [], ◌∷◌, ltb, leb, ◌==◌,
  if◌then◌else◌,
}

abbrev browse_restart_delay : ℕ
browse_restart_delay = 2

abbrev pub browse_restart_max : ℕ
browse_restart_max = 60

abbrev pub min_healthy_run : ℕ
min_healthy_run = 3

abbrev pub failures_before_warning : ℕ
failures_before_warning = 3

-- What the logger is told.
pub data Notice : Type 0 where
  failing : Notice
  recovered : Notice

-- `wakeHealth`
pub record WakeHealth : Type 0 where
  pub failures : ℕ
  pub warned : Bool

-- `recordFailure` and `recordSuccess`
unfoldable pub record_failure : WakeHealth → Option Notice × WakeHealth
record_failure h =
    let warns = leb failures_before_warning (h.failures + 1) && not h.warned in
    (
      if warns then some failing else none,
      record { failures = h.failures + 1; warned = if warns then true else h.warned },
    )

unfoldable pub record_success : WakeHealth → Option Notice × WakeHealth
record_success h =
    (if h.warned then some recovered else none, record { failures = 0; warned = false })

-- The delay of a browse loop after a run of the tool that took so long.
unfoldable pub next_delay : ℕ → ℕ → ℕ
next_delay ran delay =
    if leb min_healthy_run ran
    then browse_restart_delay
    else if ltb browse_restart_max (delay * 2)
    then browse_restart_max
    else delay * 2

unfoldable pub note_run : ℕ → WakeHealth → Option Notice × WakeHealth
note_run ran h = if leb min_healthy_run ran then record_success h else record_failure h

-- The loops of all services share one health; each has its own delay. `notices` has the last one first.
pub record Browses : Type 0 where
  pub delay : ℕ → ℕ
  pub health : WakeHealth
  pub notices : List Notice

abbrev add_notice : Option Notice → List Notice → List Notice
add_notice none l = l
add_notice (some n) l = n ∷ l

abbrev fresh_browses : Browses
fresh_browses = record {
  delay = λ svc. browse_restart_delay;
  health = record { failures = 0; warned = false };
  notices = [];
}

-- A run of the tool that ended by itself: the service, and how long it took.
pub record Run : Type 0 where
  pub service : ℕ
  pub ran : ℕ

-- One turn of `browseLoop`.
unfoldable pub browse_turn : Run → Browses → Browses
browse_turn r b = record {
  delay = λ svc. if svc == r.service then next_delay r.ran (b.delay svc) else b.delay svc;
  health = (note_run r.ran b.health).1;
  notices = add_notice (note_run r.ran b.health).0 b.notices;
}

-- The turns of all loops in the order they end, the last one first.
abbrev pub browse_all : List Run → Browses
browse_all [] = fresh_browses
browse_all (r ∷ rs) = browse_turn r (browse_all rs)

-- `MDNSWaker`: the run whose cancel function it holds.
pub record MdnsWaker : Type 0 where
  pub current : Option ℕ
  pub next_run : ℕ
  pub live : List (ℕ × ℕ)

abbrev cancel_run : ℕ → List (ℕ × ℕ) → List (ℕ × ℕ)
cancel_run i [] = []
cancel_run i ((j, c) ∷ rest) =
    let later = cancel_run i rest in if j == i then later else (j, c) ∷ later

abbrev cancel_current : Option ℕ → List (ℕ × ℕ) → List (ℕ × ℕ)
cancel_current none l = l
cancel_current (some i) l = cancel_run i l

-- `Stop`
unfoldable pub stop : MdnsWaker → MdnsWaker
stop w = record w { current = none; live = cancel_current w.current w.live }

-- `Start`, with whether the platform has a browse tool and whether it is installed.
unfoldable pub start : Bool → Bool → ℕ → MdnsWaker → MdnsWaker
start has_tool installed ctx w =
    let stopped = stop w in
    if has_tool && installed
    then record {
      current = some w.next_run;
      next_run = suc w.next_run;
      live = (w.next_run, ctx) ∷ stopped.live;
    }
    else stopped

-- The end of a context cancels the runs that were started under it.
abbrev end_context : ℕ → List (ℕ × ℕ) → List (ℕ × ℕ)
end_context ctx [] = []
end_context ctx ((j, c) ∷ rest) =
    let later = end_context ctx rest in if c == ctx then later else (j, c) ∷ later

unfoldable pub context_ends : ℕ → MdnsWaker → MdnsWaker
context_ends ctx w = record w { live = end_context ctx w.live }

-- server/dispatch.go: `dispatchRestartMdns` starts the waker under the context of the action, which it
-- cancels when it returns.
unfoldable pub dispatch_restart_mdns : Bool → Bool → ℕ → MdnsWaker → MdnsWaker
dispatch_restart_mdns has_tool installed ctx w = context_ends ctx (start has_tool installed ctx w)
