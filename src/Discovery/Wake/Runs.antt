-- ===== src/Discovery/Wake/Runs.antt =====
-- Which runs of the waker of wake.go are live.
use maps_main.Shared.{
  ℕ, ◌≡◌, refl, ap, ◌&&◌, Bool, none, some, [], ◌∷◌, arith, ◌⊎◌, inl, inr, Bool-cases,
}
use maps_main.Discovery.Wake.{MdnsWaker, stop, start, context_ends, dispatch_restart_mdns}

-- No run is live but the one that the waker can cancel.
abbrev IsSingle : MdnsWaker → Type 0
IsSingle w = (w.live ≡ []) ⊎ ((i : ℕ) × (c : ℕ) × (w.current ≡ some i) × (w.live ≡ (i, c) ∷ []))

stop_live : (w : MdnsWaker) → IsSingle w → (stop w).live ≡ []
unfolding stop
stop_live w s = ground (arith, s)

start-IsSingle :
    (has_tool installed : Bool) (ctx : ℕ) (w : MdnsWaker)
    → IsSingle w
    → IsSingle (start has_tool installed ctx w)
unfolding start
start-IsSingle has_tool installed ctx w s =
    let stopped = stop_live w s in
    elim (Bool-cases (has_tool && installed)) [
      | inl can ↦ rw can (inr (w.next_run, ctx, refl, ap (λ l. (w.next_run, ctx) ∷ l) stopped))
      | inr cannot ↦ rw cannot (inl stopped)
    ]

stop-IsSingle : (w : MdnsWaker) → IsSingle w → IsSingle (stop w)
stop-IsSingle w s = inl (stop_live w s)

context_ends-IsSingle : (ctx : ℕ) (w : MdnsWaker) → IsSingle w → IsSingle (context_ends ctx w)
unfolding context_ends
context_ends-IsSingle ctx w s = ground (arith, s)

-- What happens to a waker: its calls, and the end of a context.
pub data Step : MdnsWaker → MdnsWaker → Type 0 where
  started :
      (has_tool installed : Bool) (ctx : ℕ) {w : MdnsWaker}
      → Step w (start has_tool installed ctx w)
  stopped : {w : MdnsWaker} → Step w (stop w)
  ended : (ctx : ℕ) {w : MdnsWaker} → Step w (context_ends ctx w)

abbrev pub no_runs : MdnsWaker
no_runs = record { current = none; next_run = 0; live = [] }

pub data Reach : MdnsWaker → Type 0 where
  fresh : Reach no_runs
  next : {v w : MdnsWaker} → Reach v → Step v w → Reach w

Step-IsSingle : {v w : MdnsWaker} → IsSingle v → Step v w → IsSingle w
Step-IsSingle {v} s (started has_tool installed ctx) = start-IsSingle has_tool installed ctx v s
Step-IsSingle {v} s stopped = stop-IsSingle v s
Step-IsSingle {v} s (ended ctx) = context_ends-IsSingle ctx v s

-- Through any starts, stops and ends of contexts, one after the other, at most one run is live, and it
-- is the one that the waker can cancel: a start replaces the run before it.
pub Reach-IsSingle : {w : MdnsWaker} → Reach w → IsSingle w
Reach-IsSingle fresh = inl refl
Reach-IsSingle (next r step) = Step-IsSingle (Reach-IsSingle r) step

-- The action that restarts mDNS leaves no run live: it stops the one there was, and the one that it
-- starts ends with the context of the action. The waker is one with at most one live run.
pub dispatch_restart_mdns_silent :
    (has_tool installed : Bool) (ctx : ℕ) (w : MdnsWaker)
    → IsSingle w
    → (dispatch_restart_mdns has_tool installed ctx w).live ≡ []
unfolding dispatch_restart_mdns context_ends start
dispatch_restart_mdns_silent has_tool installed ctx w s =
    let stopped = stop_live w s in
    elim (Bool-cases (has_tool && installed)) [
      | inl can ↦ rw (can, stopped) (ground arith)
      | inr cannot ↦ rw (cannot, stopped) refl
    ]
