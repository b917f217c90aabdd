-- ===== src/Engine/Simulation/Journey.antt =====
-- The journey of `startRouteSimulation` in simulation.go, from its first tick to its end.
use maps_main.Shared.{
  ℕ, zero, suc, ◌+◌, ◌≤◌, ◌<◌, ◌≡◌, refl, ap, sym, subst, ◌⊎◌, inl, inr, Bool-cases, ◌∙◌, String,
  Bool, true, false, Option, none, some, List, [], ◌∷◌, leb, length, get_elem?, arith,
}
use maps_main.Domain.{LatLon, nav_stopped, ready}
use maps_main.Engine.Model.{Env, State}
use maps_main.Engine.Location.{sim_set_location, inject_location}
use maps_main.Engine.Geometry.{Plan}
use maps_main.Engine.Simulation.{
  Turn, going, finished, crashed, route_end, noisy, progress_at, route_record, route_move,
  route_advance, route_tick, route_ticks, index_at,
}

module _ (env : Env) where
  open env use {Real, World, now_ms}

  abbrev pub S : Type 0
  S = State Real World

  -- What a simulation's own steps leave alone.
  abbrev IsSameRun : S → S → Type 0
  IsSameRun s t =
      (t.eng.sim ≡ s.eng.sim)
      × (t.eng.sim_paused ≡ s.eng.sim_paused)
      × (t.eng.cancelled ≡ s.eng.cancelled)
      × (t.eng.st.tunnel_active ≡ s.eng.st.tunnel_active)
      × (t.eng.st.navigation ≡ s.eng.st.navigation)

  inject-IsSameRun :
      (p : LatLon Real) (name : String) (s : S) → IsSameRun s (sim_set_location env p name s).1
  unfolding inject_location
  inject-IsSameRun p name s = ground arith

  noisy-IsSameRun : (b : Bool) (p : LatLon Real) (s : S) → IsSameRun s (noisy env b p s).1
  unfolding noisy
  noisy-IsSameRun true p s = ground arith
  noisy-IsSameRun false p s = ground arith

  -- What a tick at a point that exists does.
  abbrev IsMove : Plan Real → ℕ → S → Turn × S → Type 0
  IsMove plan index s (r, t) =
      (r ≡ going (index + 1))
      × (t.eng.sim ≡ s.eng.sim)
      × (t.eng.sim_paused ≡ s.eng.sim_paused)
      × (t.eng.cancelled ≡ s.eng.cancelled)
      × (t.eng.st.navigation ≡ index_at index s.eng.st.navigation)
      × ((p : LatLon Real) × (t.eng.st.progress ≡ some (progress_at env plan index p)))

  record-IsMove :
      (plan : Plan Real) (index : ℕ) (p : LatLon Real) (failure : Option String) (s t : S)
      → IsSameRun s t
      → IsMove plan index s (route_record env plan index p failure t)
  unfolding route_record
  record-IsMove plan index p failure s t (a, b, c, d, e) =
      (refl, a, b, c, ap (index_at index) e, (p, refl))

  IsSameRun-trans : (s t u : S) → IsSameRun s t → IsSameRun t u → IsSameRun s u
  IsSameRun-trans s t u (a, b, c, d, e) (a', b', c', d', e') =
      (a' ∙ a, b' ∙ b, c' ∙ c, d' ∙ d, e' ∙ e)

  route_move-IsMove :
      (plan : Plan Real) (index : ℕ) (point : LatLon Real) (s : S)
      → IsMove plan index s (route_move env plan index (some point) s)
  unfolding route_move
  route_move-IsMove plan index point s =
      let jitter = s.eng.st.jitter_enabled in
      let noise = noisy env jitter point s in
      let shown = sim_set_location env noise.0 "Route simulation" noise.1 in
      record-IsMove plan index noise.0 shown.0 s shown.1 (
        IsSameRun-trans s noise.1 shown.1 (noisy-IsSameRun jitter point s)
          (inject-IsSameRun noise.0 "Route simulation" noise.1))

  get_elem?-in :
      (l : List (LatLon Real)) (i : ℕ) → i < length l → (p : LatLon Real) × (get_elem? l i ≡ some p)
  get_elem?-in [] i h = ground arith
  get_elem?-in (p ∷ l) zero h = (p, refl)
  get_elem?-in (p ∷ l) (suc i) h = get_elem?-in l i (omega (arith, h))

  tick-moves :
      (plan : Plan Real) (index : ℕ) (point : LatLon Real) (s : S)
      → s.eng.sim_paused ≡ false
      → index < length plan.points
      → get_elem? plan.points index ≡ some point
      → route_tick env plan index s ≡ route_move env plan index (some point) s
  unfolding route_tick route_advance
  tick-moves plan index point s h k e = ground arith

  tick-ends :
      (plan : Plan Real) (index : ℕ) (s : S)
      → s.eng.sim_paused ≡ false
      → plan.looping ≡ false
      → length plan.points ≤ index
      → route_tick env plan index s ≡ route_end env plan index s
  unfolding route_tick route_advance
  tick-ends plan index s h l k = ground arith

  -- A tick that is not paused, at an index that is a point's, moves the device to this point and goes
  -- on at the next index: the progress shown is the point's, and the same simulation goes on.
  route_tick-IsMove :
      (plan : Plan Real) (index : ℕ) (s : S)
      → s.eng.sim_paused ≡ false
      → index < length plan.points
      → IsMove plan index s (route_tick env plan index s)
  route_tick-IsMove plan index s h k =
      let (p, e) = get_elem?-in plan.points index k in
      rw (tick-moves plan index p s h k e) (route_move-IsMove plan index p s)

  -- What the end of a journey leaves: the goroutine has returned, the state is ready, and nothing of
  -- the journey is shown but its status, stopped at its last index.
  abbrev pub IsOver : Plan Real → S → Turn × S → Type 0
  IsOver plan s (r, t) =
      (r ≡ finished)
      × (t.eng.st.state ≡ ready)
      × (t.eng.st.progress ≡ none)
      × (t.eng.st.current_sequence_preview ≡ [])
      × (t.eng.st.navigation
          ≡ some (record {
            state = nav_stopped;
            index = length plan.points;
            total = length plan.points;
          }))
      × (t.eng.sim ≡ s.eng.sim)

  add_one : (n : ℕ) → n + 1 ≡ suc n
  add_one n = omega arith

  journey-from :
      (plan : Plan Real) (n index : ℕ) (s : S)
      → plan.looping ≡ false
      → s.eng.sim_paused ≡ false
      → n + index ≡ length plan.points
      → IsOver plan s (route_ticks env plan (suc n) (going index) s)
  unfolding route_ticks route_end route_tick
  journey-from plan zero index s l h e =
      rw (tick-ends plan index s h l (omega (arith, e))) (ground (arith, e))
  journey-from plan (suc n) index s l h e =
      let (r, sim, paused, c, nav, p) = route_tick-IsMove plan index s h (omega (arith, e)) in
      let t = (route_tick env plan index s).1 in
      let (a, b, c', d, e', f) =
        journey-from plan n (index + 1) t l (paused ∙ h) (omega (arith, e)) in
      rw r (a, b, c', d, e', f ∙ sim)

  -- A journey that does not loop and is not paused is over after one tick for each of its points and
  -- one more, whatever the device answers: then the goroutine has returned, the state is ready, and
  -- the progress and the preview are gone. The engine still holds the finished simulation as the
  -- active one.
  pub journey_ends :
      (plan : Plan Real) (s : S)
      → plan.looping ≡ false
      → s.eng.sim_paused ≡ false
      → IsOver plan s (route_ticks env plan (length plan.points + 1) (going 0) s)
  journey_ends plan s l h =
      rw (add_one (length plan.points))
        (journey-from plan (length plan.points) 0 s l h (omega arith))

  -- What an index of a journey is: one of a point, or the number of the points.
  abbrev pub IsWithin : Plan Real → Turn → Type 0
  IsWithin plan (going index) = index ≤ length plan.points
  IsWithin plan finished = Unit
  IsWithin plan crashed = ⊥

  tick-loops :
      (plan : Plan Real) (index : ℕ) (s : S)
      → length plan.points ≤ index
      → 0 < length plan.points
      → ((route_tick env plan index s).0 ≡ going index)
        ⊎ ((route_tick env plan index s).0 ≡ finished)
        ⊎ ((route_tick env plan index s).0 ≡ going 1)
  unfolding route_tick route_advance route_end
  tick-loops plan index s k h =
      let (p, e) = get_elem?-in plan.points 0 h in
      let m = (route_move-IsMove plan 0 p s).0 in ground (arith, m, e)

  tick-steps :
      (plan : Plan Real) (index : ℕ) (s : S)
      → index < length plan.points
      → ((route_tick env plan index s).0 ≡ going index)
        ⊎ ((route_tick env plan index s).0 ≡ going (index + 1))
  unfolding route_tick route_advance
  tick-steps plan index s k =
      let (p, e) = get_elem?-in plan.points index k in
      let m = (route_move-IsMove plan index p s).0 in ground (arith, m, e)

  tick-IsWithin :
      (plan : Plan Real) (index : ℕ) (s : S)
      → 0 < length plan.points
      → index ≤ length plan.points
      → IsWithin plan (route_tick env plan index s).0
  tick-IsWithin plan index s h k = elim (Bool-cases (leb (length plan.points) index)) [
    | inl past ↦ elim (tick-loops plan index s (ground (arith, past)) h) [
      | inl e ↦ subst (IsWithin plan) (sym e) k
      | inr (inl e) ↦ subst (IsWithin plan) (sym e) tt
      | inr (inr e) ↦ subst (IsWithin plan) (sym e) (omega (arith, h))
    ]
    | inr inside ↦
        let below : index < length plan.points = ground (arith, inside) in
        elim (tick-steps plan index s below) [
          | inl e ↦ subst (IsWithin plan) (sym e) k
          | inr e ↦ subst (IsWithin plan) (sym e) (omega (arith, below))
        ]
  ]

  -- No run of ticks, paused or not, looping or not, indexes a point that does not exist, if the
  -- journey has a point.
  route_ticks-IsWithin :
      (plan : Plan Real) (n : ℕ) (turn : Turn) (s : S)
      → 0 < length plan.points
      → IsWithin plan turn
      → IsWithin plan (route_ticks env plan n turn s).0
  unfolding route_ticks
  route_ticks-IsWithin plan zero turn s h k = k
  route_ticks-IsWithin plan (suc n) (going index) s h k =
      route_ticks-IsWithin plan n _ _ h (tick-IsWithin plan index s h k)
  route_ticks-IsWithin plan (suc n) finished s h k = tt
  route_ticks-IsWithin plan (suc n) crashed s h k = k
