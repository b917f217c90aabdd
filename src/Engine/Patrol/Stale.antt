-- ===== src/Engine/Patrol/Stale.antt =====
-- The last write of a cancelled patrol in simulation.go.
use maps_main.Shared.{ℕ, ◌≡◌, true, false, some, ◌==◌, length, arith}
use maps_main.Domain.{ready, moving}
use maps_main.Engine.Model.{Env, State}
use maps_main.Engine.Geometry.{Plan}
use maps_main.Engine.Simulation.{is_cancelled, route_begin}
use maps_main.Engine.Patrol.{patrol_end}

module _ (env : Env) where
  open env use {Real, World}

  abbrev pub S : Type 0
  S = State Real World

  -- The goroutine of a cancelled patrol that ends after a new journey has begun shows the journey as
  -- ready: the state "moving" is overwritten, while the journey is active, not cancelled, and its points
  -- are on show.
  patrol_end-route_begin :
      (s : S) (i : ℕ) (plan : Plan Real)
      → s.eng.sim ≡ some i
      → is_cancelled i s.eng ≡ false
      → (length plan.points == 0) ≡ false
      → let (entered, t) = route_begin env i plan s in
        let u = (patrol_end env t).1 in
        (entered ≡ true)
        × (t.eng.st.state ≡ moving)
        × (u.eng.st.state ≡ ready)
        × (u.eng.sim ≡ some i)
        × (is_cancelled i u.eng ≡ false)
        × (u.eng.st.current_sequence_preview ≡ plan.points)
  unfolding route_begin patrol_end
  patrol_end-route_begin s i plan h c n = ground arith
