-- ===== src/Engine/Drift/Shield.antt =====
-- The anti-drift shield of engine.go, `ReportRealLocation`.
use maps_main.Shared.{
  ℕ, ◌+◌, ◌≤◌, ◌<◌, ◌≡◌, refl, ◌⊎◌, inl, inr, Bool-cases, true, false, Option, none, some, arith,
}
use maps_main.Domain.{LatLon, Favorite}
use maps_main.Engine.Model.{Env, State}
use maps_main.Engine.Location.{distance, inject_location}
use maps_main.Engine.Drift.{
  drift_cooldown, place, drift_target, force_reinjection, drifted, verified, report_target,
  report_against, report_real_location,
}

module _ (env : Env) where
  open env use {Real, World, less, decimal, now_ms}

  abbrev pub S : Type 0
  S = State Real World

  -- The report lies more than 100 m from the position.
  abbrev IsFar : Favorite Real → LatLon Real → Type 0
  IsFar t p = less (decimal 100 0) (distance env p (place env t)) ≡ true

  force_reinjection-time :
      (t : Favorite Real) (s : S)
      → (force_reinjection env t s).1.eng.last_reinjection ≡ (now_ms s.world).0
  unfolding force_reinjection inject_location
  force_reinjection-time t s = ground arith

  -- Nothing was injected: the device was asked for nothing, and the outside gave times only.
  pub record IsIdle (s t : S) : Type 0 where
    pub no_attempt : t.eng.metrics ≡ s.eng.metrics
    pub same_position : t.eng.st.last_injected_location ≡ s.eng.st.last_injected_location
    pub same_history : t.eng.st.recent_history ≡ s.eng.st.recent_history
    pub same_time : t.eng.last_reinjection ≡ s.eng.last_reinjection
    pub only_read :
        (t.world ≡ s.world)
        ⊎ (t.world ≡ (now_ms s.world).1)
        ⊎ (t.world ≡ (now_ms (now_ms s.world).1).1)

  -- The shield acted at a time that the clock gave, later than the last such time by the cooldown.
  abbrev pub Acted : S → S → Type 0
  Acted s t =
      (t.eng.last_reinjection ≡ (now_ms (now_ms (now_ms s.world).1).1).0)
      × (s.eng.last_reinjection + drift_cooldown < t.eng.last_reinjection)

  counted_up : S → S
  counted_up s = record s {
    eng = record s.eng { drift_failures = s.eng.drift_failures + 1 };
    world = (now_ms s.world).1;
  }

  located : Favorite Real → LatLon Real → S → S
  located t p s = record s {
    eng = record s.eng {
      st = record s.eng.st {
        last_real_location = some (record {
          lat = p.lat;
          lon = p.lon;
          drift = distance env p (place env t);
          timestamp = (now_ms s.world).0;
        });
      };
    };
    world = (now_ms s.world).1;
  }

  drifted-cooldown :
      (t : Favorite Real) (p : LatLon Real) (s : S)
      → (now_ms (now_ms s.world).1).0 ≤ (now_ms (now_ms (now_ms s.world).1).1).0
      → let u = (drifted env t (located t p s)).1 in IsIdle s u ⊎ Acted s u
  unfolding drifted counted_up located
  drifted-cooldown t p s mono =
      ground (arith, force_reinjection-time t (counted_up (located t p s)))

  verified-IsIdle :
      (t : Favorite Real) (p : LatLon Real) (n : ℕ) (s : S)
      → IsIdle s (verified env t n (located t p s)).1
  unfolding verified located
  verified-IsIdle t p n s = record {
    no_attempt = refl;
    same_position = refl;
    same_history = refl;
    same_time = refl;
    only_read = inr (inl refl);
  }

  report_target-cooldown :
      (o : Option (Favorite Real)) (p : LatLon Real) (s : S)
      → (now_ms (now_ms s.world).1).0 ≤ (now_ms (now_ms (now_ms s.world).1).1).0
      → let u = (report_target env o p s).1 in IsIdle s u ⊎ Acted s u
  unfolding report_against located
  report_target-cooldown none p s mono = inl (record {
    no_attempt = refl;
    same_position = refl;
    same_history = refl;
    same_time = refl;
    only_read = inl refl;
  })
  report_target-cooldown (some t) p s mono =
      elim (Bool-cases (less (decimal 100 0) (distance env p (place env t)))) [
        | inl far ↦ rw far (drifted-cooldown t p s mono)
        | inr near ↦ rw near (inl (verified-IsIdle t p (now_ms s.world).0 s))
      ]

  -- A report either injects nothing: it asks the device for nothing, and leaves the position, the
  -- counters of injections, the history and the time of the last re-injection as they were. Or it sets
  -- that time to one that the clock gives, more than fifteen seconds after the last. The clock does not
  -- run backwards.
  pub report-cooldown :
      (p : LatLon Real) (s : S)
      → ((w : World) → (now_ms w).0 ≤ (now_ms (now_ms w).1).0)
      → let t = (report_real_location env p s).1 in IsIdle s t ⊎ Acted s t
  unfolding report_real_location
  report-cooldown p s mono =
      report_target-cooldown (drift_target env s.eng.st) p s (mono (now_ms s.world).1)

  -- A report within 100 m of the held position changes no position: it clears the count of failures
  -- and verifies the held position. Nothing is injected.
  report_near :
      (p : LatLon Real) (s : S) (t : Favorite Real)
      → drift_target env s.eng.st ≡ some t
      → less (decimal 100 0) (distance env p (place env t)) ≡ false
      → let u = (report_real_location env p s).1 in
        (u.eng.drift_failures ≡ 0)
        × (u.eng.st.last_injected_location ≡ s.eng.st.last_injected_location)
        × (u.eng.last_reinjection ≡ s.eng.last_reinjection)
        × (u.eng.metrics ≡ s.eng.metrics)
  unfolding report_real_location report_against verified
  report_near p s t h near = ground arith

  -- One report far from the held position only counts: the shield wants two in a row.
  report_first_far :
      (p : LatLon Real) (s : S) (t : Favorite Real)
      → drift_target env s.eng.st ≡ some t
      → IsFar t p
      → s.eng.drift_failures ≡ 0
      → let u = (report_real_location env p s).1 in
        (u.eng.drift_failures ≡ 1)
        × (u.eng.st.last_injected_location ≡ s.eng.st.last_injected_location)
        × (u.eng.last_reinjection ≡ s.eng.last_reinjection)
        × (u.eng.metrics ≡ s.eng.metrics)
  unfolding report_real_location report_against drifted
  report_first_far p s t h far zero' = ground arith
