-- ===== src/Engine/Drift/Anchor.antt =====
-- The keep-alive of engine.go, `Relance`, never moves the position that it keeps alive.
use maps_main.Shared.{
  ℕ, zero, suc, ◌≡◌, refl, ◌∙◌, String, Bool, true, false, Option, none, some, arith,
}
use maps_main.Domain.{LatLon, Favorite}
use maps_main.Engine.Model.{Env, State}
use maps_main.Engine.Location.{inject_location, driver_set_location}
use maps_main.Engine.Drift.{place, relance_from, relance_held, reinject_anchor, relance}

module _ (env : Env) where
  open env use {Real, World}

  abbrev pub S : Type 0
  S = State Real World

  -- The place and name that are held, without the time.
  abbrev pub held : Option (Favorite Real) → Option (LatLon Real × String)
  held none = none
  held (some f) = some (place env f, f.name)

  abbrev pub held_place : S → Option (LatLon Real × String)
  held_place s = held s.eng.st.last_injected_location

  relance_from-held :
      (jitter : Bool) (loc : Favorite Real) (s : S)
      → s.eng.st.last_injected_location ≡ some loc
      → held_place (relance_from env jitter loc s).1 ≡ some (place env loc, loc.name)
  unfolding relance_from inject_location reinject_anchor driver_set_location
  relance_from-held false loc s h = ground arith
  relance_from-held true loc s h = ground arith

  relance_held-held :
      (jitter : Bool) (o : Option (Favorite Real)) (s : S)
      → s.eng.st.last_injected_location ≡ o
      → held_place (relance_held env jitter o s).1 ≡ held o
  relance_held-held jitter none s h = rw h
  relance_held-held jitter (some loc) s h = relance_from-held jitter loc s h

  relance-held : (s : S) → held_place (relance env s).1 ≡ held_place s
  unfolding relance
  relance-held s = relance_held-held s.eng.st.jitter_enabled s.eng.st.last_injected_location s refl

  unfoldable pub relance_times : ℕ → S → S
  relance_times zero s = s
  relance_times (suc n) s = relance_times n (relance env s).1

  -- However often the held position is sent again, with or without jitter, and whether or not the
  -- device takes it, the held place and name stay the same.
  pub relance_times-held : (n : ℕ) (s : S) → held_place (relance_times n s) ≡ held_place s
  unfolding relance_times
  relance_times-held zero s = refl
  relance_times-held (suc n) s = relance_times-held n (relance env s).1 ∙ relance-held s
