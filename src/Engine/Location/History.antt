-- ===== src/Engine/Location/History.antt =====
-- The recent history that `pushHistory` of engine.go keeps.
use maps_main.Shared.{
  ℕ, zero, suc, ◌≤◌, ◌≡◌, refl, String, true, false, List, [], ◌∷◌, take, length, length-take-le,
  arith, Bool-cases, inl, inr, ◌⊎◌,
}
use maps_main.Domain.{LatLon, Favorite}
use maps_main.Engine.Model.{Env}
use maps_main.Engine.Location.{same_place, stamp, max_history_entries, push_history}

module _ (env : Env) where
  open env use {Real}

  -- No entry repeats the place of the next older one.
  abbrev NoRepeats : List (Favorite Real) → Type 0
  NoRepeats [] = Unit {0}
  NoRepeats (a ∷ []) = Unit {0}
  NoRepeats (a ∷ b ∷ l) =
      (same_place env b (record { lat = a.lat; lon = a.lon }) ≡ false) × NoRepeats (b ∷ l)

  NoRepeats-take : (n : ℕ) (l : List (Favorite Real)) → NoRepeats l → NoRepeats (take n l)
  NoRepeats-take zero l h = tt
  NoRepeats-take (suc n) [] h = tt
  NoRepeats-take (suc zero) (a ∷ l) h = tt
  NoRepeats-take (suc (suc n)) (a ∷ []) h = tt
  NoRepeats-take (suc (suc n)) (a ∷ b ∷ l) h = (h.0, NoRepeats-take (suc n) (b ∷ l) h.1)

  pub record IsHistory (l : List (Favorite Real)) : Type 0 where
    pub short : length l ≤ max_history_entries
    pub no_repeats : NoRepeats l

  -- A history of at most twenty entries, with never two in a row at one place, stays one, whatever is
  -- pushed.
  pub push_history-IsHistory :
      (p : LatLon Real) (name : String) (now : ℕ) (l : List (Favorite Real))
      → IsHistory l
      → IsHistory (push_history env p name now l)
  unfolding push_history
  push_history-IsHistory p name now [] h = record { short = omega arith; no_repeats = tt }
  push_history-IsHistory p name now (last ∷ rest) h = elim (Bool-cases (same_place env last p)) [
    | inl same ↦ rw same h
    | inr new ↦ rw new (record {
      short = length-take-le max_history_entries (stamp env p name now ∷ last ∷ rest);
      no_repeats =
          NoRepeats-take max_history_entries (stamp env p name now ∷ last ∷ rest)
            (new, h.no_repeats);
    })
  ]

  -- The newest entry is the place pushed, in the sense of the source's test, or it already was.
  push_history-head :
      (p : LatLon Real) (name : String) (now : ℕ) (l : List (Favorite Real))
      → (f : Favorite Real) × (rest : List (Favorite Real)) × (push_history env p name now l
          ≡ f ∷ rest)
        × ((f ≡ stamp env p name now) ⊎ (same_place env f p ≡ true))
  unfolding push_history
  push_history-head p name now [] = (stamp env p name now, [], refl, inl refl)
  push_history-head p name now (last ∷ rest) = elim (Bool-cases (same_place env last p)) [
    | inl same ↦ (last, rest, rw same refl, inr same)
    | inr new ↦ (stamp env p name now, take 19 (last ∷ rest), rw new refl, inl refl)
  ]
