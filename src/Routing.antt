-- ===== src/Routing.antt =====
-- engine/internal/routing/registry.go: the order in which the route providers are asked, and the answer
-- that is taken. What each provider answers is an argument, as is `fold`, which trims a text and puts it
-- in lower case.
pub mod Order
pub mod Polyline
use maps_main.Shared.{
  ℕ, suc, String, Bool, true, false, not, ◌&&◌, ◌||◌, Option, none, some, List, [], ◌∷◌, ◌++◌, map,
  str_eq, if◌then◌else◌,
}

pub data ProviderId : Type 0 where
  osrm google mapbox : ProviderId

abbrev pub same_id : ProviderId → ProviderId → Bool
same_id osrm osrm = true
same_id google google = true
same_id mapbox mapbox = true
same_id _ _ = false

-- `seen[id]`
abbrev pub seen_in : ProviderId → List ProviderId → Bool
seen_in id [] = false
seen_in id (j ∷ l) = same_id id j || seen_in id l

pub data Mode : Type 0 where
  manual auto : Mode

pub record Config : Type 0 where
  pub mode : Mode
  pub provider : Option ProviderId
  pub provider_priority : List String

abbrev pub default_priority : List ProviderId
default_priority = google ∷ mapbox ∷ osrm ∷ []

-- The loops that leave out what they have seen.
unfoldable pub unseen : List ProviderId → List ProviderId → List ProviderId
unseen seen [] = []
unseen seen (id ∷ ids) =
    let rest = unseen (id ∷ seen) ids in
    let rest' = unseen seen ids in if seen_in id seen then rest' else id ∷ rest

unfoldable pub missing_from : List ProviderId → List ProviderId → List ProviderId
missing_from seen [] = []
missing_from seen (id ∷ ids) =
    let rest = missing_from seen ids in if seen_in id seen then rest else id ∷ rest

module _ (fold : String → String) where
  -- `NormalizeProviderID`
  unfoldable pub normalize_provider_id : String → ProviderId
  normalize_provider_id s =
      if str_eq (fold s) "google" then google else if str_eq (fold s) "mapbox" then mapbox else osrm

  -- `NormalizePriority`
  unfoldable pub normalize_priority : List String → List ProviderId
  normalize_priority priority =
      let out = unseen [] (map normalize_provider_id priority) in
      out ++ missing_from out default_priority

  abbrev pub preferred : Mode → Option ProviderId → List ProviderId
  preferred manual (some id) = id ∷ []
  preferred _ _ = []

  -- `providerOrder`
  unfoldable pub provider_order : Config → List ProviderId
  provider_order cfg =
      unseen [] (preferred cfg.mode cfg.provider ++ normalize_priority cfg.provider_priority)

-- What a provider is: whether it is available, and the points that it answers, if it does not fail.
pub record Answers (P : Type 0) : Type 0 where
  pub available : ProviderId → Bool
  pub answer : ProviderId → Option (List P)

-- An answer without points is as good as none.
abbrev with_points : {P : Type 0} → Option (List P) → Option (List P)
with_points none = none
with_points (some []) = none
with_points (some (p ∷ ps)) = some (p ∷ ps)

abbrev pub usable : {P : Type 0} → Answers P → ProviderId → Option (List P)
usable a id = if a.available id then with_points (a.answer id) else none

abbrev taken_or :
    {P : Type 0}
    → ProviderId
    → Option (List P)
    → Option (ProviderId × List P)
    → Option (ProviderId × List P)
taken_or id none rest = rest
taken_or id (some points) rest = some (id, points)

-- The loop of `Route`.
unfoldable pub first_answer :
    {P : Type 0} → Answers P → List ProviderId → Option (ProviderId × List P)
first_answer a [] = none
first_answer a (id ∷ ids) = taken_or id (usable a id) (first_answer a ids)

-- `Route`
unfoldable pub route :
    {P : Type 0} → (String → String) → Config → Answers P → Option (ProviderId × List P)
route fold cfg a = first_answer a (provider_order fold cfg)
