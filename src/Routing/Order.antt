-- ===== src/Routing/Order.antt =====
-- The order and the choice of route providers in registry.go.
use maps_main.Shared.{
  ℕ, suc, ◌+◌, ◌≤◌, ◌≡◌, refl, ◌⊎◌, inl, inr, String, true, false, none, some, List, [], ◌∷◌, ◌++◌,
  map, if◌then◌else◌, Bool-cases, Option-cases, arith,
}
use maps_main.Routing.{
  ProviderId, osrm, google, mapbox, same_id, seen_in, Config, default_priority, unseen,
  missing_from, normalize_provider_id, normalize_priority, preferred, provider_order, Answers,
  usable, first_answer, route,
}

-- How often a provider stands in a list.
abbrev pub count : ProviderId → List ProviderId → ℕ
count id [] = 0
count id (j ∷ l) = if same_id id j then suc (count id l) else count id l

count-append :
    (id : ProviderId) (l m : List ProviderId) → count id (l ++ m) ≡ count id l + count id m
count-append id [] m = omega arith
count-append id (j ∷ l) m = ground (arith, count-append id l m)

count-seen_in :
    (id : ProviderId) (l : List ProviderId)
    → ((seen_in id l ≡ false) × (count id l ≡ 0)) ⊎ ((seen_in id l ≡ true) × (1 ≤ count id l))
count-seen_in id [] = inl (refl, refl)
count-seen_in id (j ∷ l) = ground (arith, count-seen_in id l)

same_id-eq : (i j : ProviderId) → same_id i j ≡ true → i ≡ j
same_id-eq osrm osrm h = refl
same_id-eq google google h = refl
same_id-eq mapbox mapbox h = refl
same_id-eq osrm google h = ground arith
same_id-eq osrm mapbox h = ground arith
same_id-eq google osrm h = ground arith
same_id-eq google mapbox h = ground arith
same_id-eq mapbox osrm h = ground arith
same_id-eq mapbox google h = ground arith

count-unseen :
    (id : ProviderId) (seen l : List ProviderId)
    → count id (unseen seen l) ≡ (if seen_in id seen then 0 else (if seen_in id l then 1 else 0))
unfolding unseen
count-unseen id seen [] = ground arith
count-unseen id seen (j ∷ l) =
    let a = count-unseen id (j ∷ seen) l in
    let b = count-unseen id seen l in
    elim (Bool-cases (same_id id j)) [
      | inl same ↦ let e = same_id-eq id j same in ground (arith, a, b, e, same)
      | inr other ↦ ground (arith, a, b, other)
    ]

count-missing_from :
    (id : ProviderId) (seen l : List ProviderId)
    → count id (missing_from seen l) ≡ (if seen_in id seen then 0 else count id l)
unfolding missing_from
count-missing_from id seen [] = ground arith
count-missing_from id seen (j ∷ l) =
    let b = count-missing_from id seen l in
    elim (Bool-cases (same_id id j)) [
      | inl same ↦ let e = same_id-eq id j same in ground (arith, b, e, same)
      | inr other ↦ ground (arith, b, other)
    ]

count-default_priority : (id : ProviderId) → count id default_priority ≡ 1
count-default_priority osrm = refl
count-default_priority google = refl
count-default_priority mapbox = refl

count-normalize_priority :
    (fold : String → String) (priority : List String) (id : ProviderId)
    → count id (normalize_priority fold priority) ≡ 1
unfolding normalize_priority
count-normalize_priority fold priority id =
    let l = map (normalize_provider_id fold) priority in
    let out = unseen [] l in
    let total = count-append id out (missing_from out default_priority) in
    let chosen = count-unseen id [] l in
    let rest = count-missing_from id out default_priority in
    let one = count-default_priority id in
    let there = count-seen_in id out in ground (arith, total, chosen, rest, one, there)

-- Whatever priority the settings hold, the order in which the providers are asked has each of the three
-- exactly once.
count-provider_order :
    (fold : String → String) (cfg : Config) (id : ProviderId)
    → count id (provider_order fold cfg) ≡ 1
unfolding provider_order
count-provider_order fold cfg id =
    let first = preferred fold cfg.mode cfg.provider in
    let rest = normalize_priority fold cfg.provider_priority in
    let total = count-append id first rest in
    let one = count-normalize_priority fold cfg.provider_priority id in
    let there = count-seen_in id (first ++ rest) in
    let chosen = count-unseen id [] (first ++ rest) in ground (arith, total, one, there, chosen)

first_answer_cases :
    {P : Type 0} (a : Answers P) (l : List ProviderId)
    → ((first_answer a l ≡ none) × ((id : ProviderId) → 1 ≤ count id l → usable a id ≡ none))
      ⊎ ((id : ProviderId) × (points : List P) × (first_answer a l ≡ some (id, points))
          × (usable a id ≡ some points))
unfolding first_answer
first_answer_cases a [] = inl (refl, λ id h. ground (arith, h))
first_answer_cases a (j ∷ l) = elim (Option-cases (usable a j)) [
  | inr (points, e) ↦ inr (j, points, rw e refl, e)
  | inl e ↦ elim (first_answer_cases a l) [
    | inr (id, points, h, k) ↦ inr (id, points, rw e h, k)
    | inl (h, none_of) ↦ inl (
      rw e h,
      λ id c. elim (Bool-cases (same_id id j)) [
        | inl same ↦ rw (same_id-eq id j same) e
        | inr other ↦ none_of id (rw other at c)
      ],
    )
  ]
]

-- A route request fails only if no provider that is available answers with points, and otherwise its
-- points are those of an available provider, and there is at least one.
route_lem :
    {P : Type 0} (fold : String → String) (cfg : Config) (a : Answers P)
    → ((route fold cfg a ≡ none) × ((id : ProviderId) → usable a id ≡ none))
      ⊎ ((id : ProviderId) × (points : List P) × (route fold cfg a ≡ some (id, points))
          × (usable a id ≡ some points))
unfolding route
route_lem fold cfg a = elim (first_answer_cases a (provider_order fold cfg)) [
  | inr found ↦ inr found
  | inl (h, none_of) ↦ inl (h, λ id. none_of id (omega (arith, count-provider_order fold cfg id)))
]
