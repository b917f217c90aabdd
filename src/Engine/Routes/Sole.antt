-- ===== src/Engine/Routes/Sole.antt =====
-- Which simulations' contexts are cancelled by the commands of engine_routes.go.
use maps_main.Shared.{
  ℕ, ◌+◌, ◌≤◌, ◌<◌, ◌≡◌, ◌≢◌, ltb, refl, ap, sym, ◌∙◌, ◌⊎◌, inl, inr, String, Bool, true, false,
  Option, none, some, List, [], ◌∷◌, arith, Bool-cases,
}
use maps_main.Domain.{
  LatLon, PatrolZone, RouteLeg, LegType, leg_start, leg_drive, leg_walk, leg_flight, leg_wait,
}
use maps_main.Engine.Model.{Env, Except, ok, err, Engine, State, log_event, emit_status, modify_st}
use maps_main.Engine.Tunnel.{cancel, stop_active_simulation}
use maps_main.Engine.Simulation.{member, is_cancelled}
use maps_main.Engine.Routes.{
  stop_route, pause_route, resume_route, launch, routed, play_route, legs_points, leg_points_of,
  leg_route, start_sequence, play_sequence, start_gpx, play_custom_gpx, start_patrol, patrol_update,
}

-- Of the numbers given so far, all are cancelled but the one that the engine holds, and no other number
-- is cancelled or held.
abbrev pub IsSole : {R : Type 0} → Engine R → Type 0
IsSole e =
    (i : ℕ)
    → ((i < e.next_sim) × ((is_cancelled i e ≡ true) ⊎ (e.sim ≡ some i)))
      ⊎ ((e.next_sim ≤ i) × (is_cancelled i e ≡ false) × (e.sim ≢ some i))

-- The same in three parts.
abbrev IsSoleParts : {R : Type 0} → Engine R → Type 0
IsSoleParts e =
    ((i : ℕ) → i < e.next_sim → (is_cancelled i e ≡ true) ⊎ (e.sim ≡ some i))
    × ((i : ℕ) → e.next_sim ≤ i → is_cancelled i e ≡ false)
    × ((i : ℕ) → e.sim ≡ some i → i < e.next_sim)

-- The three fields that it is about.
abbrev IsSameIds : {R : Type 0} → Engine R → Engine R → Type 0
IsSameIds d e = (e.sim ≡ d.sim) × (e.cancelled ≡ d.cancelled) × (e.next_sim ≡ d.next_sim)

to_parts : {R : Type 0} (e : Engine R) → IsSole e → IsSoleParts e
to_parts e h = (
  (λ i l. let c = h i in ground (arith, c, l)),
  (λ i l. let c = h i in ground (arith, c, l)),
  (λ i l. let c = h i in ground (arith, c, l)),
)

of_parts : {R : Type 0} (e : Engine R) → IsSoleParts e → IsSole e
of_parts e (f, g, h) i = elim (Bool-cases (ltb i e.next_sim)) [
  | inl less ↦ let l : i < e.next_sim = ground arith in inl (l, f i l)
  | inr not_less ↦
      let l : e.next_sim ≤ i = ground arith in
      inr (l, g i l, λ q. let b = h i q in omega (arith, b, l))
]

IsSameIds-IsSole : {R : Type 0} (d e : Engine R) → IsSameIds d e → IsSoleParts d → IsSoleParts e
IsSameIds-IsSole d e (a, b, c) (f, g, h) = (
  (λ i l. rw (a, b) (f i (rw⁻¹ c l))),
  (λ i l. rw b (g i (rw⁻¹ c l))),
  (λ i l. rw c (h i (sym a ∙ l))),
)

member-cancel-eq : (i : ℕ) (o : Option ℕ) (l : List ℕ) → o ≡ some i → member i (cancel o l) ≡ true
member-cancel-eq i none l h = ground arith
member-cancel-eq i (some j) l h = ground arith

member-cancel :
    (i : ℕ) (o : Option ℕ) (l : List ℕ) → member i l ≡ true → member i (cancel o l) ≡ true
member-cancel i none l h = h
member-cancel i (some j) l h = ground arith

member-cancel-no :
    (i n : ℕ) (o : Option ℕ) (l : List ℕ)
    → ((j : ℕ) → o ≡ some j → j < n)
    → n ≤ i
    → member i l ≡ false
    → member i (cancel o l) ≡ false
member-cancel-no i n none l h k m = m
member-cancel-no i n (some j) l h k m = let b = h j refl in ground (arith, b)

lt_cases : (i n : ℕ) → i < n + 1 → (i < n) ⊎ (i ≡ n)
lt_cases i n h = ground (arith, h)

module _ (env : Env) where
  open env use {Real, World}

  abbrev pub S : Type 0
  S = State Real World

  stop-IsSole : (s : S) → IsSoleParts s.eng → IsSoleParts (stop_active_simulation env s).1.eng
  stop-IsSole s (f, g, h) = (
    (λ i l. elim (f i l) [
      | inl a ↦ inl (member-cancel i s.eng.sim s.eng.cancelled a)
      | inr a ↦ inl (member-cancel-eq i s.eng.sim s.eng.cancelled a)
    ]),
    (λ i l. member-cancel-no i s.eng.next_sim s.eng.sim s.eng.cancelled h l (g i l)),
    (λ i l. ground (arith, l)),
  )

  -- The start of a goroutine, where the engine holds none.
  launch-IsSole : (s : S) → s.eng.sim ≡ none → IsSoleParts s.eng → IsSoleParts (launch env s).1.eng
  unfolding launch
  launch-IsSole s n (f, g, h) = (
    (λ i l. elim (lt_cases i s.eng.next_sim l) [
      | inl less ↦ let c = f i less in ground (arith, c, n)
      | inr eq ↦ inr (ap some (sym eq))
    ]),
    (λ i l. g i (omega (arith, l))),
    (λ i l. ground (arith, l)),
  )

  stopped-IsSole :
      (s t : S)
      → IsSoleParts s.eng
      → IsSameIds (stop_active_simulation env s).1.eng t.eng
      → IsSoleParts t.eng
  stopped-IsSole s t h k =
      IsSameIds-IsSole (stop_active_simulation env s).1.eng t.eng k (stop-IsSole s h)

  play-IsSole :
      (s t : S)
      → IsSoleParts s.eng
      → IsSameIds (stop_active_simulation env s).1.eng t.eng
      → IsSoleParts (launch env t).1.eng
  play-IsSole s t h (a, b, c) = launch-IsSole t a (stopped-IsSole s t h (a, b, c))

  -- A route request leaves the engine as it is.
  routed-eng :
      (action : String) (from to : LatLon Real) (answer : Except (List (LatLon Real))) (s : S)
      → (routed env action from to answer s).1.eng ≡ s.eng
  unfolding routed
  routed-eng action from to (ok points) s = refl
  routed-eng action from to (err e) s = refl

  leg_route-eng :
      (profile : String) (leg : RouteLeg Real) (s : S) → (leg_route env profile leg s).1.eng ≡ s.eng
  unfolding leg_route
  leg_route-eng profile leg s = routed-eng "sequence" leg.start leg.end _ _

  leg_points_of-eng :
      (type : LegType) (leg : RouteLeg Real) (s : S) → (leg_points_of env type leg s).1.eng ≡ s.eng
  unfolding leg_points_of
  leg_points_of-eng leg_drive leg s = leg_route-eng "driving" leg s
  leg_points_of-eng leg_walk leg s = leg_route-eng "walking" leg s
  leg_points_of-eng leg_flight leg s = refl
  leg_points_of-eng leg_start leg s = refl
  leg_points_of-eng leg_wait leg s = refl

  legs_points-eng : (legs : List (RouteLeg Real)) (s : S) → (legs_points env legs s).1.eng ≡ s.eng
  unfolding legs_points
  legs_points-eng [] s = refl
  legs_points-eng (leg ∷ legs) s =
      legs_points-eng legs (leg_points_of env leg.type leg s).1 ∙ leg_points_of-eng leg.type leg s

  same-ids : (d e : Engine Real) → e ≡ d → IsSameIds d e
  same-ids d e h = (ap (λ x. x.sim) h, ap (λ x. x.cancelled) h, ap (λ x. x.next_sim) h)

  play_route-IsSole :
      (to : LatLon Real) (speed : Real) (profile : String) (s : S)
      → IsSoleParts s.eng
      → IsSoleParts (play_route env to speed profile s).1.eng
  unfolding play_route
  play_route-IsSole to speed profile s h =
      play-IsSole s _ h (same-ids _ _ (routed-eng "route" _ to _ _))

  start_sequence-IsSole :
      (points : List (LatLon Real)) (looping : Bool) (s t : S)
      → IsSoleParts s.eng
      → IsSameIds (stop_active_simulation env s).1.eng t.eng
      → IsSoleParts (start_sequence env points looping t).1.eng
  unfolding start_sequence launch
  start_sequence-IsSole [] looping s t h k = stopped-IsSole s t h k
  start_sequence-IsSole (p ∷ points) looping s t h k = play-IsSole s t h k

  start_gpx-IsSole :
      (points : List (LatLon Real)) (content : String) (speed : Real) (s t : S)
      → IsSoleParts s.eng
      → IsSameIds (stop_active_simulation env s).1.eng t.eng
      → IsSoleParts (start_gpx env points content speed t).1.eng
  unfolding start_gpx launch
  start_gpx-IsSole [] content speed s t h k = stopped-IsSole s t h k
  start_gpx-IsSole (p ∷ points) content speed s t h k = play-IsSole s t h k

  start_patrol-IsSole :
      (active : Bool) (s t : S)
      → IsSoleParts s.eng
      → IsSameIds (stop_active_simulation env s).1.eng t.eng
      → IsSoleParts (start_patrol env active t).1.eng
  unfolding start_patrol launch
  start_patrol-IsSole true s t h k = play-IsSole s t h k
  start_patrol-IsSole false s t h k = stopped-IsSole s t h k

  -- The commands of a client about a simulation.
  pub data Command : Type 0 where
    stop pause resume : Command
    play : LatLon Real → Real → String → Command
    sequence : List (RouteLeg Real) → Bool → Command
    gpx : String → Real → Command
    patrol : PatrolZone Real → Command

  abbrev pub execute : Command → S → S
  execute stop s = (stop_route env s).1
  execute pause s = (pause_route env s).1
  execute resume s = (resume_route env s).1
  execute (play to speed profile) s = (play_route env to speed profile s).1
  execute (sequence legs looping) s = (play_sequence env legs looping s).1
  execute (gpx content speed) s = (play_custom_gpx env content speed s).1
  execute (patrol zone) s = (patrol_update env zone s).1

  abbrev pub execute_all : List Command → S → S
  execute_all [] s = s
  execute_all (c ∷ cs) s = execute_all cs (execute c s)

  pause-ids : (s : S) → IsSameIds s.eng (pause_route env s).1.eng
  unfolding pause_route
  pause-ids s = ground arith

  resume-ids : (s : S) → IsSameIds s.eng (resume_route env s).1.eng
  unfolding resume_route
  resume-ids s = ground arith

  same : (e : Engine Real) → IsSameIds e e
  same e = (refl, refl, refl)

  -- The state in which a sequence's or a GPX's points are made, and that in which a patrol starts.
  abbrev announced : String → S → Unit {0} × S
  announced category s =
      log_event env "info" "simulation" category "play" (stop_active_simulation env s).1

  abbrev zoned : PatrolZone Real → S → Unit {0} × S
  zoned zone s =
      emit_status env
        (modify_st env (λ st. record st { patrol_zone = some zone })
          (stop_active_simulation env s).1).1

  execute-IsSole : (c : Command) (s : S) → IsSoleParts s.eng → IsSoleParts (execute c s).eng
  unfolding stop_route play_sequence play_custom_gpx patrol_update
  execute-IsSole stop s h =
      stopped-IsSole s (stop_route env s).1 h (same (stop_active_simulation env s).1.eng)
  execute-IsSole pause s h = IsSameIds-IsSole s.eng (pause_route env s).1.eng (pause-ids s) h
  execute-IsSole resume s h = IsSameIds-IsSole s.eng (resume_route env s).1.eng (resume-ids s) h
  execute-IsSole (play to speed profile) s h = play_route-IsSole to speed profile s h
  execute-IsSole (sequence legs looping) s h =
      let t = (announced "sequence" s).1 in
      let (points, u) = legs_points env legs t in
      start_sequence-IsSole points looping s u h (same-ids t.eng u.eng (legs_points-eng legs t))
  execute-IsSole (gpx content speed) s h =
      let t = (announced "gpx" s).1 in
      start_gpx-IsSole (env.parse_gpx content) content speed s t h (same t.eng)
  execute-IsSole (patrol zone) s h =
      let t = (zoned zone s).1 in
      start_patrol-IsSole zone.active s t h (same (stop_active_simulation env s).1.eng)

  -- Whatever commands clients send one after another, all the simulations started so far are cancelled
  -- but the one that the engine holds, if any, and no number that is yet to be given is cancelled or
  -- held, if this was so before the first command.
  pub execute_all-IsSole :
      (cs : List Command) (s : S) → IsSole s.eng → IsSole (execute_all cs s).eng
  execute_all-IsSole [] s h = h
  execute_all-IsSole (c ∷ cs) s h =
      execute_all-IsSole cs (execute c s)
        (of_parts (execute c s).eng (execute-IsSole c s (to_parts s.eng h)))
