-- ===== src/Engine/Favorites/Distinct.antt =====
-- What the commands of engine_favorites.go keep of the list of favourites.
use maps_main.Shared.{
  ℕ, zero, suc, ◌≡◌, refl, inl, inr, String, Bool, false, Option, none, some, List, [], ◌∷◌, ◌++◌,
  is_some, All, arith, Bool-cases,
}
use maps_main.Domain.{LatLon, Favorite}
use maps_main.Engine.Model.{Env, State}
use maps_main.Engine.Location.{same_place, stamp}
use maps_main.Engine.Favorites.{
  find_favorite_index, name_at, name_found, without, add_favorite, remove_favorite, rename_favorite,
  clear_history,
}

module _ (env : Env) where
  open env use {Real, World, now_ms}

  abbrev pub S : Type 0
  S = State Real World

  abbrev where_is : Favorite Real → LatLon Real
  where_is f = record { lat = f.lat; lon = f.lon }

  -- A favourite is not where another stands.
  abbrev IsApart : LatLon Real → Favorite Real → Type 0
  IsApart p f = same_place env f p ≡ false

  -- No favourite stands where an earlier one does.
  abbrev IsDistinct : List (Favorite Real) → Type 0
  IsDistinct [] = Unit {0}
  IsDistinct (f ∷ fs) = All (λ g. same_place env f (where_is g) ≡ false) fs × IsDistinct fs

  not_found-All :
      (fs : List (Favorite Real)) (p : LatLon Real)
      → is_some (find_favorite_index env fs p) ≡ false
      → All (IsApart p) fs
  unfolding find_favorite_index
  not_found-All [] p h = tt
  not_found-All (f ∷ fs) p h = (ground arith, not_found-All fs p (ground arith))

  append-All :
      (P : Favorite Real → Type 0) (fs : List (Favorite Real)) (g : Favorite Real)
      → All P fs
      → P g
      → All P (fs ++ g ∷ [])
  append-All P [] g h k = (k, tt)
  append-All P (f ∷ fs) g h k = (h.0, append-All P fs g h.1 k)

  append-IsDistinct :
      (fs : List (Favorite Real)) (p : LatLon Real) (name : String) (now : ℕ)
      → All (IsApart p) fs
      → IsDistinct fs
      → IsDistinct (fs ++ stamp env p name now ∷ [])
  append-IsDistinct [] p name now h d = (tt, tt)
  append-IsDistinct (f ∷ fs) p name now h d = (
    append-All (λ g. same_place env f (where_is g) ≡ false) fs (stamp env p name now) d.0 h.0,
    append-IsDistinct fs p name now h.1 d.1,
  )

  without-All :
      (P : Favorite Real → Type 0) (p : LatLon Real) (fs : List (Favorite Real))
      → All P fs
      → All P (without env p fs)
  unfolding without
  without-All P p [] h = tt
  without-All P p (f ∷ fs) h = elim (Bool-cases (same_place env f p)) [
    | inl same ↦ rw (same, without) (without-All P p fs h.1)
    | inr other ↦ rw (other, without) (h.0, without-All P p fs h.1)
  ]

  without-IsDistinct :
      (p : LatLon Real) (fs : List (Favorite Real)) → IsDistinct fs → IsDistinct (without env p fs)
  unfolding without
  without-IsDistinct p [] h = tt
  without-IsDistinct p (f ∷ fs) h = elim (Bool-cases (same_place env f p)) [
    | inl same ↦ rw (same, without) (without-IsDistinct p fs h.1)
    | inr other ↦
        rw (other, without)
          (
            without-All (λ g. same_place env f (where_is g) ≡ false) p fs h.0,
            without-IsDistinct p fs h.1,
          )
  ]

  name_at-All :
      (q : LatLon Real → Bool) (i : ℕ) (name : String) (fs : List (Favorite Real))
      → All (λ g. q (where_is g) ≡ false) fs
      → All (λ g. q (where_is g) ≡ false) (name_at env i name fs)
  unfolding name_at
  name_at-All q i name [] h = tt
  name_at-All q zero name (f ∷ fs) h = h
  name_at-All q (suc i) name (f ∷ fs) h = (h.0, name_at-All q i name fs h.1)

  name_at-IsDistinct :
      (i : ℕ) (name : String) (fs : List (Favorite Real))
      → IsDistinct fs
      → IsDistinct (name_at env i name fs)
  unfolding name_at
  name_at-IsDistinct i name [] h = tt
  name_at-IsDistinct zero name (f ∷ fs) h = h
  name_at-IsDistinct (suc i) name (f ∷ fs) h =
      (name_at-All (same_place env f) i name fs h.0, name_at-IsDistinct i name fs h.1)

  without-find :
      (p : LatLon Real) (fs : List (Favorite Real))
      → find_favorite_index env (without env p fs) p ≡ none
  unfolding without find_favorite_index
  without-find p [] = refl
  without-find p (f ∷ fs) = ground (arith, without-find p fs)

  -- The commands of a client about favourites.
  pub data Command : Type 0 where
    add : LatLon Real → String → Command
    remove : LatLon Real → Command
    rename : LatLon Real → String → Command
    forget : Command

  abbrev pub execute : Command → S → S
  execute (add p name) s = (add_favorite env p name s).1
  execute (remove p) s = (remove_favorite env p s).1
  execute (rename p name) s = (rename_favorite env p name s).1
  execute forget s = (clear_history env s).1

  abbrev pub execute_all : List Command → S → S
  execute_all [] s = s
  execute_all (c ∷ cs) s = execute_all cs (execute c s)

  name_found-IsDistinct :
      (o : Option ℕ) (name : String) (fs : List (Favorite Real))
      → IsDistinct fs
      → IsDistinct (name_found env o name fs)
  name_found-IsDistinct none name fs h = h
  name_found-IsDistinct (some i) name fs h = name_at-IsDistinct i name fs h

  add-IsDistinct :
      (p : LatLon Real) (name : String) (s : S)
      → IsDistinct s.eng.st.favorites
      → IsDistinct (add_favorite env p name s).1.eng.st.favorites
  unfolding add_favorite
  add-IsDistinct p name s h =
      elim (Bool-cases (is_some (find_favorite_index env s.eng.st.favorites p))) [
        | inl there ↦ rw there h
        | inr absent ↦ rw absent (
            append-IsDistinct s.eng.st.favorites p name (now_ms s.world).0
              (not_found-All s.eng.st.favorites p absent) h)
      ]

  execute-IsDistinct :
      (c : Command) (s : S)
      → IsDistinct s.eng.st.favorites
      → IsDistinct (execute c s).eng.st.favorites
  unfolding remove_favorite rename_favorite clear_history
  execute-IsDistinct (add p name) s h = add-IsDistinct p name s h
  execute-IsDistinct (remove p) s h = without-IsDistinct p s.eng.st.favorites h
  execute-IsDistinct (rename p name) s h =
      name_found-IsDistinct (find_favorite_index env s.eng.st.favorites p) name s.eng.st.favorites h
  execute-IsDistinct forget s h = h

  -- Whatever is added, removed and renamed, no favourite stands where an earlier one does, in the sense
  -- of the source's test, if none did before.
  favorites-IsDistinct :
      (cs : List Command) (s : S)
      → IsDistinct s.eng.st.favorites
      → IsDistinct (execute_all cs s).eng.st.favorites
  favorites-IsDistinct [] s h = h
  favorites-IsDistinct (c ∷ cs) s h =
      favorites-IsDistinct cs (execute c s) (execute-IsDistinct c s h)

  -- A place that is removed is in the list no more, wherever it stood and however often, so that the
  -- same place can be added again: it then stands at the end.
  add-remove_favorite :
      (p : LatLon Real) (name : String) (s : S)
      → let t = (remove_favorite env p s).1 in
        (find_favorite_index env t.eng.st.favorites p ≡ none)
        × ((add_favorite env p name t).1.eng.st.favorites
            ≡ t.eng.st.favorites ++ stamp env p name (now_ms s.world).0 ∷ [])
  unfolding remove_favorite add_favorite
  add-remove_favorite p name s =
      let gone = without-find p s.eng.st.favorites in (gone, rw gone refl)
