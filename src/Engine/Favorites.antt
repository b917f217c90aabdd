-- ===== src/Engine/Favorites.antt =====
-- engine/internal/engine/engine_favorites.go: the list of favourites, and the clearing of the history.
pub mod Distinct
use maps_main.Shared.{
  ℕ, zero, suc, ◌+◌, String, Bool, true, false, Option, none, some, List, [], ◌∷◌, ◌++◌,
  if◌then◌else◌, is_some, pure, ◌>>=◌, ◌>>◌,
}
use maps_main.Domain.{LatLon, Favorite, Status}
use maps_main.Engine.Model.{
  Env, Engine, State, Em, get, modify_st, emit_status, log_event, outside, persist,
}
use maps_main.Engine.Location.{same_place, stamp}

abbrev one_more : Option ℕ → Option ℕ
one_more none = none
one_more (some i) = some (suc i)

module _ (env : Env) where
  open env use {Real, World, now_ms}

  -- `findFavoriteIndex`: none is its -1.
  unfoldable pub find_favorite_index : List (Favorite Real) → LatLon Real → Option ℕ
  find_favorite_index [] p = none
  find_favorite_index (f ∷ fs) p =
      if same_place env f p then some 0 else one_more (find_favorite_index fs p)

  -- `favs[idx].Name = newName`
  unfoldable pub name_at : ℕ → String → List (Favorite Real) → List (Favorite Real)
  name_at i name [] = []
  name_at zero name (f ∷ fs) = record f { name = name } ∷ fs
  name_at (suc i) name (f ∷ fs) = f ∷ name_at i name fs

  abbrev pub name_found : Option ℕ → String → List (Favorite Real) → List (Favorite Real)
  name_found none name fs = fs
  name_found (some i) name fs = name_at i name fs

  -- The loop of `RemoveFavorite`.
  unfoldable pub without : LatLon Real → List (Favorite Real) → List (Favorite Real)
  without p [] = []
  without p (f ∷ fs) = if same_place env f p then without p fs else f ∷ without p fs

  -- `AddFavorite`
  unfoldable pub add_favorite : LatLon Real → String → Em env (Unit {0})
  add_favorite p name = do
    e ← get env
    if is_some (find_favorite_index e.st.favorites p) then pure tt else (do
      now ← outside env now_ms
      modify_st env (λ st. record st { favorites = st.favorites ++ stamp env p name now ∷ [] })
      emit_status env
      persist env
      log_event env "info" "admin" "favorites" "add")

  -- `RemoveFavorite`
  unfoldable pub remove_favorite : LatLon Real → Em env (Unit {0})
  remove_favorite p = do
    modify_st env (λ st. record st { favorites = without p st.favorites })
    emit_status env
    persist env
    log_event env "info" "admin" "favorites" "remove"

  -- `RenameFavorite`
  unfoldable pub rename_favorite : LatLon Real → String → Em env (Unit {0})
  rename_favorite p name = do
    modify_st env (λ st. record st {
      favorites = name_found (find_favorite_index st.favorites p) name st.favorites;
    })
    emit_status env
    persist env
    log_event env "info" "admin" "favorites" "rename"

  -- `ClearHistory`
  unfoldable pub clear_history : Em env (Unit {0})
  clear_history = do
    modify_st env (λ st. record st { recent_history = [] })
    emit_status env
    persist env
    log_event env "info" "admin" "history" "clear"
