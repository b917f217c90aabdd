-- ===== src/Settings/Store.antt =====
-- engine/internal/settings/store.go: the settings and the secrets in SQLite. Whether a statement is
-- carried out is an argument; an error is `none`. The times of the updates are left out.
pub mod Laws
use maps_main.Shared.{
  Text, runes, text_eq, Bool, true, false, ◌&&◌, Option, none, some, List, [], ◌∷◌, ◌||◌,
  if◌then◌else◌,
}
use maps_main.Auth.Store.{is_empty}
use maps_main.Settings.Schema.{Settings, default_settings, Document, encode, decode}

pub record Secrets : Type 0 where
  pub google_routes_api_key : Text
  pub mapbox_access_token : Text

-- The database: the row of the table `settings`, and the rows of `secrets`, a key and its value.
pub record Database (Fav Place : Type 0) : Type 0 where
  pub settings : Option (Document Fav Place)
  pub secrets : List (Text × Text)

-- `Save`
unfoldable pub save :
    {Fav Place : Type 0}
    → Bool
    → Settings Fav Place
    → Database Fav Place
    → Option (Database Fav Place)
save db cfg d = if db then some (record d { settings = some (encode cfg) }) else none

-- `Load`: the settings, and whether there was no error.
abbrev read_row : {Fav Place : Type 0} → Option (Document Fav Place) → Settings Fav Place
read_row none = default_settings
read_row (some j) = decode j default_settings

unfoldable pub load : {Fav Place : Type 0} → Bool → Database Fav Place → Settings Fav Place × Bool
load db d = if db then (read_row d.settings, true) else (default_settings, false)

abbrev pub google_key : Text
google_key = runes "googleRoutesApiKey"

abbrev pub mapbox_key : Text
mapbox_key = runes "mapboxAccessToken"

abbrev pub delete_key : Text → List (Text × Text) → List (Text × Text)
delete_key k [] = []
delete_key k ((j, v) ∷ rows) =
    let rest = delete_key k rows in if text_eq j k then rest else (j, v) ∷ rest

-- `saveSecret`: the key is unique in the table.
unfoldable pub save_secret : Text → Text → List (Text × Text) → List (Text × Text)
save_secret k v rows = if is_empty v then delete_key k rows else (k, v) ∷ delete_key k rows

-- How the transaction of `SaveSecrets` goes: its two statements and its commit.
pub record Transaction : Type 0 where
  pub first : Bool
  pub second : Bool
  pub commit : Bool

-- `SaveSecrets`: whether there was no error, and the rows; without the commit they are rolled back.
unfoldable pub save_secrets : Transaction → Secrets → List (Text × Text) → Bool × List (Text × Text)
save_secrets t s rows =
    if t.first && t.second && t.commit
    then (
      true,
      save_secret mapbox_key s.mapbox_access_token
          (save_secret google_key s.google_routes_api_key rows),
    )
    else (false, rows)

-- The loop of `LoadSecrets`; the rows of other keys are not selected.
abbrev pub note_secret : Text → Text → Secrets → Secrets
note_secret k v s =
    if text_eq k google_key
    then record s { google_routes_api_key = v }
    else if text_eq k mapbox_key
    then record s { mapbox_access_token = v }
    else s

abbrev pub read_secrets : List (Text × Text) → Secrets → Secrets
read_secrets [] s = s
read_secrets ((k, v) ∷ rows) s = read_secrets rows (note_secret k v s)

unfoldable pub load_secrets : List (Text × Text) → Secrets
load_secrets rows =
    read_secrets rows (record { google_routes_api_key = []; mapbox_access_token = [] })
