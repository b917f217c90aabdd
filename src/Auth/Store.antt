-- ===== src/Auth/Store.antt =====
-- engine/internal/auth/store.go: the tables of the pairing seed and of the paired devices. What the
-- source draws at random (an id, a secret, a seed) and the clock are arguments, and so is whether
-- SQLite carries a statement out (`db`). SHA-256 is a parameter.
pub mod Access
pub mod Spec
use maps_main.Shared.{
  ℕ, ◌+◌, Text, text_eq, cut, trim_space, Bool, true, false, not, Option, none, some, List, [], ◌∷◌,
  ◌++◌, ltb, ◌&&◌, if◌then◌else◌,
}

-- A row of paired_devices.
pub record Row : Type 0 where
  pub id : Text
  pub token_hash : Text
  pub label : Text
  pub created_at : ℕ
  pub last_seen : ℕ

pub record Store : Type 0 where
  pub seed : Option Text
  pub devices : List Row

-- What the management interface is shown of a row: never the hash.
pub record Device : Type 0 where
  pub id : Text
  pub label : Text
  pub created_at : ℕ
  pub last_seen : ℕ

abbrev pub device_of : Row → Device
device_of r = record {
  id = r.id;
  label = r.label;
  created_at = r.created_at;
  last_seen = r.last_seen;
}

abbrev pub dot : ℕ
dot = 46

abbrev pub token_of : Text → Text → Text
token_of id secret = id ++ dot ∷ secret

-- `SELECT … WHERE id = ?`
abbrev pub find_row : Text → List Row → Option Row
find_row i [] = none
find_row i (r ∷ rows) = let rest = find_row i rows in if text_eq i r.id then some r else rest

-- `DELETE … WHERE id = ?`
abbrev pub delete_rows : Text → List Row → List Row
delete_rows i [] = []
delete_rows i (r ∷ rows) =
    let rest = delete_rows i rows in if text_eq i r.id then rest else r ∷ rest

-- `UPDATE … SET last_seen = ? WHERE id = ?`
abbrev pub touch_rows : Text → ℕ → List Row → List Row
touch_rows i now [] = []
touch_rows i now (r ∷ rows) =
    (if text_eq i r.id then record r { last_seen = now } else r) ∷ touch_rows i now rows

abbrev pub is_empty : Text → Bool
is_empty [] = true
is_empty (c ∷ cs) = false

-- `ensureSeed`: the seed that is stored, or the one that `raw` gives, stored.
unfoldable pub ensure_seed : Bool → Text → Store → Option Text × Store
ensure_seed db raw s = elim (s.seed) [
  | some seed ↦ if db then (some seed, s) else (none, s)
  | none ↦ if db then (some raw, record s { seed = some raw }) else (none, s)
]

-- `RegenerateSeed`: whether it succeeded.
unfoldable pub regenerate_seed : Bool → Text → Store → Bool × Store
regenerate_seed db raw s = (db, record s { seed = if db then some raw else s.seed })

-- The order of `ORDER BY created_at DESC`.
abbrev insert_newest : Row → List Row → List Row
insert_newest r [] = r ∷ []
insert_newest r (q ∷ rows) =
    let rest = insert_newest r rows in
    if ltb r.created_at q.created_at then q ∷ rest else r ∷ q ∷ rows

abbrev newest_first : List Row → List Row
newest_first [] = []
newest_first (r ∷ rows) = insert_newest r (newest_first rows)

abbrev devices_of : List Row → List Device
devices_of [] = []
devices_of (r ∷ rows) = device_of r ∷ devices_of rows

-- `ListDevices`
unfoldable pub list_devices : Bool → Store → Option (List Device)
list_devices db s = if db then some (devices_of (newest_first s.devices)) else none

-- What `Revoke` returns.
pub data Revoked : Type 0 where
  revoked : Revoked
  unknown_device : Revoked
  failed : Revoked

-- `Revoke`
unfoldable pub revoke : Bool → Text → Store → Revoked × Store
revoke db i s = if not db then (failed, s) else elim (find_row i s.devices) [
  | none ↦ (unknown_device, s)
  | some r ↦ (revoked, record s { devices = delete_rows i s.devices })
]

abbrev pub id_part : Option (Text × Text) → Text
id_part none = []
id_part (some (i, secret)) = i

module _ (hash_secret : Text → Text) where
  abbrev pub new_row : Text → Text → Text → ℕ → Row
  new_row i secret label now = record {
    id = i;
    token_hash = hash_secret secret;
    label = trim_space label;
    created_at = now;
    last_seen = now;
  }

  -- `Pair`: the token and the device, or nothing. The id is the primary key.
  unfoldable pub pair : Bool → Text → Text → Text → ℕ → Store → Option (Text × Device) × Store
  pair db i secret label now s = elim (find_row i s.devices) [
    | some r ↦ (none, s)
    | none ↦
        if db
        then (
          some (token_of i secret, device_of (new_row i secret label now)),
          record s { devices = new_row i secret label now ∷ s.devices },
        )
        else (none, s)
  ]

  -- Whether the row that is found has the hash of the secret.
  abbrev pub secret_matches : Text → Option Row → Bool
  secret_matches secret none = false
  secret_matches secret (some r) = text_eq r.token_hash (hash_secret secret)

  abbrev pub credential_matches : Option (Text × Text) → List Row → Bool
  credential_matches none rows = false
  credential_matches (some (i, secret)) rows =
      not (is_empty i) && not (is_empty secret) && secret_matches secret (find_row i rows)

  -- `VerifyToken`: `read` and `wrote` say whether SQLite carries the SELECT and the UPDATE out.
  unfoldable pub verify_token : Bool → Bool → Text → ℕ → Store → Bool × Store
  verify_token read wrote token now s =
      let parts = cut dot token in
      let ok = read && credential_matches parts s.devices in
      (
        ok,
        record s {
          devices = if ok && wrote then touch_rows (id_part parts) now s.devices else s.devices;
        },
      )
