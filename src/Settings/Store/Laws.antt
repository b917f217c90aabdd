-- ===== src/Settings/Store/Laws.antt =====
-- What store.go of the settings gives back.
use maps_main.Shared.{
  ℕ, ◌≡◌, refl, ap, ◌∙◌, Text, text_eq, Bool, true, false, Option, none, some, List, [], ◌∷◌, arith,
  Bool-cases, ◌⊎◌, inl, inr, ◌&&◌, is_some, if◌then◌else◌,
}
use maps_main.Settings.Schema.{
  Settings, default_settings, unless_empty, unless_zero, or_else, encode, decode,
}
use maps_main.Settings.Store.{
  Secrets, Database, save, load, google_key, mapbox_key, delete_key, save_secret, Transaction,
  save_secrets, note_secret, read_secrets, load_secrets,
}

-- The settings with their default in each field that is empty and that has one.
abbrev pub filled : {Fav Place : Type 0} → Settings Fav Place → Settings Fav Place
filled {Fav} {Place} s =
    let d : Settings Fav Place = default_settings in
    record s {
      cluster_heartbeat_seconds =
          or_else (unless_zero s.cluster_heartbeat_seconds) d.cluster_heartbeat_seconds;
      cluster_master_dead_seconds =
          or_else (unless_zero s.cluster_master_dead_seconds) d.cluster_master_dead_seconds;
      cluster_peer_timeout_seconds =
          or_else (unless_zero s.cluster_peer_timeout_seconds) d.cluster_peer_timeout_seconds;
      routing_mode = or_else (unless_empty s.routing_mode) d.routing_mode;
      routing_provider = or_else (unless_empty s.routing_provider) d.routing_provider;
      routing_provider_priority =
          or_else (unless_empty s.routing_provider_priority) d.routing_provider_priority;
    }

or_empty : {A : Type 0} (xs : List A) → or_else (unless_empty xs) [] ≡ xs
or_empty [] = refl
or_empty (x ∷ xs) = refl

or_zero : (n : ℕ) → or_else (unless_zero n) 0 ≡ n
or_zero n = ground arith

or_nowhere : {A : Type 0} (o : Option A) → (if is_some o then o else none) ≡ o
or_nowhere none = refl
or_nowhere (some x) = refl

pub decode-encode :
    {Fav Place : Type 0} (s : Settings Fav Place) → decode (encode s) default_settings ≡ filled s
unfolding encode decode
decode-encode s = simp (
  or_empty s.wifi_ip,
  or_zero s.wifi_port,
  or_empty s.server_ip,
  or_empty s.preferred_ip,
  or_empty s.manual_tunnel_address,
  or_empty s.cluster_nodes,
  or_empty s.server_name,
  or_empty s.osrm_base_url,
  or_nowhere s.last_active_location,
)

abbrev then_load :
    {Fav Place : Type 0} → Option (Database Fav Place) → Option (Settings Fav Place × Bool)
then_load none = none
then_load (some e) = some (load true e)

-- What is saved is what a later load gives back, but for the six fields on the routing and the timings
-- of the cluster that are left out of the document when they are empty: they come back as their
-- defaults. What was stored before does not matter.
load-save :
    {Fav Place : Type 0} (cfg : Settings Fav Place) (d : Database Fav Place)
    → then_load (save true cfg d) ≡ some (filled cfg, true)
unfolding save load
load-save cfg d = ap (λ c. some (c, true)) (decode-encode cfg)

note_secret_other :
    (k v : Text) (s : Secrets)
    → text_eq k google_key ≡ false
    → text_eq k mapbox_key ≡ false
    → note_secret k v s ≡ s
note_secret_other k v s g m = rw (g, m) refl

delete_unread :
    (rows : List (Text × Text)) (s : Secrets)
    → read_secrets (delete_key mapbox_key (delete_key google_key rows)) s ≡ s
delete_unread [] s = refl
delete_unread ((k, v) ∷ rows) s =
    let rest = delete_unread rows in
    elim (Bool-cases (text_eq k google_key)) [
      | inl google ↦ rw google (rest s)
      | inr other ↦ elim (Bool-cases (text_eq k mapbox_key)) [
        | inl mapbox ↦ rw (other, mapbox) (rest s)
        | inr neither ↦
            rw (other, neither) (rest (note_secret k v s) ∙ note_secret_other k v s other neither)
      ]
    ]

pub load_secrets-save_secret :
    (g m : Text) (rows : List (Text × Text))
    → load_secrets (save_secret mapbox_key m (save_secret google_key g rows))
      ≡ record { google_routes_api_key = g; mapbox_access_token = m }
unfolding save_secret load_secrets
load_secrets-save_secret [] [] rows =
    delete_unread rows (record { google_routes_api_key = []; mapbox_access_token = [] })
load_secrets-save_secret (c ∷ g) [] rows =
    delete_unread rows (record { google_routes_api_key = c ∷ g; mapbox_access_token = [] })
load_secrets-save_secret [] (e ∷ m) rows =
    delete_unread rows (record { google_routes_api_key = []; mapbox_access_token = e ∷ m })
load_secrets-save_secret (c ∷ g) (e ∷ m) rows =
    delete_unread rows (record { google_routes_api_key = c ∷ g; mapbox_access_token = e ∷ m })

-- Secrets that are saved are loaded again, an empty one included, which deletes its row; a save that
-- fails anywhere, at its commit as well, leaves the secrets as they were.
pub load_secrets-save_secrets :
    (t : Transaction) (s : Secrets) (rows : List (Text × Text))
    → let (done, after) = save_secrets t s rows in
      ((done ≡ true) × (load_secrets after ≡ s)) ⊎ ((done ≡ false) × (after ≡ rows))
unfolding save_secrets
load_secrets-save_secrets t s rows =
    let saved = load_secrets-save_secret s.google_routes_api_key s.mapbox_access_token rows in
    elim (Bool-cases (t.first && t.second && t.commit)) [
      | inl good ↦ rw good (inl (refl, saved))
      | inr bad ↦ rw bad (inr (refl, refl))
    ]
