-- ===== src/Settings/Live/Restart.antt =====
-- A restart of the engine on the settings and the secrets that it saved.
use maps_main.Shared.{
  ℕ, ◌≡◌, refl, ap, ◌∙◌, subst, Text, runes, Bool, true, false, Option, none, some, List, [], ◌∷◌,
  ltb, arith, if◌then◌else◌,
}
use maps_main.Auth.Store.{is_empty}
use maps_main.Settings.Schema.{
  Settings, default_priority, or_else, unless_empty, unless_zero, encode, decode,
}
use maps_main.Settings.Store.{
  Secrets, Database, save, load, Transaction, save_secrets, load_secrets, google_key, mapbox_key,
  save_secret,
}
use maps_main.Settings.Store.Laws.{filled, decode-encode, load_secrets-save_secret}
use maps_main.Settings.RoutingConfig.{
  RoutingConfig, normalize_mode, normalize_provider_id, normalize_priority, normalize_config,
}
use maps_main.Settings.Live.{
  ClusterConfig, Live, Payload, Defaults, apply_settings, export_settings, secrets_of,
  first_non_empty, number_or, new_with_secrets, text_or, persist, persist_secrets, save_settings,
  is_secret,
}

-- An engine that runs on a configuration in its normal form, with an OSRM server that its status
-- shows, timings above zero, and API keys that no variable of the environment stands in for.
abbrev IsSettled : {Fav : Type 0} → Defaults → Live Fav → Type 0
IsSettled env l =
    (normalize_config l.routing ≡ l.routing)
    × (l.osrm_base_url ≡ l.routing.osrm_base_url)
    × (is_empty l.osrm_base_url ≡ false)
    × (ltb 0 l.heartbeat_seconds ≡ true)
    × (ltb 0 l.master_dead_seconds ≡ true)
    × (ltb 0 l.peer_timeout_seconds ≡ true)
    × (first_non_empty (l.routing.google_routes_api_key ∷ env.google_keys)
        ≡ l.routing.google_routes_api_key)
    × (first_non_empty (l.routing.mapbox_access_token ∷ env.mapbox_tokens)
        ≡ l.routing.mapbox_access_token)

filled_text : (t d : Text) → is_empty t ≡ false → or_else (unless_empty t) d ≡ t
filled_text [] d h = ground arith
filled_text (c ∷ cs) d h = refl

mode_there : (m d : Text) → or_else (unless_empty (normalize_mode m)) d ≡ normalize_mode m
unfolding normalize_mode
mode_there m d = ground arith

provider_there :
    (p d : Text) → or_else (unless_empty (normalize_provider_id p)) d ≡ normalize_provider_id p
unfolding normalize_provider_id
provider_there p d = ground arith

priority_there :
    (ps d : List Text) → or_else (unless_empty (normalize_priority ps)) d ≡ normalize_priority ps
unfolding normalize_priority
priority_there [] d = refl
priority_there (p ∷ ps) d = refl

-- The configuration without what a restart begins anew.
abbrev pub anew : {Fav : Type 0} → Live Fav → Live Fav
anew l = record l { rsd_port = 0; cluster = none }

text_or_there : (t d : Text) → is_empty t ≡ false → text_or t d ≡ t
text_or_there t d h = rw h refl

number_there : (n d : ℕ) → ltb 0 n ≡ true → or_else (unless_zero n) d ≡ n
number_there n d h = rw h refl

number_or_there : (n d : ℕ) → ltb 0 n ≡ true → number_or n d ≡ n
number_or_there n d h = rw h refl

-- The three fields of a configuration in its normal form are never left out of the document.
mode_kept :
    (r : RoutingConfig) (d : Text)
    → normalize_config r ≡ r
    → or_else (unless_empty r.mode) d ≡ r.mode
unfolding normalize_config
mode_kept r d n =
    let e : normalize_mode r.mode ≡ r.mode = ap (λ (c : RoutingConfig). c.mode) n in
    subst (λ m. or_else (unless_empty m) d ≡ m) e (mode_there r.mode d)

provider_kept :
    (r : RoutingConfig) (d : Text)
    → normalize_config r ≡ r
    → or_else (unless_empty r.provider) d ≡ r.provider
unfolding normalize_config
provider_kept r d n =
    let e : normalize_provider_id r.provider ≡ r.provider =
      ap (λ (c : RoutingConfig). c.provider) n in
    subst (λ m. or_else (unless_empty m) d ≡ m) e (provider_there r.provider d)

priority_kept :
    (r : RoutingConfig) (d : List Text)
    → normalize_config r ≡ r
    → or_else (unless_empty r.provider_priority) d ≡ r.provider_priority
unfolding normalize_config
priority_kept r d n =
    let e : normalize_priority r.provider_priority ≡ r.provider_priority =
      ap (λ (c : RoutingConfig). c.provider_priority) n in
    subst (λ m. or_else (unless_empty m) d ≡ m) e (priority_there r.provider_priority d)

module _ {Fav : Type 0} (Place : Type 0) (env : Defaults) (l : Live Fav) where
  abbrev exported : Option ClusterConfig → Settings Fav Place
  exported reported = export_settings reported l

  reported_unread :
      (reported : Option ClusterConfig) (secrets : Secrets)
      → new_with_secrets env (filled (exported reported)) secrets
        ≡ new_with_secrets env (filled (exported none)) secrets
  unfolding new_with_secrets export_settings
  reported_unread none secrets = refl
  reported_unread (some c) secrets = refl

  exported_lem :
      IsSettled env l → new_with_secrets env (filled (exported none)) (secrets_of l) ≡ anew l
  unfolding new_with_secrets export_settings secrets_of
  exported_lem (norm, shown, osrm, beat, dead, peer, google, mapbox) =
      let there : is_empty l.routing.osrm_base_url ≡ false = rw⁻¹ shown osrm in
      let normal : normalize_config (record {
        osrm_base_url = l.routing.osrm_base_url;
        mode = l.routing.mode;
        provider = l.routing.provider;
        provider_priority = l.routing.provider_priority;
        google_routes_api_key = l.routing.google_routes_api_key;
        mapbox_access_token = l.routing.mapbox_access_token;
      })
          ≡ l.routing =
        norm in
      simp (
        mode_kept l.routing (runes "auto") norm,
        provider_kept l.routing (runes "osrm") norm,
        priority_kept l.routing default_priority norm,
        number_there l.heartbeat_seconds 10 beat,
        number_there l.master_dead_seconds 30 dead,
        number_there l.peer_timeout_seconds 3 peer,
        number_or_there l.heartbeat_seconds env.heartbeat_seconds beat,
        number_or_there l.master_dead_seconds env.master_dead_seconds dead,
        number_or_there l.peer_timeout_seconds env.peer_timeout_seconds peer,
        text_or_there l.routing.osrm_base_url env.osrm_base_url there,
        google,
        mapbox,
        normal,
        shown,
      )

-- What a restart makes of a database whose statements are carried out.
abbrev pub restarted : {Fav Place : Type 0} → Defaults → Database Fav Place → Live Fav
restarted env d = new_with_secrets env (load true d).0 (load_secrets d.secrets)

abbrev pub good_transaction : Transaction
good_transaction = record { first = true; second = true; commit = true }

-- An engine that is started again on what a settled one has saved runs on the same configuration: the
-- drivers, the switches, the favourites and the history, the routing with its keys, and the timings of
-- the cluster are all as before, whatever the database held, and whatever the manager of the cluster
-- reported. Only the endpoint of the tunnel and the manager begin anew.
pub restarted-persist :
    {Fav Place : Type 0} (env : Defaults) (reported : Option ClusterConfig) (l : Live Fav)
    (d : Database Fav Place)
    → IsSettled env l
    → restarted env (persist_secrets good_transaction l (persist true reported l d)) ≡ anew l
unfolding persist persist_secrets save load save_secrets secrets_of
restarted-persist {Fav} {Place} env reported l d s =
    let cfg : Settings Fav Place = export_settings reported l in
    let secrets =
      load_secrets-save_secret l.routing.google_routes_api_key l.routing.mapbox_access_token
        d.secrets in
    let kept : Secrets = secrets_of l in
    ap
      (λ c. new_with_secrets env c (
        load_secrets (
          save_secret mapbox_key l.routing.mapbox_access_token
            (save_secret google_key l.routing.google_routes_api_key d.secrets))))
      (decode-encode cfg)
    ∙ ap (λ x. new_with_secrets env (filled cfg) x) secrets
    ∙ reported_unread Place env l reported kept
    ∙ exported_lem Place env l s

stored_port :
    {Fav Place : Type 0} (b : Bool) (t : Transaction) (reported : Option ClusterConfig)
    (l : Live Fav) (d : Database Fav Place)
    → let d' = persist true reported l d in
      (load true (if b then persist_secrets t l d' else d')).0.companion_port ≡ 8080
unfolding persist persist_secrets save load export_settings encode decode
stored_port true t none l d = refl
stored_port true t (some c) l d = refl
stored_port false t none l d = refl
stored_port false t (some c) l d = refl

-- A port for the companion application that is saved is not stored: it overwrites the port of the
-- tunnel that the status shows, and the settings that are loaded again have the default port, 8080.
save_settings-companion_port :
    {Fav Place : Type 0} (env : Defaults) (t : Transaction) (reported : Option ClusterConfig)
    (p : Payload) (port : ℕ) (l : Live Fav) (d : Database Fav Place)
    → p.companion_port ≡ some port
    → let (asked, l', d') = save_settings env true t reported p (l, d) in
      (l'.rsd_port ≡ port) × ((load true d').0.companion_port ≡ 8080)
unfolding save_settings apply_settings
save_settings-companion_port env t reported p port l d h =
    (rw h refl, stored_port (is_secret p) t reported (apply_settings env p l) d)
