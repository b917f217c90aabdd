-- ===== src/Server/Manage/Local.antt =====
-- The management of paired devices in pair.go is for the machine itself.
use maps_main.Shared.{ℕ, ◌≡◌, Text, false, Option, none, some, List, [], ◌∷◌, ◌⊎◌}
use maps_main.Auth.Store.{Store}
use maps_main.Server.Manage.{Answer, no_route, not_configured, forbidden}
use maps_main.Server.Manage.Calls.{GoNet, Call, manage, manage_all}

abbrev IsRefusal : Answer → Type 0
IsRefusal a = (a ≡ forbidden) ⊎ (a ≡ not_configured) ⊎ (a ≡ no_route)

module _ (net : GoNet) where
  open net use {Ip, split_host_port, parse_ip, is_loopback_ip}

  -- The host of an address: what stands before the port, or all of it where there is no port.
  abbrev IsHost : Text → Text → Type 0
  IsHost addr host =
      (split_host_port addr ≡ some host) ⊎ ((split_host_port addr ≡ none) × (host ≡ addr))

  -- The host is no IP address, or one of another machine.
  abbrev pub IsRemote : Text → Type 0
  IsRemote addr =
      (host : Text) × IsHost addr host
      × ((parse_ip host ≡ none)
          ⊎ ((ip : Ip) × (parse_ip host ≡ some ip) × (is_loopback_ip ip ≡ false)))

  -- Calls with calls of other machines in between, and the same without them.
  pub data Mixed : List Call → List Call → Type 0 where
    nothing : Mixed [] []
    own : {cs ls : List Call} (c : Call) → Mixed cs ls → Mixed (c ∷ cs) (c ∷ ls)
    foreign :
        {cs ls : List Call} (c : Call) → IsRemote c.remote_addr → Mixed cs ls → Mixed (c ∷ cs) ls

  -- What was answered, with refusals to other machines in between, and the same without them.
  pub data Answered : List (Call × Answer) → List (Call × Answer) → Type 0 where
    over : Answered [] []
    alike :
        {xs ys : List (Call × Answer)} (c : Call) (a : Answer)
        → Answered xs ys
        → Answered ((c, a) ∷ xs) ((c, a) ∷ ys)
    refused :
        {xs ys : List (Call × Answer)} (c : Call) (a : Answer)
        → IsRemote c.remote_addr
        → IsRefusal a
        → Answered xs ys
        → Answered ((c, a) ∷ xs) ys

  module _ (decode_seed : Text → Option (List ℕ)) (hmac_sha1 : List ℕ → List ℕ → ℕ → ℕ) where
    abbrev call : Call → Option Store → Answer × Option Store
    call c auth = manage net decode_seed hmac_sha1 c auth

    abbrev run : List Call → Option Store → List (Call × Answer) × Option Store
    run cs auth = manage_all net decode_seed hmac_sha1 cs auth
