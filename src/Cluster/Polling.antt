-- ===== src/Cluster/Polling.antt =====
-- One round of pings in cluster.go, `checkPeers`, when several peers claim to be the master.
use maps_main.Shared.{
  ℕ, ◌≡◌, refl, ◌∙◌, ◌⊎◌, inl, inr, String, true, false, none, some, List, [], ◌∷◌, All, Any, arith,
}
use maps_main.Shared.Int.{ℤ, pos, ◌≤ℤ◌}
use maps_main.Cluster.Model.{Peer, Manager, Net, node}
use maps_main.Cluster.Heartbeat.{
  Ping, failed, answered, Found, is_master, ping_of, note_master, settle_master, check_peers, poll,
  no_master,
}

-- An answer that claims to be master claims at most this epoch.
abbrev ClaimsAtMost : ℤ → Ping → Type 0
ClaimsAtMost bound failed = Unit {0}
ClaimsAtMost bound (answered role name epoch) = (is_master role ≡ false) ⊎ (epoch ≤ℤ bound)

-- The answer is that of a master at this epoch.
abbrev ClaimsMaster : ℤ → Ping → Type 0
ClaimsMaster e failed = ⊥
ClaimsMaster e (answered role name epoch) = (is_master role ≡ true) × (epoch ≡ e)

abbrev Keyed : Net → (Peer → Ping) → String → ℤ → Peer → Type 0
Keyed net ping k e p = (net.key p.address p.port ≡ k) × ClaimsMaster e (ping_of ping p)

note_master-bound :
    (net : Net) (p : Peer) (a : Ping) (f : Found)
    → (f.epoch ≤ℤ (note_master net p a f).epoch) × ClaimsAtMost (note_master net p a f).epoch a
unfolding note_master
note_master-bound net p failed f = (omega arith, tt)
note_master-bound net p (answered role name epoch) f = (ground arith, ground arith)

ClaimsAtMost-mono : (a b : ℤ) (x : Ping) → a ≤ℤ b → ClaimsAtMost a x → ClaimsAtMost b x
ClaimsAtMost-mono a b failed h c = tt
ClaimsAtMost-mono a b (answered role name epoch) h c = ground (arith, h, c)

poll-bound :
    (net : Net) (ping : Peer → Ping) (now : ℕ) (ps : List Peer) (f : Found)
    → (f.epoch ≤ℤ (poll net ping now ps f).1.epoch)
      × All (λ p. ClaimsAtMost (poll net ping now ps f).1.epoch (ping_of ping p)) ps
unfolding poll
poll-bound net ping now [] f = (omega arith, tt)
poll-bound net ping now (p ∷ ps) f =
    let (le, all) = poll-bound net ping now ps (note_master net p (ping_of ping p) f) in
    let (step, claim) = note_master-bound net p (ping_of ping p) f in
    (omega arith, (ClaimsAtMost-mono _ _ (ping_of ping p) le claim, all))

note_master-source :
    (net : Net) (p : Peer) (a : Ping) (f : Found) (k : String)
    → let g = note_master net p a f in
      g.key ≡ some k
      → ((f.key ≡ some k) × (f.epoch ≡ g.epoch))
        ⊎ ((net.key p.address p.port ≡ k) × ClaimsMaster g.epoch a)
unfolding note_master
note_master-source net p failed f k h = inl (h, refl)
note_master-source net p (answered role name epoch) f k h = ground arith

ClaimsMaster-at : {a b : ℤ} (x : Ping) → a ≡ b → ClaimsMaster a x → ClaimsMaster b x
ClaimsMaster-at failed h c = c
ClaimsMaster-at (answered role name epoch) h c = (c.0, c.1 ∙ h)

-- The master that a round settles on was heard in the round, or brought into it.
poll-source :
    (net : Net) (ping : Peer → Ping) (now : ℕ) (ps : List Peer) (f : Found) (k : String)
    → let g = (poll net ping now ps f).1 in
      g.key ≡ some k → ((f.key ≡ some k) × (f.epoch ≡ g.epoch)) ⊎ Any (Keyed net ping k g.epoch) ps
unfolding poll
poll-source net ping now [] f k h = inl (h, refl)
poll-source net ping now (p ∷ ps) f k h =
    elim (poll-source net ping now ps (note_master net p (ping_of ping p) f) k h) [
      | inr later ↦ inr (inr later)
      | inl (key, epoch) ↦ elim (note_master-source net p (ping_of ping p) f k key) [
        | inl (old, same) ↦ inl (old, same ∙ epoch)
        | inr (key', claims) ↦ inr (inl (key', ClaimsMaster-at (ping_of ping p) epoch claims))
      ]
    ]

poll-none :
    (net : Net) (ping : Peer → Ping) (now : ℕ) (ps : List Peer) (f : Found)
    → (poll net ping now ps f).1.key ≡ none
    → (f.key ≡ none) × (f.epoch ≡ (poll net ping now ps f).1.epoch)
unfolding poll note_master
poll-none net ping now [] f h = (h, refl)
poll-none net ping now (p ∷ ps) f h =
    ground (arith, poll-none net ping now ps (note_master net p (ping_of ping p) f) h)

settle_master-key :
    (now : ℕ) (f : Found) (m : Manager) (k : String)
    → (settle_master now f m).current_master ≡ node k
    → f.key ≡ some k
unfolding settle_master
settle_master-key now f m k h = ground arith

settle_master-epoch :
    (now : ℕ) (f : Found) (m : Manager)
    → (f.key ≡ none → f.epoch ≤ℤ m.epoch)
    → f.epoch ≤ℤ (settle_master now f m).epoch
unfolding settle_master
settle_master-epoch now f m h = ground arith

All-ClaimsAtMost :
    (ping : Peer → Ping) (a b : ℤ) (ps : List Peer)
    → a ≤ℤ b
    → All (λ p. ClaimsAtMost a (ping_of ping p)) ps
    → All (λ p. ClaimsAtMost b (ping_of ping p)) ps
All-ClaimsAtMost ping a b [] h all = tt
All-ClaimsAtMost ping a b (p ∷ ps) h all =
    (ClaimsAtMost-mono a b (ping_of ping p) h all.0, All-ClaimsAtMost ping a b ps h all.1)

-- After a round of pings this node's epoch is at least that of every peer that answered as master,
-- if it was not negative before.
check_peers_highest :
    (net : Net) (ping : Peer → Ping) (now : ℕ) (m : Manager)
    → pos 0 ≤ℤ m.epoch
    → All (λ p. ClaimsAtMost (check_peers net ping now m).epoch (ping_of ping p)) m.peers
unfolding check_peers
check_peers_highest net ping now m h =
    All-ClaimsAtMost ping _ _ m.peers settled (poll-bound net ping now m.peers no_master).1
  where
    settled : (poll net ping now m.peers no_master).1.epoch ≤ℤ (check_peers net ping now m).epoch
    settled =
        settle_master-epoch now (poll net ping now m.peers no_master).1
          (record m { peers = (poll net ping now m.peers no_master).0 })
          (λ e. let e' = poll-none net ping now m.peers no_master e in rw (← e'.1) h)

-- If a round names a peer as the master, then some peer with that key answered as master in the
-- round, and no peer that answered as master claimed a higher epoch.
check_peers_master :
    (net : Net) (ping : Peer → Ping) (now : ℕ) (m : Manager) (k : String)
    → (check_peers net ping now m).current_master ≡ node k
    → (e : ℤ) × Any (Keyed net ping k e) m.peers
      × All (λ p. ClaimsAtMost e (ping_of ping p)) m.peers
unfolding check_peers
check_peers_master net ping now m k h =
    let found =
      settle_master-key now (poll net ping now m.peers no_master).1
        (record m { peers = (poll net ping now m.peers no_master).0 }) k h in
    let all = (poll-bound net ping now m.peers no_master).1 in
    elim (poll-source net ping now m.peers no_master k found) [
      | inl (absent, _) ↦ cc
      | inr heard ↦ ((poll net ping now m.peers no_master).1.epoch, heard, all)
    ]
