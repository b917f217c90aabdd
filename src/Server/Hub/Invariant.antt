-- ===== src/Server/Hub/Invariant.antt =====
-- What holds of the hub of hub.go between two events.
use maps_main.Shared.{
  ℕ, ◌+◌, ◌≤◌, ◌≡◌, refl, inl, inr, Bool, true, false, List, [], ◌∷◌, ◌==◌, if◌then◌else◌, length,
  arith, Bool-cases,
}
use maps_main.Server.Hub.{
  Message, Client, Hub, new_hub, member, remove, register, unregister, has_room, offer, offer_all,
  broadcast, snapshot_and_reset,
}

abbrev pub among : ℕ → List ℕ → Bool
among i [] = false
among i (j ∷ js) = if j == i then true else among i js

-- No number stands twice in the list.
abbrev pub Distinct : List ℕ → Type 0
Distinct [] = Unit {0}
Distinct (i ∷ is) = (among i is ≡ false) × Distinct is

-- Clients are registered once, and their channels are open.
abbrev pub Live : List ℕ → List Client → Type 0
Live closed [] = Unit {0}
Live closed (c ∷ cs) = (member c.id cs ≡ false) × (among c.id closed ≡ false) × Live closed cs

pub record Inv (h : Hub) : Type 0 where
  pub counted : h.connected ≡ length h.clients
  pub live : Live h.closed h.clients
  pub closed_once : Distinct h.closed
  pub bytes : h.bytes_sent ≤ h.total_bytes_sent
  pub drops : h.dropped_clients ≤ h.total_dropped

new_hub-Inv : Inv new_hub
unfolding new_hub
new_hub-Inv = omega arith

register-Inv :
    (c : Client) (h : Hub)
    → member c.id h.clients ≡ false
    → among c.id h.closed ≡ false
    → Inv h
    → Inv (register c h)
unfolding register
register-Inv c h new open' v = ground arith

member-remove_other :
    (i j : ℕ) (cs : List Client) → member j cs ≡ false → member j (remove i cs) ≡ false
unfolding remove
member-remove_other i j [] h = refl
member-remove_other i j (c ∷ cs) h = ground (arith, member-remove_other i j cs)

member-remove_self :
    (i : ℕ) (closed : List ℕ) (cs : List Client) → Live closed cs → member i (remove i cs) ≡ false
unfolding remove
member-remove_self i closed [] l = refl
member-remove_self i closed (c ∷ cs) l = ground (arith, member-remove_self i closed cs l.2)

length-remove :
    (i : ℕ) (cs : List Client) → member i cs ≡ true → length (remove i cs) + 1 ≡ length cs
unfolding remove
length-remove i [] h = cc
length-remove i (c ∷ cs) h = ground (arith, length-remove i cs)

Live-remove :
    (i : ℕ) (closed : List ℕ) (cs : List Client) → Live closed cs → Live closed (remove i cs)
unfolding remove
Live-remove i closed [] l = tt
Live-remove i closed (c ∷ cs) l =
    ground (arith, Live-remove i closed cs l.2, member-remove_other i c.id cs l.0)

Live-close :
    (i : ℕ) (closed : List ℕ) (cs : List Client)
    → member i cs ≡ false
    → Live closed cs
    → Live (i ∷ closed) cs
Live-close i closed [] h l = tt
Live-close i closed (c ∷ cs) h l = ground (arith, Live-close i closed cs, l.2)

-- A registered client's channel is open.
pub Live-open :
    (i : ℕ) (closed : List ℕ) (cs : List Client)
    → Live closed cs
    → member i cs ≡ true
    → among i closed ≡ false
Live-open i closed [] l h = cc
Live-open i closed (c ∷ cs) l h = elim (Bool-cases (c.id == i)) [
  | inl same ↦ let e : c.id ≡ i = ground arith in rw e at (l.1)
  | inr other ↦ Live-open i closed cs l.2 (ground arith)
]

unregister-Inv : (i : ℕ) (h : Hub) → Inv h → Inv (unregister i h)
unfolding unregister
unregister-Inv i h v = elim (Bool-cases (member i h.clients)) [
  | inr absent ↦ rw (absent, unregister) v
  | inl there ↦
      rw (there, unregister)
        (record {
          counted = omega (arith, length-remove i h.clients there, v.counted);
          live =
              Live-close i h.closed (remove i h.clients)
                (member-remove_self i h.closed h.clients v.live)
                (Live-remove i h.closed h.clients v.live);
          closed_once = (Live-open i h.closed h.clients v.live there, v.closed_once);
          bytes = v.bytes;
          drops = v.drops;
        })
]

module _ (m : Message) (h : Hub) (none_kept : h.clients ≡ []) where
  offer_all-counted :
      (cs : List Client) (r : ℕ)
      → h.connected ≡ length cs + r
      → (offer_all m cs h).connected ≡ length (offer_all m cs h).clients + r
  unfolding offer_all offer
  offer_all-counted [] r e = rw none_kept e
  offer_all-counted (c ∷ cs) r e = ground (arith, offer_all-counted cs (r + 1) (omega arith))

  offer_all-member :
      (cs : List Client) (i : ℕ) → member i cs ≡ false → member i (offer_all m cs h).clients ≡ false
  unfolding offer_all offer
  offer_all-member [] i e = rw none_kept
  offer_all-member (c ∷ cs) i e = ground (arith, offer_all-member cs i)

  offer_all-among :
      (cs : List Client) (i : ℕ)
      → member i cs ≡ false
      → among i h.closed ≡ false
      → among i (offer_all m cs h).closed ≡ false
  unfolding offer_all offer
  offer_all-among [] i e a = a
  offer_all-among (c ∷ cs) i e a = ground (arith, offer_all-among cs i)

  offer_all-Live :
      (cs : List Client)
      → Live h.closed cs
      → Distinct h.closed
      → Live (offer_all m cs h).closed (offer_all m cs h).clients
        × Distinct (offer_all m cs h).closed
  unfolding offer_all offer
  offer_all-Live [] l d = (rw none_kept tt, d)
  offer_all-Live (c ∷ cs) l d =
      let (live, distinct) = offer_all-Live cs l.2 d in
      let absent = offer_all-member cs c.id l.0 in
      let open' = offer_all-among cs c.id l.0 l.1 in
      let g = offer_all m cs h in
      elim (Bool-cases (has_room c)) [
        | inl room ↦ rw (room, offer) ((absent, open', live), distinct)
        | inr full ↦
            rw (full, offer) (Live-close c.id g.closed g.clients absent live, (open', distinct))
      ]

  offer_all-totals :
      (cs : List Client)
      → h.bytes_sent ≤ h.total_bytes_sent
      → h.dropped_clients ≤ h.total_dropped
      → ((offer_all m cs h).bytes_sent ≤ (offer_all m cs h).total_bytes_sent)
        × ((offer_all m cs h).dropped_clients ≤ (offer_all m cs h).total_dropped)
  unfolding offer_all offer
  offer_all-totals [] b d = (b, d)
  offer_all-totals (c ∷ cs) b d = ground (arith, offer_all-totals cs b d)

broadcast-Inv : (m : Message) (h : Hub) → Inv h → Inv (broadcast m h)
unfolding broadcast
broadcast-Inv m h v =
    let emptied : Hub = record h { clients = [] } in
    let live = offer_all-Live m emptied refl h.clients v.live v.closed_once in
    let sums = offer_all-totals m emptied refl h.clients v.bytes v.drops in
    record {
      counted =
          omega (arith, offer_all-counted m emptied refl h.clients 0 (omega (arith, v.counted)));
      live = live.0;
      closed_once = live.1;
      bytes = sums.0;
      drops = sums.1;
    }

-- What may happen to the hub. A client that registers is new: the server makes one for each
-- connection and registers it once.
pub data Step : Hub → Hub → Type 0 where
  registered :
      {h : Hub} (c : Client)
      → member c.id h.clients ≡ false
      → among c.id h.closed ≡ false
      → Step h (register c h)
  unregistered : {h : Hub} (i : ℕ) → Step h (unregister i h)
  sent : {h : Hub} (m : Message) → Step h (broadcast m h)
  sampled : {h : Hub} → Step h (snapshot_and_reset h).1

pub data Reach : Hub → Type 0 where
  start : Reach new_hub
  next : {h g : Hub} → Reach h → Step h g → Reach g

Step-Inv : {h g : Hub} → Step h g → Inv h → Inv g
unfolding snapshot_and_reset
Step-Inv (registered {h} c new open') v = register-Inv c h new open' v
Step-Inv (unregistered {h} i) v = unregister-Inv i h v
Step-Inv (sent {h} m) v = broadcast-Inv m h v
Step-Inv (sampled {h}) v = ground arith

-- After any sequence of registrations, disconnections, broadcasts and samplings the count of clients
-- is the number registered, every registered client's channel is open, and no channel was closed twice.
pub Reach-Inv : {h : Hub} → Reach h → Inv h
Reach-Inv start = new_hub-Inv
Reach-Inv (next r st) = Step-Inv st (Reach-Inv r)
