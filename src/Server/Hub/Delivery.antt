-- ===== src/Server/Hub/Delivery.antt =====
-- What a broadcast of hub.go does to each client.
use mathlib.Core.List.{append-nil}
use maps_main.Shared.{
  ℕ, ◌+◌, ◌*◌, ◌≡◌, refl, List, [], ◌∷◌, ◌++◌, if◌then◌else◌, length, arith, ◌∙◌, ap, Bool-cases,
  inl, inr,
}
use maps_main.Server.Hub.{Message, Client, Hub, has_room, offer, offer_all, broadcast}

-- The clients that get the message, and those dropped for a full queue.
abbrev served : Message → List Client → List Client
served m [] = []
served m (c ∷ cs) =
    if has_room c then record c { queue = c.queue ++ m ∷ [] } ∷ served m cs else served m cs

abbrev slow : List Client → List ℕ
slow [] = []
slow (c ∷ cs) = if has_room c then slow cs else c.id ∷ slow cs

offer_all-split :
    (m : Message) (cs : List Client) (h : Hub)
    → ((offer_all m cs h).clients ≡ served m cs ++ h.clients)
      × ((offer_all m cs h).closed ≡ slow cs ++ h.closed)
      × ((offer_all m cs h).total_bytes_sent ≡ h.total_bytes_sent + length (served m cs) * m.size)
      × ((offer_all m cs h).total_dropped ≡ h.total_dropped + length (slow cs))
unfolding offer_all offer
offer_all-split m [] h = (refl, refl, omega arith, omega arith)
offer_all-split m (c ∷ cs) h =
    let (kept, shut, sent, lost) = offer_all-split m cs h in
    elim (Bool-cases (has_room c)) [
      | inl room ↦
          rw (room, offer)
            (ap (◌∷◌ (record c { queue = c.queue ++ m ∷ [] })) kept, shut, grind arith, lost)
      | inr full ↦ rw (full, offer) (kept, ap (◌∷◌ c.id) shut, sent, omega arith)
    ]

-- A broadcast appends the message to the queue of every client that has room, closes and drops
-- every other, and counts the bytes and the clients dropped.
broadcast_lem :
    (m : Message) (h : Hub)
    → let g = broadcast m h in
      (g.clients ≡ served m h.clients)
      × (g.closed ≡ slow h.clients ++ h.closed)
      × (g.total_bytes_sent ≡ h.total_bytes_sent + length (served m h.clients) * m.size)
      × (g.total_dropped ≡ h.total_dropped + length (slow h.clients))
unfolding broadcast
broadcast_lem m h =
    let all = offer_all-split m h.clients (record h { clients = [] }) in
    (all.0 ∙ append-nil (served m h.clients), all.1, all.2, all.3)
