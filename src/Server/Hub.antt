-- ===== src/Server/Hub.antt =====
-- engine/internal/server/hub.go: the hub owns the set of clients, one event at a time. A client is its
-- number; its outbound queue holds at most `room` messages, and a message is its bytes' count and
-- text. Counters are uint64 and int64 in the source, and do not wrap here.
pub mod Invariant
pub mod Delivery
use maps_main.Shared.{
  ℕ, suc, ◌+◌, ◌-◌, Bool, true, false, List, [], ◌∷◌, ◌++◌, ltb, leb, ◌==◌, if◌then◌else◌, length,
}

pub record Message : Type 0 where
  pub text : ℕ
  pub size : ℕ

-- A registered client: its queue, oldest message first, and the queue's capacity.
pub record Client : Type 0 where
  pub id : ℕ
  pub queue : List Message
  pub room : ℕ

-- `closed` lists the clients whose `send` channel was closed, the last one first.
pub record Hub : Type 0 where
  pub clients : List Client
  pub closed : List ℕ
  pub bytes_sent : ℕ
  pub dropped_clients : ℕ
  pub connected : ℕ
  pub total_bytes_sent : ℕ
  pub total_dropped : ℕ

unfoldable pub new_hub : Hub
new_hub = record {
  clients = [];
  closed = [];
  bytes_sent = 0;
  dropped_clients = 0;
  connected = 0;
  total_bytes_sent = 0;
  total_dropped = 0;
}

abbrev pub member : ℕ → List Client → Bool
member i [] = false
member i (c ∷ cs) = if c.id == i then true else member i cs

unfoldable pub remove : ℕ → List Client → List Client
remove i [] = []
remove i (c ∷ cs) = if c.id == i then cs else c ∷ remove i cs

-- `case c := <-h.register`
unfoldable pub register : Client → Hub → Hub
register c h = record h { clients = c ∷ h.clients; connected = h.connected + 1 }

-- `case c := <-h.unregister`
unfoldable pub unregister : ℕ → Hub → Hub
unregister i h =
    if member i h.clients
    then record h {
      clients = remove i h.clients;
      closed = i ∷ h.closed;
      connected = h.connected - 1;
    }
    else h

abbrev pub has_room : Client → Bool
has_room c = ltb (length c.queue) c.room

-- The body of the broadcast loop for one client: the message is queued, or the client is dropped.
-- `h` has the clients that the loop has kept.
unfoldable pub offer : Message → Client → Hub → Hub
offer m c h =
    if has_room c
    then record h {
      clients = record c { queue = c.queue ++ m ∷ [] } ∷ h.clients;
      bytes_sent = h.bytes_sent + m.size;
      total_bytes_sent = h.total_bytes_sent + m.size;
    }
    else record h {
      closed = c.id ∷ h.closed;
      dropped_clients = h.dropped_clients + 1;
      total_dropped = h.total_dropped + 1;
      connected = h.connected - 1;
    }

unfoldable pub offer_all : Message → List Client → Hub → Hub
offer_all m [] h = h
offer_all m (c ∷ cs) h = offer m c (offer_all m cs h)

-- `case msg := <-h.broadcastC`
unfoldable pub broadcast : Message → Hub → Hub
broadcast m h = offer_all m h.clients (record h { clients = [] })

-- `writePump` takes the oldest message of a client's queue.
unfoldable drain : ℕ → List Client → List Client
drain i [] = []
drain i (c ∷ cs) = if c.id == i then record c { queue = rest c.queue } ∷ cs else c ∷ drain i cs
  where
    rest : List Message → List Message
    rest [] = []
    rest (m ∷ ms) = ms

-- `snapshotAndReset`
unfoldable pub snapshot_and_reset : Hub → (ℕ × ℕ) × Hub
snapshot_and_reset h =
    ((h.bytes_sent, h.dropped_clients), record h { bytes_sent = 0; dropped_clients = 0 })

-- `totals` and `clientCount`
unfoldable totals : Hub → ℕ × ℕ
totals h = (h.total_bytes_sent, h.total_dropped)

unfoldable client_count : Hub → ℕ
client_count h = h.connected
