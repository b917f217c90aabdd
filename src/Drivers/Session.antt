-- ===== src/Drivers/Session.antt =====
-- engine/internal/driver/pmd3/location_session.go: the requests to the location worker, matched to its
-- replies by their ids. A channel has a number; it is kept with the id that the frame which made it
-- awaits. A send that would block and a close that would panic are recorded in `stuck`.
pub mod Matched
pub mod Late
use maps_main.Shared.{
  ℕ, suc, ◌+◌, ◌%◌, ◌^◌, String, Bool, true, false, Option, none, some, List, [], ◌∷◌, ◌==◌, str_eq,
  if◌then◌else◌,
}

-- `workerResponse`
pub record WorkerResponse : Type 0 where
  pub id : ℕ
  pub ok : Bool
  pub error : String

pub data Content : Type 0 where
  empty : Content
  holds : WorkerResponse → Content
  closed : Content

pub record Channel : Type 0 where
  pub owner : ℕ
  pub content : Content

pub record Session : Type 0 where
  pub next_id : ℕ
  pub pending : List (ℕ × ℕ)
  pub next_chan : ℕ
  pub channels : ℕ → Channel
  pub reading : Bool
  pub stuck : Bool

abbrev pub put : ℕ → Content → (ℕ → Channel) → ℕ → Channel
put c x f d = if d == c then record (f d) { content = x } else f d

abbrev pub lookup : ℕ → List (ℕ × ℕ) → Option ℕ
lookup i [] = none
lookup i ((j, c) ∷ rest) = let later = lookup i rest in if i == j then some c else later

abbrev pub delete : ℕ → List (ℕ × ℕ) → List (ℕ × ℕ)
delete i [] = []
delete i ((j, c) ∷ rest) = let later = delete i rest in if i == j then later else (j, c) ∷ later

-- `register`: the new channel is `next_chan`.
unfoldable pub register : ℕ → Session → Session
register i s = record s {
  pending = (i, s.next_chan) ∷ delete i s.pending;
  next_chan = suc s.next_chan;
  channels = λ d. if d == s.next_chan then record { owner = i; content = empty } else s.channels d;
}

-- `unregister`
unfoldable pub unregister : ℕ → Session → Session
unregister i s = record s { pending = delete i s.pending }

abbrev is_empty_content : Content → Bool
is_empty_content empty = true
is_empty_content (holds r) = false
is_empty_content closed = false

abbrev is_closed : Content → Bool
is_closed empty = false
is_closed (holds r) = false
is_closed closed = true

-- `ch <- resp` on a channel with room for one.
unfoldable pub send : ℕ → WorkerResponse → Session → Session
send c r s =
    if is_empty_content (s.channels c).content
    then record s { channels = put c (holds r) s.channels }
    else record s { stuck = true }

-- `deliver`
unfoldable pub deliver : WorkerResponse → Session → Session
unfolding send
deliver r s =
    let freed = record s { pending = delete r.id s.pending } in
    elim (lookup r.id s.pending) [ none ↦ freed | some c ↦ send c r freed ]

unfoldable pub close : ℕ → Session → Session
close c s = record s {
  channels = put c closed s.channels;
  stuck = if is_closed (s.channels c).content then true else s.stuck;
}

abbrev pub close_all : List (ℕ × ℕ) → Session → Session
unfolding close
close_all [] s = s
close_all ((i, c) ∷ rest) s = close_all rest (close c s)

-- `failPending`
unfoldable pub fail_pending : Session → Session
unfolding close_all
fail_pending s = close_all s.pending (record s { pending = [] })

-- What the reader meets on the worker's standard output.
pub data Line : Type 0 where
  response : WorkerResponse → Line
  blank : Line
  garbage : Line
  end_of_file : Line

-- One turn of `readLoop`; after garbage or the end of the stream there are no more.
unfoldable pub read_line : Line → Session → Session
unfolding deliver fail_pending
read_line (response r) s = if s.reading then deliver r s else s
read_line blank s = s
read_line garbage s = if s.reading then fail_pending (record s { reading = false }) else s
read_line end_of_file s = if s.reading then fail_pending (record s { reading = false }) else s

abbrev pub read_lines : List Line → Session → Session
unfolding read_line
read_lines [] s = s
read_lines (l ∷ ls) s = read_lines ls (read_line l s)

-- The id of the next request: `nextID.Add(1)` on a uint64.
abbrev pub fresh_id : Session → ℕ
fresh_id s = (s.next_id + 1) % 2 ^ 64

-- `roundTrip` up to `await`: the request has its slot, unless the write fails.
unfoldable pub begin : Bool → Session → Session
unfolding register unregister
begin written s =
    let asked = register (fresh_id s) (record s { next_id = fresh_id s }) in
    if written then asked else unregister (fresh_id s) asked

-- How `await` ends, if it does.
pub data Awaited : Type 0 where
  done : Awaited
  worker_error : String → Awaited
  stream_error : Awaited
  timed_out : Awaited
  blocked : Awaited

abbrev pub outcome : Content → Awaited
outcome empty = blocked
outcome closed = stream_error
outcome (holds r) =
    if r.ok
    then done
    else worker_error (if str_eq r.error "" then "unknown worker error" else r.error)

-- `await`, with which case of its `select` is taken.
unfoldable pub await : Bool → ℕ → ℕ → Session → Awaited × Session
unfolding unregister
await by_context i c s =
    if by_context then (timed_out, unregister i s) else (outcome (s.channels c).content, s)

-- `newLocationSession`: the slot of the handshake is taken before the worker is started.
abbrev handshake_id : ℕ
handshake_id = 0

abbrev no_channel : Channel
no_channel = record { owner = 0; content = empty }

unfoldable pub new_session : Session
unfolding register
new_session = register handshake_id (record {
  next_id = 0;
  pending = [];
  next_chan = 0;
  channels = λ c. no_channel;
  reading = true;
  stuck = false;
})
