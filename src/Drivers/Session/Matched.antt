-- ===== src/Drivers/Session/Matched.antt =====
-- Each reply of the worker reaches the request that asked for it, and no other: location_session.go.
use maps_main.Shared.{
  ℕ, suc, ◌<◌, ◌≡◌, ◌≢◌, refl, subst, sym, Bool, true, false, some, List, [], ◌∷◌, All, ◌==◌, arith,
  if◌then◌else◌, Bool-cases, Option-cases, inl, inr,
}
use maps_main.Drivers.Session.{
  WorkerResponse, Content, empty, holds, closed, Channel, Session, put, lookup, delete, register,
  unregister, send, deliver, close, close_all, fail_pending, Line, response, blank, garbage,
  end_of_file, read_line, fresh_id, begin, await, new_session,
}

-- A slot whose channel was made for the slot's id and is still empty.
abbrev IsOpen : ℕ → (ℕ → Channel) → ℕ × ℕ → Type 0
IsOpen n f (i, c) = (c < n) × ((f c).owner ≡ i) × ((f c).content ≡ empty)

-- No id twice.
abbrev IsFree : ℕ → List (ℕ × ℕ) → Type 0
IsFree i [] = Unit {0}
IsFree i ((j, c) ∷ rest) = (j ≢ i) × IsFree i rest

abbrev AreDistinct : List (ℕ × ℕ) → Type 0
AreDistinct [] = Unit {0}
AreDistinct ((i, c) ∷ rest) = IsFree i rest × AreDistinct rest

-- What a channel holds answers the id it was made for.
abbrev pub Answers : ℕ → Content → Type 0
Answers i empty = Unit {0}
Answers i closed = Unit {0}
Answers i (holds r) = r.id ≡ i

abbrev pub IsMatched : Session → Type 0
IsMatched s =
    All (IsOpen s.next_chan s.channels) s.pending
    × AreDistinct s.pending
    × ((c : ℕ) → Answers (s.channels c).owner (s.channels c).content)
    × (s.stuck ≡ false)

delete-IsFree : (i : ℕ) (l : List (ℕ × ℕ)) → IsFree i (delete i l)
delete-IsFree i [] = tt
delete-IsFree i ((j, c) ∷ rest) = ground (arith, delete-IsFree i rest)

IsFree-delete : (i j : ℕ) (l : List (ℕ × ℕ)) → IsFree j l → IsFree j (delete i l)
IsFree-delete i j [] h = tt
IsFree-delete i j ((k, c) ∷ rest) h = ground (arith, IsFree-delete i j rest h.1)

AreDistinct-delete : (i : ℕ) (l : List (ℕ × ℕ)) → AreDistinct l → AreDistinct (delete i l)
AreDistinct-delete i [] h = tt
AreDistinct-delete i ((k, c) ∷ rest) h =
    ground (arith, AreDistinct-delete i rest h.1, IsFree-delete i k rest h.0)

All-delete : (P : ℕ × ℕ → Type 0) (i : ℕ) (l : List (ℕ × ℕ)) → All P l → All P (delete i l)
All-delete P i [] h = tt
All-delete P i ((k, c) ∷ rest) h = let later = All-delete P i rest h.1 in ground (arith, later, h.0)

All-lookup :
    (P : ℕ × ℕ → Type 0) (i c : ℕ) (l : List (ℕ × ℕ)) → All P l → lookup i l ≡ some c → P (i, c)
All-lookup P i c [] h e = ground arith
All-lookup P i c ((k, d) ∷ rest) h e = elim (Bool-cases (i == k)) [
  | inl same ↦ let both : (k ≡ i) × (d ≡ c) = ground arith in rw⁻¹ (both.0, both.1) h.0
  | inr other ↦ All-lookup P i c rest h.1 (ground arith)
]

-- A change of a channel that was made for another id leaves the open slots open.
IsOpen-put :
    (n c : ℕ) (x : Content) (f : ℕ → Channel) (l : List (ℕ × ℕ))
    → IsFree (f c).owner l
    → All (IsOpen n f) l
    → All (IsOpen n (put c x f)) l
IsOpen-put n c x f [] free h = tt
IsOpen-put n c x f ((i, d) ∷ rest) free h = (ground arith, IsOpen-put n c x f rest free.1 h.1)

Answers-put :
    (c : ℕ) (x : Content) (f : ℕ → Channel)
    → ((d : ℕ) → Answers (f d).owner (f d).content)
    → Answers (f c).owner x
    → (d : ℕ) → Answers (put c x f d).owner (put c x f d).content
Answers-put c x f h hx d = elim (Bool-cases (d == c)) [
  | inl same ↦ let e : c ≡ d = ground arith in rw same (subst (λ k. Answers (f k).owner x) e hx)
  | inr other ↦ rw other (h d)
]

abbrev with_fresh : ℕ → ℕ → (ℕ → Channel) → ℕ → Channel
with_fresh n i f d = if d == n then record { owner = i; content = empty } else f d

IsOpen-fresh :
    (n i : ℕ) (f : ℕ → Channel) (l : List (ℕ × ℕ))
    → All (IsOpen n f) l
    → All (IsOpen (suc n) (with_fresh n i f)) l
IsOpen-fresh n i f [] h = tt
IsOpen-fresh n i f ((j, c) ∷ rest) h = (ground arith, IsOpen-fresh n i f rest h.1)

Answers-fresh :
    (n i : ℕ) (f : ℕ → Channel)
    → ((d : ℕ) → Answers (f d).owner (f d).content)
    → (d : ℕ) → Answers (with_fresh n i f d).owner (with_fresh n i f d).content
Answers-fresh n i f h d = elim (Bool-cases (d == n)) [
  | inl new ↦ rw new tt
  | inr old ↦ rw old (h d)
]

register-IsMatched : (i : ℕ) (s : Session) → IsMatched s → IsMatched (register i s)
unfolding register
register-IsMatched i s h =
    let slots = All-delete (IsOpen s.next_chan s.channels) i s.pending h.0 in
    (
      (ground arith, IsOpen-fresh s.next_chan i s.channels (delete i s.pending) slots),
      (delete-IsFree i s.pending, AreDistinct-delete i s.pending h.1),
      Answers-fresh s.next_chan i s.channels h.2,
      h.3,
    )

unregister-IsMatched : (i : ℕ) (s : Session) → IsMatched s → IsMatched (unregister i s)
unfolding unregister
unregister-IsMatched i s h =
    (All-delete _ i s.pending h.0, AreDistinct-delete i s.pending h.1, h.2, h.3)

send-IsMatched :
    (c : ℕ) (r : WorkerResponse) (s : Session)
    → IsMatched s
    → (s.channels c).owner ≡ r.id
    → (s.channels c).content ≡ empty
    → IsFree r.id s.pending
    → IsMatched (send c r s)
unfolding send
send-IsMatched c r s h own void free = rw void (
  IsOpen-put s.next_chan c (holds r) s.channels s.pending (rw own free) h.0,
  h.1,
  Answers-put c (holds r) s.channels h.2 (sym own),
  h.3,
)

deliver-IsMatched : (r : WorkerResponse) (s : Session) → IsMatched s → IsMatched (deliver r s)
unfolding deliver
deliver-IsMatched r s h =
    let freed = record s { pending = delete r.id s.pending } in
    let h' : IsMatched freed =
      (All-delete _ r.id s.pending h.0, AreDistinct-delete r.id s.pending h.1, h.2, h.3) in
    elim (Option-cases (lookup r.id s.pending)) [
      | inl nobody ↦ rw (deliver, nobody) h'
      | inr (c, is) ↦
          let slot = All-lookup (IsOpen s.next_chan s.channels) r.id c s.pending h.0 is in
          rw (deliver, is)
            (send-IsMatched c r freed h' slot.1 slot.2 (delete-IsFree r.id s.pending))
    ]

close-IsMatched :
    (c : ℕ) (s : Session)
    → s.pending ≡ []
    → IsMatched s
    → (s.channels c).content ≡ empty
    → IsMatched (close c s)
unfolding close
close-IsMatched c s none_left h void =
    rw (none_left, void) (tt, tt, Answers-put c closed s.channels h.2 tt, h.3)

-- Closing the channels of slots that are no longer in the map.
close_all-IsMatched :
    (l : List (ℕ × ℕ)) (s : Session)
    → s.pending ≡ []
    → IsMatched s
    → All (IsOpen s.next_chan s.channels) l
    → AreDistinct l
    → IsMatched (close_all l s)
unfolding close_all
close_all-IsMatched [] s none_left h opened distinct = h
close_all-IsMatched ((i, c) ∷ rest) s none_left h opened distinct =
    let own = opened.0.1 in
    let void = opened.0.2 in
    let rest_open : All (IsOpen s.next_chan (put c closed s.channels)) rest =
      IsOpen-put s.next_chan c closed s.channels rest (rw own distinct.0) opened.1 in
    let h' = close-IsMatched c s none_left h void in
    close_all-IsMatched rest (close c s) none_left h' rest_open distinct.1

fail_pending-IsMatched : (s : Session) → IsMatched s → IsMatched (fail_pending s)
unfolding fail_pending
fail_pending-IsMatched s h =
    close_all-IsMatched s.pending (record s { pending = [] }) refl (tt, tt, h.2, h.3) h.0 h.1

if-IsMatched :
    (b : Bool) (s t : Session) → IsMatched s → IsMatched t → IsMatched (if b then s else t)
if-IsMatched true s t hs ht = hs
if-IsMatched false s t hs ht = ht

read_line-IsMatched : (l : Line) (s : Session) → IsMatched s → IsMatched (read_line l s)
unfolding read_line
read_line-IsMatched (response r) s h =
    if-IsMatched s.reading (deliver r s) s (deliver-IsMatched r s h) h
read_line-IsMatched blank s h = h
read_line-IsMatched garbage s h =
    if-IsMatched s.reading _ s (fail_pending-IsMatched (record s { reading = false }) h) h
read_line-IsMatched end_of_file s h =
    if-IsMatched s.reading _ s (fail_pending-IsMatched (record s { reading = false }) h) h

begin-IsMatched : (written : Bool) (s : Session) → IsMatched s → IsMatched (begin written s)
unfolding begin
begin-IsMatched written s h =
    let made = register (fresh_id s) (record s { next_id = fresh_id s }) in
    let kept = register-IsMatched (fresh_id s) (record s { next_id = fresh_id s }) h in
    if-IsMatched written made (unregister (fresh_id s) made) kept
      (unregister-IsMatched (fresh_id s) made kept)

-- What happens to a session: a request, a line of the worker, the end of a wait.
pub data Step : Session → Session → Type 0 where
  asked : (written : Bool) {s : Session} → Step s (begin written s)
  read : (l : Line) {s : Session} → Step s (read_line l s)
  awaited : (by_context : Bool) (i c : ℕ) {s : Session} → Step s (await by_context i c s).1

pub data Reach : Session → Type 0 where
  start : Reach new_session
  next : {s t : Session} → Reach s → Step s t → Reach t

Step-IsMatched : {s t : Session} → IsMatched s → Step s t → IsMatched t
unfolding await
Step-IsMatched {s} h (asked written) = begin-IsMatched written s h
Step-IsMatched {s} h (read l) = read_line-IsMatched l s h
Step-IsMatched {s} h (awaited true i c) = unregister-IsMatched i s h
Step-IsMatched {s} h (awaited false i c) = h

-- Through any requests, failed writes, abandoned waits, replies in any order, repeated or unasked for,
-- and the end of the stream: what a request's channel holds is a reply with the request's own id, the
-- reader never sends on a full channel and no channel is closed twice, and every open slot still waits.
pub Reach-IsMatched : {s : Session} → Reach s → IsMatched s
unfolding new_session register
Reach-IsMatched start = ((ground arith, tt), (tt, tt), (λ c. Answers-fresh 0 0 _ (λ d. tt) c), refl)
Reach-IsMatched (next r step) = Step-IsMatched (Reach-IsMatched r) step
