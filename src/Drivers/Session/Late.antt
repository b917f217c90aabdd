-- ===== src/Drivers/Session/Late.antt =====
-- Late replies and a stream that has ended: location_session.go.
use maps_main.Shared.{
  ℕ, ◌≡◌, ◌≢◌, refl, ◌∙◌, ap, Bool, true, false, none, List, [], ◌∷◌, arith, if◌then◌else◌,
}
use maps_main.Drivers.Session.{
  WorkerResponse, holds, Session, lookup, delete, register, unregister, send, deliver, Line,
  response, blank, garbage, end_of_file, read_line, read_lines, fresh_id, begin, await, timed_out,
  blocked, outcome,
}

lookup-delete : (i : ℕ) (l : List (ℕ × ℕ)) → lookup i (delete i l) ≡ none
lookup-delete i [] = refl
lookup-delete i ((j, c) ∷ rest) = ground (arith, lookup-delete i rest)

delete-delete : (i : ℕ) (l : List (ℕ × ℕ)) → delete i (delete i l) ≡ delete i l
delete-delete i [] = refl
delete-delete i ((j, c) ∷ rest) = ground (arith, delete-delete i rest)

still_nobody : (i j : ℕ) (l : List (ℕ × ℕ)) → lookup i l ≡ none → lookup i (delete j l) ≡ none
still_nobody i j [] h = refl
still_nobody i j ((k, c) ∷ rest) h = ground (arith, still_nobody i j rest)

delete-id : (i : ℕ) (l : List (ℕ × ℕ)) → lookup i l ≡ none → delete i l ≡ l
delete-id i [] h = refl
delete-id i ((k, c) ∷ rest) h = ground (arith, delete-id i rest)

if_same : {A : Type 0} {x y : A} (b : Bool) → x ≡ y → (if b then x else y) ≡ y
if_same true h = h
if_same false h = refl

-- A reply that nobody waits for changes nothing.
deliver-nobody : (r : WorkerResponse) (s : Session) → lookup r.id s.pending ≡ none → deliver r s ≡ s
unfolding deliver
deliver-nobody r s h = let gone = delete-id r.id s.pending h in simp (deliver, h, gone)

lookup-begin :
    (r : WorkerResponse) (s : Session)
    → lookup r.id s.pending ≡ none
    → r.id ≢ fresh_id s
    → lookup r.id (begin true s).pending ≡ none
unfolding begin register
lookup-begin r s h other =
    let rest = still_nobody r.id (fresh_id s) s.pending h in ground (arith, rest)

-- The reply to the newest request reaches its channel.
deliver-begin :
    (r : WorkerResponse) (s : Session)
    → r.id ≡ fresh_id s
    → ((deliver r (begin true s)).channels s.next_chan).content ≡ holds r
unfolding begin register deliver send
deliver-begin r s h = ground arith

reading-begin : (s : Session) → (begin true s).reading ≡ s.reading
unfolding begin register
reading-begin s = refl

read_response :
    (r : WorkerResponse) (s : Session) → s.reading ≡ true → read_line (response r) s ≡ deliver r s
unfolding read_line
read_response r s on = simp (read_line, on)

-- A request gets its own reply, and a reply that arrives before it for a request that nobody waits for
-- any more is dropped, as long as the reader is at work.
late_reply :
    (s : Session) (late r : WorkerResponse)
    → s.reading ≡ true
    → lookup late.id s.pending ≡ none
    → late.id ≢ fresh_id s
    → r.id ≡ fresh_id s
    → (await false
        (fresh_id s)
        s.next_chan
        (read_line (response r) (read_line (response late) (begin true s)))).0
      ≡ outcome (holds r)
unfolding await
late_reply s late r on gone other own =
    let on' = reading-begin s ∙ on in
    let dropped =
      read_response late (begin true s) on'
      ∙ deliver-nobody late (begin true s) (lookup-begin late s gone other) in
    let told = ap (read_line (response r)) dropped ∙ read_response r (begin true s) on' in
    ap (λ t. outcome (t.channels s.next_chan).content) told ∙ ap outcome (deliver-begin r s own)

-- An abandoned wait: its slot is released, so that its reply, whenever it comes, changes nothing.
await_abandoned :
    (s : Session) (r : WorkerResponse) (c : ℕ)
    → let after = (await true r.id c s).1 in
      ((await true r.id c s).0 ≡ timed_out) × (read_line (response r) after ≡ after)
unfolding await read_line unregister
await_abandoned s r c =
    let quiet =
      deliver-nobody r (record s { pending = delete r.id s.pending })
        (lookup-delete r.id s.pending) in
    (refl, if_same s.reading quiet)

read_line-off : (l : Line) (s : Session) → s.reading ≡ false → read_line l s ≡ s
unfolding read_line
read_line-off (response r) s off = simp (read_line, off)
read_line-off blank s off = refl
read_line-off garbage s off = simp (read_line, off)
read_line-off end_of_file s off = simp (read_line, off)

read_lines-off : (ls : List Line) (s : Session) → s.reading ≡ false → read_lines ls s ≡ s
unfolding read_lines read_line
read_lines-off [] s off = refl
read_lines-off (l ∷ ls) s off = ap (read_lines ls) (read_line-off l s off) ∙ read_lines-off ls s off

-- Once the reader has stopped, at a line it cannot parse or at the end of the stream, a request whose
-- write succeeds is never answered: whatever the worker prints, the wait ends only by its context.
reader_stopped :
    (s : Session) (ls : List Line)
    → s.reading ≡ false
    → (await false (fresh_id s) s.next_chan (read_lines ls (begin true s))).0 ≡ blocked
unfolding await begin register
reader_stopped s ls off =
    ap (λ t. outcome (t.channels s.next_chan).content) (read_lines-off ls (begin true s) off)
    ∙ ground arith
