-- ===== src/Ipc/Ready.antt =====
-- What `bare_ipc__dispatch` of src/ipc.c tells a poll of an ipc.
use bare_kit.Prelude.{
  ℕ, zero, suc, ◌+◌, ◌<◌, ◌≡◌, refl, ap, ◌∙◌, List, [], ◌∷◌, ◌++◌, Bool, true, false, not, ◌||◌,
  Option, none, some, arith, if◌then◌else◌, bit_and, length, drop, length-drop, ◌==◌,
}
use bare_kit.Ring.{Block, Message}
use bare_kit.Ring.Refine.{contents}
use bare_kit.Queue.Ops
use bare_kit.Queue.Calls.{is_nil}
use bare_kit.Queue.Correct.{ring_empty-is_nil}
use bare_kit.Ipc.State.{Host, Poll, Act, clear}
use bare_kit.Ipc.Ops.{ready_open, is_some, dispatch, dispatch_poll, dispatch_cb, dispatch_of}
use bare_kit.Queue.Payload.{AllFull, payloads}
use bare_kit.Ipc.Stream.{stream, is_over, IsLeft, IsGood}

-- What a poll that asks for both is told in the two bits.
events_of : Bool → Bool → ℕ → ℕ
events_of r s events =
    let ready = if r then events else clear events 1 in if s then ready else clear ready 2

events_lem :
    (r s : Bool) (events : ℕ)
    → events < 4
    → events_of r s events
      ≡ (if r then bit_and events 1 else 0) + (if s then bit_and events 2 else 0)
unfolding events_of
events_lem true true zero h = refl
events_lem true true (suc zero) h = refl
events_lem true true (suc (suc zero)) h = refl
events_lem true true (suc (suc (suc zero))) h = refl
events_lem true false zero h = refl
events_lem true false (suc zero) h = refl
events_lem true false (suc (suc zero)) h = refl
events_lem true false (suc (suc (suc zero))) h = refl
events_lem false true zero h = refl
events_lem false true (suc zero) h = refl
events_lem false true (suc (suc zero)) h = refl
events_lem false true (suc (suc (suc zero))) h = refl
events_lem false false zero h = refl
events_lem false false (suc zero) h = refl
events_lem false false (suc (suc zero)) h = refl
events_lem false false (suc (suc (suc zero))) h = refl
events_lem r s (suc (suc (suc (suc n)))) h = absurd (omega arith)

is_nil-append : (l r : List ℕ) → 0 < length l → is_nil (l ++ r) ≡ false
is_nil-append [] r h = absurd (omega arith)
is_nil-append (x ∷ l) r h = refl

is_nil-payloads : (l : List Message) → AllFull l → is_nil (payloads l) ≡ is_nil l
unfolding payloads
is_nil-payloads [] f = refl
is_nil-payloads (m ∷ ms) ((b, e, k, some_len, small), f) =
    rw e (is_nil-append b.bytes (payloads ms) (omega arith))

-- An open ipc can be read from exactly if its stream has bytes or is over.
can_read_lem :
    (o : Option Block) (h : Host)
    → h.ipc.pending.base ≡ o
    → h.ipc.port ≡ true
    → IsGood h
    → (if is_some o then true else (Ops.readable false h.world).0)
      ≡ (is_over h || not (is_nil (stream h)))
unfolding stream is_over Ops.readable
can_read_lem none h e p g =
    let q = h.world.queue.to_thread in
    rw (p, e)
      (ground
        (arith, ring_empty-is_nil q g.sound.to_thread_valid, is_nil-payloads (contents q) g.full))
can_read_lem (some b) h e p g =
    let l : IsLeft (some b) h.ipc = rw e at g.left in
    let rest = payloads (contents h.world.queue.to_thread) in
    rw (p, e)
      (ground (
        arith,
        is_nil-append (drop h.ipc.offset b.bytes) rest
            (omega (arith, length-drop h.ipc.offset b.bytes, l.1, l.2)),
      ))

ready_open_split :
    (h : Host) (events : ℕ)
    → (ready_open h events).0
      ≡ events_of
          (if is_some h.ipc.pending.base then true else (Ops.readable false h.world).0)
          (Ops.writable false h.world).0
          events
unfolding ready_open events_of Ops.writable Ops.readable
ready_open_split h events = ground arith

ready_open_lem :
    (h : Host) (events : ℕ)
    → h.ipc.port ≡ true
    → events < 4
    → IsGood h
    → (ready_open h events).0
      ≡ (if is_over h || not (is_nil (stream h)) then bit_and events 1 else 0)
        + (if (Ops.writable false h.world).0 then bit_and events 2 else 0)
ready_open_lem h events p small g =
    let s = (Ops.writable false h.world).0 in
    let r = if is_some h.ipc.pending.base then true else (Ops.readable false h.world).0 in
    ready_open_split h events
    ∙ events_lem r s events small
    ∙ ap (λ (b : Bool). (if b then bit_and events 1 else 0) + (if s then bit_and events 2 else 0))
        (can_read_lem h.ipc.pending.base h refl p g)

-- What a poll is to be told of its events: at an open ipc, those that are there, at a closed one all.
abbrev pub ready_events : Host → ℕ → ℕ
ready_events h events =
    if h.ipc.port
    then (if is_over h || not (is_nil (stream h)) then bit_and events 1 else 0)
      + (if (Ops.writable false h.world).0 then bit_and events 2 else 0)
    else events

-- The log behind a dispatch: the lock, its release, and a call of the poll if there is something.
abbrev pub dispatched : ℕ → ℕ → List Act → List Act
dispatched cb ready l =
    let calm = Act.unlock ∷ Act.lock ∷ l in
    if ready == 0 then calm else Act.call_poll cb ready ∷ calm

if-true :
    (b : Bool) {x y : ℕ} (n : ℕ) → (b ≡ true → x ≡ y) → (if b then x else n) ≡ (if b then y else n)
if-true true n e = e refl
if-true false n e = refl

ready-ready_events :
    (h : Host) (events : ℕ)
    → events < 4
    → IsGood h
    → (if h.ipc.port then (ready_open h events).0 else events) ≡ ready_events h events
ready-ready_events h events small g =
    if-true h.ipc.port events (λ p. ready_open_lem h events p small g)

dispatch_split :
    (h : Host) (poll : Poll) (cb : ℕ)
    → (dispatch_poll h poll cb).log
      ≡ dispatched cb (if h.ipc.port then (ready_open h poll.events).0 else poll.events) h.log
unfolding dispatch_poll
dispatch_split h poll cb = ground arith

-- At an ipc with valid rings, whole messages and an offset inside the message at hand, a dispatch
-- takes the lock, lets it go, and calls the callback of a poll that is set with one and with no
-- events but the two: at an open ipc, with readable exactly if it asked for it and the stream has
-- bytes or is over, and with writable exactly if it asked for it and the queue says that a write
-- would not block; at a closed ipc with all it asked for; and not at all if that leaves nothing.
pub dispatch_lem :
    (h : Host) (poll : Poll) (cb : ℕ)
    → h.ipc.poll ≡ some poll
    → poll.cb ≡ some cb
    → poll.events < 4
    → IsGood h
    → (dispatch h).log ≡ dispatched cb (ready_events h poll.events) h.log
unfolding dispatch
dispatch_lem h poll cb e f small g =
    ap (λ o. (dispatch_of h o).log) e
    ∙ ap (λ o. (dispatch_cb h poll o).log) f
    ∙ dispatch_split h poll cb
    ∙ ap (λ n. dispatched cb n h.log) (ready-ready_events h poll.events small g)
