-- ===== src/Queue/Wake/Effects.antt =====
-- What single calls of src/queue.c do for an end that waits to read: writes, reads, ends and closes.
use bare_kit.Prelude.{
  ℕ, zero, suc, ◌+◌, ◌≤◌, ◌<◌, ◌≡◌, refl, ap, sym, ◌∙◌, ◌⊎◌, inl, inr, List, [], ◌∷◌, Bool, true,
  false, not, ◌&&◌, ◌||◌, some, arith, ◌==◌, cap_int, length, cap_int_lem,
}
use bare_kit.Ring.{Message, Block}
use bare_kit.Ring.Fifo
use bare_kit.Ring.Refine.{ring_push_refines}
use bare_kit.Queue.State.{PortState, World, is_ended, is_closed}
use bare_kit.Queue.Channel.{
  Channel, incoming, outgoing, own, peer, send, receive, receive_from, move_to,
}
use bare_kit.Queue.Ops.{write, read, advance}
use bare_kit.Queue.Calls.{Call, step, answer, Model, is_nil, release, message_at}
use bare_kit.Queue.Inv.{IsSound}
use bare_kit.Queue.Refine.{view}
use bare_kit.Queue.Correct.{
  step-Refines, model, ring_empty-is_nil, fresh_block, write_lem, write_of_zero, writes-cut,
  advance-Releases,
}
use bare_kit.Queue.Wake.{
  signals, heard, woken, starts, write-signals, read-signals, advance-signals,
}

-- Whether a read would find a message, or the end of the stream.
abbrev pub is_readable : Bool → Channel → Bool
is_readable b c = not (is_nil (incoming b c)) || is_ended (peer b c)

pub moved :
    (c : Call) (w : World) → IsSound w.queue → view (step c w).1.queue ≡ (answer c (model w)).1.0
moved c w v = ap (λ (m : Model). m.0) (step-Refines c w v).moves

-- What one call does for the end: signals are never taken back, and what makes the end readable
-- signals it.
abbrev pub Stirs : Bool → World → World → Type 0
Stirs b w w' =
    (signals b w.trace ≤ signals b w'.trace)
    × (is_readable b (view w'.queue) ≡ true
        → (is_readable b (view w.queue) ≡ true) ⊎ (signals b w.trace < signals b w'.trace))

pub quiet :
    (b : Bool) (w w' : World)
    → signals b w'.trace ≡ signals b w.trace
    → (is_readable b (view w'.queue) ≡ true → is_readable b (view w.queue) ≡ true)
    → Stirs b w w'
quiet b w w' e h = (omega arith, λ r. inl (h r))

loud : (b : Bool) (w w' : World) → signals b w'.trace ≡ signals b w.trace + 1 → Stirs b w w'
loud b w w' e = (omega arith, λ r. inr (omega arith))

-- Whether a send is accepted and finds nothing before it.
abbrev pub sends_first : Bool → Channel → Bool
sends_first b c =
    not (is_ended (own b c) || is_closed (peer b c))
    && not (length (outgoing b c) == 1023)
    && is_nil (outgoing b c)

pub starts_lem :
    (b : Bool) (base : Block) (len : ℕ) (w : World)
    → IsSound w.queue
    → starts b base len w ≡ sends_first b (view w.queue)
unfolding view Fifo.push
starts_lem true base len w v = ground (
  arith,
  ring_empty-is_nil w.queue.to_thread v.to_thread_valid,
  ring_push_refines (some base) len v.to_thread_valid,
)
starts_lem false base len w v = ground (
  arith,
  ring_empty-is_nil w.queue.to_uv v.to_uv_valid,
  ring_push_refines (some base) len v.to_uv_valid,
)

-- A send makes the other end readable only as the first message, and never its own end.
send-readable :
    (b : Bool) (m : Message) (c : Channel)
    → is_readable (not b) (send b m c).1 ≡ true
    → (is_readable (not b) c ≡ true) ⊎ (sends_first b c ≡ true)
unfolding send
send-readable true m c h = ground arith
send-readable false m c h = ground arith

send-readable_own :
    (b : Bool) (m : Message) (c : Channel) → is_readable b (send b m c).1 ≡ is_readable b c
unfolding send
send-readable_own true m c = ground arith
send-readable_own false m c = ground arith

-- The channel behind a write of a positive length.
pub written :
    (b : Bool) (source : List ℕ) (k : ℕ) (w : World)
    → IsSound w.queue
    → view (write b source (suc k) w).1.queue
      ≡ (send b (message_at w.next source (cap_int (suc k))) (view w.queue)).1
written b source k w v =
    let n = cap_int (suc k) in
    ap view (write_lem b source (suc k) w (omega arith)).1
    ∙ (writes-cut b source n w (omega (arith, cap_int_lem (suc k))) v).moves

pub woken_lem :
    (go b : Bool) (w : World)
    → go ≡ true
    → heard b w.queue ≡ true
    → woken go b w ≡ signals b w.trace + 1
woken_lem go b w e h = rw (e, h) refl

woken-grows : (go b : Bool) (w : World) → signals b w.trace ≤ woken go b w
woken-grows go b w = ground arith

other_writes-Stirs :
    (b : Bool) (source : List ℕ) (k : ℕ) (w : World)
    → IsSound w.queue
    → heard (not b) w.queue ≡ true
    → Stirs (not b) w (write b source (suc k) w).1
other_writes-Stirs b source k w v h =
    let n = cap_int (suc k) in
    let go = starts b (fresh_block w source n) n w in
    let s = (write-signals b source (suc k) w (omega arith)).0 in
    (
      omega (arith, s, woken-grows go (not b) w),
      λ r.
          elim (send-readable b (message_at w.next source n) (view w.queue)
            (rw (written b source k w v) at r)) [
              | inl before ↦ inl before
              | inr first ↦ inr (
                  omega (
                    arith,
                    s,
                    woken_lem go (not b) w (starts_lem b (fresh_block w source n) n w v ∙ first) h,
                  ))
            ],
    )

own_writes-Stirs :
    (b : Bool) (source : List ℕ) (k : ℕ) (w : World)
    → IsSound w.queue
    → Stirs b w (write b source (suc k) w).1
own_writes-Stirs b source k w v =
    quiet b w (write b source (suc k) w).1 (write-signals b source (suc k) w (omega arith)).1 (λ r.
      sym (send-readable_own b (message_at w.next source (cap_int (suc k))) (view w.queue))
      ∙ (rw (written b source k w v) at r))

receive_from-readable :
    (l : List Message) (over b p : Bool) (c : Channel)
    → l ≡ incoming p c
    → is_readable b (receive_from l over p c).1 ≡ true
    → is_readable b c ≡ true
receive_from-readable [] true b p c e h = h
receive_from-readable [] false b p c e h = h
receive_from-readable (m ∷ l) over true true c e h = ground arith
receive_from-readable (m ∷ l) over false false c e h = ground arith
receive_from-readable (m ∷ l) over true false c e h = h
receive_from-readable (m ∷ l) over false true c e h = h

receive-readable :
    (b p : Bool) (c : Channel) → is_readable b (receive p c).1 ≡ true → is_readable b c ≡ true
unfolding receive
receive-readable b p c h = receive_from-readable (incoming p c) _ b p c refl h

pub release-readable :
    (b : Bool) (c : Channel) → is_readable b (release c) ≡ true → is_readable b c ≡ true
release-readable true c h = ground arith
release-readable false c h = ground arith

move_to-readable :
    (b : Bool) (s : PortState) (c : Channel)
    → is_readable b (move_to b s c) ≡ true
    → is_readable b c ≡ true
unfolding move_to
move_to-readable true s c h = ground arith
move_to-readable false s c h = ground arith

pub read-view :
    (p : Bool) (w : World)
    → IsSound w.queue
    → view (read p w).2.queue ≡ (receive p (view w.queue)).1
unfolding step answer
read-view p w v = moved (Call.reads p) w v

read-grows : (b p : Bool) (w : World) → signals b w.trace ≤ signals b (read p w).2.trace
read-grows true true w = omega (arith, (read-signals true w).1)
read-grows false false w = omega (arith, (read-signals false w).1)
read-grows true false w = rw (read-signals false w).0 (woken-grows _ true w)
read-grows false true w = rw (read-signals true w).0 (woken-grows _ false w)

pub reads-Stirs : (b p : Bool) (w : World) → IsSound w.queue → Stirs b w (read p w).2
reads-Stirs b p w v =
    (read-grows b p w, λ r. inl (receive-readable b p (view w.queue) (rw (read-view p w v) at r)))

own_advance-Stirs :
    (b : Bool) (s : PortState) (w : World) → IsSound w.queue → Stirs b w (advance b s w)
own_advance-Stirs b s w v = quiet b w (advance b s w) (advance-signals b s w v).1 (λ r.
    move_to-readable b s (view w.queue)
      (release-readable b (move_to b s (view w.queue)) (rw (advance-Releases b s w v).0 at r)))

other_advance-Stirs :
    (b : Bool) (s : PortState) (w : World)
    → IsSound w.queue
    → heard (not b) w.queue ≡ true
    → Stirs (not b) w (advance b s w)
other_advance-Stirs b s w v h =
    loud (not b) w (advance b s w) ((advance-signals b s w v).0 ∙ woken_lem true (not b) w refl h)

pub advance-Stirs :
    (b p : Bool) (s : PortState) (w : World)
    → IsSound w.queue
    → heard b w.queue ≡ true
    → Stirs b w (advance p s w)
advance-Stirs true true s w v h = own_advance-Stirs true s w v
advance-Stirs false false s w v h = own_advance-Stirs false s w v
advance-Stirs true false s w v h = other_advance-Stirs false s w v h
advance-Stirs false true s w v h = other_advance-Stirs true s w v h

pub writes-Stirs :
    (b p : Bool) (source : List ℕ) (len : ℕ) (w : World)
    → IsSound w.queue
    → heard b w.queue ≡ true
    → Stirs b w (write p source len w).1
writes-Stirs b p source zero w v h = rw (write_of_zero p source w) (quiet b w w refl (λ r. r))
writes-Stirs true true source (suc k) w v h = own_writes-Stirs true source k w v
writes-Stirs false false source (suc k) w v h = own_writes-Stirs false source k w v
writes-Stirs true false source (suc k) w v h = other_writes-Stirs false source k w v h
writes-Stirs false true source (suc k) w v h = other_writes-Stirs true source k w v h
