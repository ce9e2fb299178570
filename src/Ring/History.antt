-- ===== src/Ring/History.antt =====
-- Any history of calls on a ring of src/queue.c, beside the same on a first-in first-out queue.
use bare_kit.Prelude.{ℕ, ◌≡◌, refl, ap, ◌∙◌, List, [], ◌∷◌, Bool, Option, ◌==◌, length}
use bare_kit.Ring.{Ring, Message, Block, ring_empty, ring_full, ring_push, ring_shift}
use bare_kit.Ring.Inv.{IsValid, ring_push-IsValid, ring_shift-IsValid}
use bare_kit.Ring.Fifo
use bare_kit.Ring.Refine.{
  contents, length-contents, ring_counts, ring_push_refines, ring_shift_refines,
}

pub data RingCall : Type 0 where
  pushes : Option Block → ℕ → RingCall
  shifts asks_empty asks_full : RingCall

pub data RingReply : Type 0 where
  pushed says : Bool → RingReply
  shifted : Option Message → RingReply

abbrev pub ring_call : RingCall → Ring → RingReply × Ring
ring_call (pushes base len) r = let (ok, r') = ring_push r base len in (pushed ok, r')
ring_call shifts r = let (m, r') = ring_shift r in (shifted m, r')
ring_call asks_empty r = (says (ring_empty r), r)
ring_call asks_full r = (says (ring_full r), r)

abbrev pub fifo_call : RingCall → List Message → RingReply × List Message
fifo_call (pushes base len) q =
    let (ok, q') = Fifo.push q (record { base = base; len = len }) in (pushed ok, q')
fifo_call shifts q = let (m, q') = Fifo.shift q in (shifted m, q')
fifo_call asks_empty q = (says (length q == 0), q)
fifo_call asks_full q = (says (length q == Fifo.room), q)

unfoldable pub ring_calls : List RingCall → Ring → List RingReply × Ring
ring_calls [] r = ([], r)
ring_calls (c ∷ cs) r =
    let (reply, r') = ring_call c r in
    let (replies, r'') = ring_calls cs r' in (reply ∷ replies, r'')

unfoldable pub fifo_calls : List RingCall → List Message → List RingReply × List Message
fifo_calls [] q = ([], q)
fifo_calls (c ∷ cs) q =
    let (reply, q') = fifo_call c q in
    let (replies, q'') = fifo_calls cs q' in (reply ∷ replies, q'')

-- The ring as the queue of its messages.
abbrev pub seen : {A : Type 0} → A × Ring → A × List Message
seen (a, r) = (a, contents r)

call_refines :
    (c : RingCall) (r : Ring) → IsValid r → seen (ring_call c r) ≡ fifo_call c (contents r)
call_refines (pushes base len) r v =
    ap (λ (p : Bool × List Message). (pushed p.0, p.1)) (ring_push_refines base len v)
call_refines shifts r v =
    ap (λ (p : Option Message × List Message). (shifted p.0, p.1)) (ring_shift_refines v)
call_refines asks_empty r v =
    ap (λ b. (says b, contents r)) (rw (length-contents r) (ring_counts r v).0)
call_refines asks_full r v =
    ap (λ b. (says b, contents r)) (rw (length-contents r) (ring_counts r v).1)

call-IsValid : (c : RingCall) (r : Ring) → IsValid r → IsValid (ring_call c r).1
call-IsValid (pushes base len) r v = ring_push-IsValid base len v
call-IsValid shifts r v = ring_shift-IsValid v
call-IsValid asks_empty r v = v
call-IsValid asks_full r v = v

-- Any history of pushes, shifts and tests on a valid ring gets the replies of a first-in first-out
-- list of at most 1023 messages, and leaves the ring holding the messages of that list.
pub ring_calls_refine :
    (cs : List RingCall) (r : Ring)
    → IsValid r
    → seen (ring_calls cs r) ≡ fifo_calls cs (contents r)
unfolding ring_calls fifo_calls
ring_calls_refine [] r v = refl
ring_calls_refine (c ∷ cs) r v =
    ap (λ (x : List RingReply × List Message). ((ring_call c r).0 ∷ x.0, x.1))
      (ring_calls_refine cs (ring_call c r).1 (call-IsValid c r v))
    ∙ ap (λ (p : RingReply × List Message). (p.0 ∷ (fifo_calls cs p.1).0, (fifo_calls cs p.1).1))
        (call_refines c r v)
