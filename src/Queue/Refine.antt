-- ===== src/Queue/Refine.antt =====
-- The queue implements the channel: each critical section of src/queue.c acts on the messages and
-- states as the channel does, and keeps the rings valid.
use bare_kit.Prelude.{
  ℕ, ◌≡◌, ◌<◌, ℤ, Bool, true, false, Option, none, some, arith, to_int_of_lt, ◌^◌,
}
use bare_kit.Ring.{Message, Block, ring_push, ring_shift}
use bare_kit.Ring.Inv.{IsValid, ring_push-IsValid, ring_shift-IsValid}
use bare_kit.Ring.Fifo
use bare_kit.Ring.Refine.{contents, ring_push_refines, ring_shift_refines}
use bare_kit.Queue.State.{PortState, Queue, World, inbox, outbox, set_inbox, set_outbox, set_state}
use bare_kit.Queue.Channel.{
  Channel, Received, message, end_of_stream, nothing_yet, send, receive, move_to,
}
use bare_kit.Queue.Calls.{sent_code}
use bare_kit.Queue.Ops.{write_locked, read_locked, advance_locked}
use bare_kit.Queue.Inv.{IsSound, signal_peer-Keeps}

-- The channel that a queue stands for.
unfoldable pub view : Queue → Channel
view q = record {
  to_uv = contents q.to_uv;
  to_thread = contents q.to_thread;
  uv_state = q.uv_state;
  thread_state = q.thread_state;
  destroyed = q.destroyed;
}

pub record Sends (is_uv : Bool) (m : Message) (w : World) (r : ℤ × World) : Type 0 where
  pub result : r.0 ≡ sent_code m.len (send is_uv m (view w.queue)).0
  pub moves : view r.1.queue ≡ (send is_uv m (view w.queue)).1
  pub sound : IsSound r.1.queue
  pub kept : r.1.next ≡ w.next

-- The world of `write_locked` behind the push, and that of `read_locked` behind the shift.
abbrev pub pushed : Bool → Block → ℕ → World → World
pushed is_uv base len w = record w {
  queue = set_outbox is_uv (ring_push (outbox is_uv w.queue) (some base) len).1 w.queue;
}

abbrev pub shifted : Bool → World → World
shifted is_uv w = record w { queue = set_inbox is_uv (ring_shift (inbox is_uv w.queue)).1 w.queue }

-- The end's own way out, and the way in, as a section's facts.
pub outbox-IsValid : (is_uv : Bool) {q : Queue} → IsSound q → IsValid (outbox is_uv q)
outbox-IsValid true v = v.to_thread_valid
outbox-IsValid false v = v.to_uv_valid

pub inbox-IsValid : (is_uv : Bool) {q : Queue} → IsSound q → IsValid (inbox is_uv q)
inbox-IsValid true v = v.to_uv_valid
inbox-IsValid false v = v.to_thread_valid

pub write_locked-Sends :
    (is_uv : Bool) (base : Block) (len : ℕ) (w : World)
    → len < 2 ^ 31
    → IsSound w.queue
    → Sends is_uv (record { base = some base; len = len }) w (write_locked is_uv base len w)
unfolding write_locked view send Fifo.push
write_locked-Sends true base len w small v = record {
  result = ground (arith, to_int_of_lt len, ring_push_refines (some base) len v.to_thread_valid);
  moves = ground (
    arith,
    ring_push_refines (some base) len v.to_thread_valid,
    signal_peer-Keeps true (pushed true base len w),
  );
  sound = ground (
    arith,
    ring_push-IsValid (some base) len v.to_thread_valid,
    signal_peer-Keeps true (pushed true base len w),
  );
  kept = ground (arith, signal_peer-Keeps true (pushed true base len w));
}
write_locked-Sends false base len w small v = record {
  result = ground (arith, to_int_of_lt len, ring_push_refines (some base) len v.to_uv_valid);
  moves = ground (
    arith,
    ring_push_refines (some base) len v.to_uv_valid,
    signal_peer-Keeps false (pushed false base len w),
  );
  sound = ground (
    arith,
    ring_push-IsValid (some base) len v.to_uv_valid,
    signal_peer-Keeps false (pushed false base len w),
  );
  kept = ground (arith, signal_peer-Keeps false (pushed false base len w));
}

-- What a read's answer says in terms of the channel.
abbrev pub received_of : Option Message → Bool → Received
received_of (some m) over = message m
received_of none true = end_of_stream
received_of none false = nothing_yet

pub record Receives (is_uv : Bool) (w : World) (r : Option Message × Bool × World) : Type 0 where
  pub result : received_of r.0 r.1 ≡ (receive is_uv (view w.queue)).0
  pub moves : view r.2.queue ≡ (receive is_uv (view w.queue)).1
  pub sound : IsSound r.2.queue
  pub kept : r.2.next ≡ w.next

pub read_locked-Receives :
    (is_uv : Bool) (w : World) → IsSound w.queue → Receives is_uv w (read_locked is_uv w)
unfolding read_locked view receive Fifo.shift
read_locked-Receives true w v = record {
  result = ground (arith, ring_shift_refines v.to_uv_valid);
  moves = ground (arith, ring_shift_refines v.to_uv_valid, signal_peer-Keeps true (shifted true w));
  sound = ground (arith, ring_shift-IsValid v.to_uv_valid, signal_peer-Keeps true (shifted true w));
  kept = ground (arith, signal_peer-Keeps true (shifted true w));
}
read_locked-Receives false w v = record {
  result = ground (arith, ring_shift_refines v.to_thread_valid);
  moves =
      ground
        (arith, ring_shift_refines v.to_thread_valid, signal_peer-Keeps false (shifted false w));
  sound =
      ground
        (arith, ring_shift-IsValid v.to_thread_valid, signal_peer-Keeps false (shifted false w));
  kept = ground (arith, signal_peer-Keeps false (shifted false w));
}

pub record Advances (is_uv : Bool) (s : PortState) (w w' : World) : Type 0 where
  pub moves : view w'.queue ≡ move_to is_uv s (view w.queue)
  pub sound : IsSound w'.queue
  pub kept : w'.next ≡ w.next

abbrev pub advanced : Bool → PortState → World → World
advanced is_uv s w = record w { queue = set_state is_uv s w.queue }

pub advance_locked-Advances :
    (is_uv : Bool) (s : PortState) (w : World)
    → IsSound w.queue
    → Advances is_uv s w (advance_locked is_uv s w)
unfolding advance_locked view move_to
advance_locked-Advances true s w v =
    ground (arith, signal_peer-Keeps true (advanced true s w), signal_peer-Keeps true w)
advance_locked-Advances false s w v =
    ground (arith, signal_peer-Keeps false (advanced false s w), signal_peer-Keeps false w)
