-- ===== src/Queue/Ops.antt =====
-- The operations of src/queue.c, each with its return value and its effect on the world.
-- A call that takes the lock is split into the part under the lock and the rest.
use bare_kit.Prelude.{
  ℕ, zero, suc, ◌+◌, ℤ, pos, List, Bool, true, false, not, ◌&&◌, ◌||◌, Option, none, some, ◌==◌,
  ltb, if◌then◌else◌, is_negative, to_int, cap_int, take,
}
use bare_kit.Ring.{Ring, Message, Block, capacity, ring_empty, ring_full, ring_push, ring_shift}
use bare_kit.Queue.State.{
  queue_ok, queue_would_block, queue_closed, PortState, idle, opened, ended, closed, rank, is_ended,
  is_closed, Queue, Event, World, emit, inbox, outbox, state, peer_state, set_inbox, set_outbox,
  set_state, signal_thread, signal_peer, unowned,
}

-- `bare_queue_create`: `uv_slots` and `thread_slots` are what the fresh memory happens to hold, and
-- `allocated` is whether `malloc` gave any.
unfoldable pub create : Bool → (ℕ → Message) → (ℕ → Message) → Option Queue
create allocated uv_slots thread_slots =
    if allocated
    then some (record {
      to_uv = record { slots = uv_slots; head = 0; tail = 0 };
      to_thread = record { slots = thread_slots; head = 0; tail = 0 };
      uv_state = idle;
      thread_state = idle;
      destroyed = false;
      on_signal_thread = none;
      on_recv_uv = none;
      uv_port = record { is_uv = true; user = 0 };
      thread_port = record { is_uv = false; user = 0 };
    })
    else none

-- `bare_queue__on_wakeup_uv`, which libuv runs on the worklet's loop after a send.
unfoldable pub on_wakeup_uv : World → World
on_wakeup_uv w = elim w.queue.on_recv_uv [ none ↦ w | some f ↦ emit (Event.call_recv_uv f) w ]

publish_uv : ℕ → ℕ → World → World
publish_uv on_recv user w = record w {
  queue = record w.queue {
    uv_port = record w.queue.uv_port { user = user };
    on_recv_uv = some on_recv;
    uv_state = opened;
  };
}

unfoldable pub open_uv : ℕ → ℕ → World → World
unfolding publish_uv
open_uv on_recv user w =
    let w' =
      emit Event.unlock (publish_uv on_recv user (emit Event.lock (emit Event.async_init w))) in
    if ring_empty w.queue.to_uv then w' else emit Event.async_send w'

publish_thread : Option ℕ → ℕ → World → World
publish_thread on_signal user w = record w {
  queue = record w.queue {
    thread_port = record w.queue.thread_port { user = user };
    on_signal_thread = on_signal;
    thread_state = opened;
  };
}

-- The result is whether a port is returned.
unfoldable pub open_thread : Option ℕ → ℕ → World → Bool × World
unfolding publish_thread
open_thread on_signal user w =
    if rank w.queue.thread_state == rank idle
    then (let w' = publish_thread on_signal user (emit Event.lock w) in
        (true, emit Event.unlock (if ring_empty w'.queue.to_thread then w' else signal_thread w')))
    else (false, emit Event.unlock (emit Event.lock w))

-- `bare_queue_write` between taking the lock and giving it back.
unfoldable pub write_locked : Bool → Block → ℕ → World → ℤ × World
write_locked is_uv base len w =
    let ring = outbox is_uv w.queue in
    let push = ring_push ring (some base) len in
    let w' = record w { queue = set_outbox is_uv push.1 w.queue } in
    if is_ended (state is_uv w.queue) || is_closed (peer_state is_uv w.queue)
    then (queue_closed, w)
    else if not push.0
    then (queue_would_block, w')
    else (to_int len, if ring_empty ring then signal_peer is_uv w' else w')

-- `bare_queue_write` of the `len` bytes at `source`, when `malloc` gives a block.
unfoldable pub write : Bool → List ℕ → ℕ → World → ℤ × World
write is_uv source len w =
    let n = cap_int len in
    let base : Block = record { address = w.next; bytes = take n source } in
    let (result, w') =
      write_locked is_uv base n (emit Event.lock (record w { next = w.next + 1 })) in
    let w'' = emit Event.unlock w' in
    if len == 0
    then (pos 0, w)
    else (result, if is_negative result then emit (Event.free_block w.next) w'' else w'')

-- `bare_queue_read` under the lock: what was shifted, and whether the peer has ended.
unfoldable pub read_locked : Bool → World → Option Message × Bool × World
read_locked is_uv w =
    let ring = inbox is_uv w.queue in
    let (message, ring') = ring_shift ring in
    let w' = record w { queue = set_inbox is_uv ring' w.queue } in
    let shifted : Bool = elim message [ none ↦ false | some m ↦ true ] in
    (
      message,
      is_ended (peer_state is_uv w.queue),
      if shifted && ring_full ring then signal_peer is_uv w' else w',
    )

-- What `bare_queue_read` stores through `data` and `len`, if anything, and its result.
abbrev pub read_result : Option Message → Bool → ℤ × Option Message
read_result (some m) peer_ended = (queue_ok, some m)
read_result none true = (queue_ok, some (record { base = none; len = 0 }))
read_result none false = (queue_would_block, none)

unfoldable pub read : Bool → World → ℤ × Option Message × World
read is_uv w =
    let (message, peer_ended, w') = read_locked is_uv (emit Event.lock w) in
    let (status, out) = read_result message peer_ended in (status, out, emit Event.unlock w')

abbrev pub free_base : Option Block → World → World
free_base none w = w
free_base (some b) w = emit (Event.free_block b.address) w

-- `while (bare_queue__ring_shift(ring, &message)) free(message.base);` on fuel. The ring that is
-- left is the first result.
unfoldable pub drain : ℕ → Ring → World → Ring × World
drain zero r w = (r, w)
drain (suc fuel) r w =
    let (message, r') = ring_shift r in
    elim message [ none ↦ (r', w) | some m ↦ drain fuel r' (free_base m.base w) ]

-- The fuel is the number of slots of a ring.
unfoldable pub free : World → World
free w =
    let (to_uv, w1) = drain capacity w.queue.to_uv w in
    let (to_thread, w2) = drain capacity w.queue.to_thread w1 in
    emit Event.free_queue (
      emit Event.mutex_destroy
        (record w2 { queue = record w2.queue { to_uv = to_uv; to_thread = to_thread } }))

-- `bare_queue__advance` under the lock.
unfoldable pub advance_locked : Bool → PortState → World → World
advance_locked is_uv s w = signal_peer is_uv (
    if ltb (rank (state is_uv w.queue)) (rank s)
    then record w { queue = set_state is_uv s w.queue }
    else w)

abbrev pub free_if : Bool → World → World
free_if true w = free w
free_if false w = w

unfoldable pub advance : Bool → PortState → World → World
advance is_uv s w =
    let w' = advance_locked is_uv s (emit Event.lock w) in
    free_if (unowned w'.queue) (emit Event.unlock w')

unfoldable pub end : Bool → World → World
unfolding advance
end is_uv w = advance is_uv ended w

unfoldable pub close : Bool → World → World
unfolding advance
close is_uv w = advance is_uv closed w

unfoldable pub readable : Bool → World → Bool × World
readable is_uv w = (
  not (ring_empty (inbox is_uv w.queue)) || is_ended (peer_state is_uv w.queue),
  emit Event.unlock (emit Event.lock w),
)

unfoldable pub writable : Bool → World → Bool × World
writable is_uv w = (
  not (ring_full (outbox is_uv w.queue))
      || is_ended (state is_uv w.queue)
      || is_closed (peer_state is_uv w.queue),
  emit Event.unlock (emit Event.lock w),
)

unfoldable pub destroy : World → World
destroy w =
    let locked = emit Event.lock w in
    let w' = record locked { queue = record w.queue { destroyed = true } } in
    free_if (unowned w'.queue) (emit Event.unlock w')

unfoldable pub shutdown_uv : World → World
shutdown_uv w = emit Event.async_close w
