-- ===== src/Queue/State.antt =====
-- `bare_queue_t` and its ports (src/queue.h), and the helpers of src/queue.c that read a port's
-- side of it. A port is named by its `is_uv`, since a queue has one port of each kind and its
-- back pointer never changes. What a call does outside the struct (the lock, libuv, the callbacks,
-- `free`) is recorded in a trace, newest event first.
use bare_kit.Prelude.{
  ℕ, ℤ, pos, negsuc, List, ◌∷◌, Bool, true, false, ◌&&◌, ◌||◌, Option, none, some, leb, ◌==◌,
  if◌then◌else◌,
}
use bare_kit.Ring.{Ring}

-- `bare_queue_ok`, `bare_queue_would_block` and `bare_queue_closed`.
abbrev pub queue_ok : ℤ
queue_ok = pos 0

abbrev pub queue_would_block : ℤ
queue_would_block = negsuc 0

abbrev pub queue_closed : ℤ
queue_closed = negsuc 1

-- `bare_queue_state_t`; the code compares its members by their numbers.
pub data PortState : Type 0 where
  idle opened ended closed : PortState

abbrev pub rank : PortState → ℕ
rank idle = 0
rank opened = 1
rank ended = 2
rank closed = 3

abbrev pub is_ended : PortState → Bool
is_ended s = leb (rank ended) (rank s)

abbrev pub is_closed : PortState → Bool
is_closed closed = true
is_closed _ = false

-- `bare_queue_port_t`; `user` is its `data` pointer, 0 for a null pointer.
pub record Port : Type 0 where
  pub is_uv : Bool
  pub user : ℕ

-- A callback is the number of its function, or `none` for a null pointer.
pub record Queue : Type 0 where
  pub to_uv : Ring
  pub to_thread : Ring
  pub uv_state : PortState
  pub thread_state : PortState
  pub destroyed : Bool
  pub on_signal_thread : Option ℕ
  pub on_recv_uv : Option ℕ
  pub uv_port : Port
  pub thread_port : Port

pub data Event : Type 0 where
  lock unlock mutex_destroy free_queue : Event
  async_init async_send async_close async_ref async_unref : Event
  call_signal_thread : ℕ → Event
  call_recv_uv : ℕ → Event
  free_block : ℕ → Event

-- The queue, the address that the next `malloc` gives, and the trace.
pub record World : Type 0 where
  pub queue : Queue
  pub next : ℕ
  pub trace : List Event

abbrev pub emit : Event → World → World
emit e w = record w { trace = e ∷ w.trace }

abbrev pub inbox : Bool → Queue → Ring
inbox is_uv q = if is_uv then q.to_uv else q.to_thread

abbrev pub outbox : Bool → Queue → Ring
outbox is_uv q = if is_uv then q.to_thread else q.to_uv

abbrev pub state : Bool → Queue → PortState
state is_uv q = if is_uv then q.uv_state else q.thread_state

abbrev pub peer_state : Bool → Queue → PortState
peer_state is_uv q = if is_uv then q.thread_state else q.uv_state

-- The writes that go through the pointers of `inbox`, `outbox` and `state`.
abbrev pub set_inbox : Bool → Ring → Queue → Queue
set_inbox is_uv r q = if is_uv then record q { to_uv = r } else record q { to_thread = r }

abbrev pub set_outbox : Bool → Ring → Queue → Queue
set_outbox is_uv r q = if is_uv then record q { to_thread = r } else record q { to_uv = r }

abbrev pub set_state : Bool → PortState → Queue → Queue
set_state is_uv s q = if is_uv then record q { uv_state = s } else record q { thread_state = s }

abbrev pub listening : PortState → Bool
listening opened = true
listening ended = true
listening _ = false

unfoldable pub signal_uv : World → World
signal_uv w = if listening w.queue.uv_state then emit Event.async_send w else w

abbrev pub call_thread : Option ℕ → World → World
call_thread none w = w
call_thread (some f) w = emit (Event.call_signal_thread f) w

unfoldable pub signal_thread : World → World
signal_thread w =
    if listening w.queue.thread_state then call_thread w.queue.on_signal_thread w else w

unfoldable pub signal_peer : Bool → World → World
unfolding signal_uv signal_thread
signal_peer is_uv w = if is_uv then signal_thread w else signal_uv w

-- Whether the last share of the queue is gone.
unfoldable pub unowned : Queue → Bool
unowned q = q.destroyed && (rank q.thread_state == rank idle || is_closed q.thread_state)
