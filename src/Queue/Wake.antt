-- ===== src/Queue/Wake.antt =====
-- The wakeups of src/queue.c: how often each end has been signalled, and which calls signal it.
pub mod Callback
pub mod States
pub mod Effects
pub mod Reader
pub mod Open
pub mod Space
pub mod Writer
pub mod Steps
use bare_kit.Prelude.{
  ℕ, ◌+◌, ◌≤◌, ◌<◌, ◌≡◌, refl, ◌∙◌, List, [], ◌∷◌, Bool, true, false, not, ◌&&◌, ◌||◌, Option, none,
  some, arith, if◌then◌else◌, cap_int,
}
use bare_kit.Ring.{Message, Block, ring_empty, ring_full, ring_push, ring_shift}
use bare_kit.Queue.State.{
  PortState, Queue, World, Event, emit, listening, state, call_thread, signal_uv, signal_thread,
  signal_peer, unowned, inbox, outbox, set_state, peer_state, is_closed, is_ended,
}
use bare_kit.Queue.Ops.{
  write, write_locked, read, read_locked, advance, advance_locked, free, free_if,
}
use bare_kit.Queue.Inv.{IsSound, signal_peer-Keeps}
use bare_kit.Queue.Refine.{pushed, shifted, Advances, advance_locked-Advances}
use bare_kit.Queue.Drain.{freeing, frees, Frees, free-Frees}
use bare_kit.Queue.Correct.{fresh_block, begun}
use bare_kit.Ring.Refine.{contents}

-- Whether an event wakes the given end.
abbrev pub is_signal : Bool → Event → Bool
is_signal true Event.async_send = true
is_signal false (Event.call_signal_thread f) = true
is_signal _ _ = false

-- How often the end has been signalled.
unfoldable pub signals : Bool → List Event → ℕ
signals b [] = 0
signals b (e ∷ t) = let rest = signals b t in if is_signal b e then rest + 1 else rest

abbrev pub is_some : Option ℕ → Bool
is_some none = false
is_some (some f) = true

-- Whether a signal to the end gets through: the end listens, and the host has given a callback.
abbrev pub heard : Bool → Queue → Bool
heard true q = listening q.uv_state
heard false q = listening q.thread_state && is_some q.on_signal_thread

signal_uv-signals :
    (w : World)
    → (signals true (signal_uv w).trace
        ≡ (if heard true w.queue then signals true w.trace + 1 else signals true w.trace))
      × (signals false (signal_uv w).trace ≡ signals false w.trace)
unfolding signal_uv signals
signal_uv-signals w = ground arith

call_thread-signals :
    (f : Option ℕ) (w : World)
    → (signals false (call_thread f w).trace
        ≡ (if is_some f then signals false w.trace + 1 else signals false w.trace))
      × (signals true (call_thread f w).trace ≡ signals true w.trace)
unfolding signals
call_thread-signals none w = (refl, refl)
call_thread-signals (some f) w = (refl, refl)

pub signal_thread-signals :
    (w : World)
    → (signals false (signal_thread w).trace
        ≡ (if heard false w.queue then signals false w.trace + 1 else signals false w.trace))
      × (signals true (signal_thread w).trace ≡ signals true w.trace)
unfolding signal_thread
signal_thread-signals w = ground (arith, call_thread-signals w.queue.on_signal_thread w)

-- A port's signal reaches the other end if that hears it, and never its own end.
pub signal_peer-signals :
    (b : Bool) (w : World)
    → (signals (not b) (signal_peer b w).trace
        ≡ (if heard (not b) w.queue then signals (not b) w.trace + 1 else signals (not b) w.trace))
      × (signals b (signal_peer b w).trace ≡ signals b w.trace)
unfolding signal_peer
signal_peer-signals true w = signal_thread-signals w
signal_peer-signals false w = signal_uv-signals w

freeing-signals :
    (b : Bool) (m : Option Block) (t : List Event) → signals b (freeing m t) ≡ signals b t
unfolding signals
freeing-signals true none t = refl
freeing-signals false none t = refl
freeing-signals true (some m) t = refl
freeing-signals false (some m) t = refl

frees-signals :
    (b : Bool) (ms : List Message) (t : List Event) → signals b (frees ms t) ≡ signals b t
unfolding frees
frees-signals b [] t = refl
frees-signals b (m ∷ ms) t = frees-signals b ms (freeing m.base t) ∙ freeing-signals b m.base t

pub free_if-signals :
    (b go : Bool) (w : World) → IsSound w.queue → signals b (free_if go w).trace ≡ signals b w.trace
unfolding signals
free_if-signals b false w v = refl
free_if-signals true true w v = rw (free-Frees w v).trace_lem (
    frees-signals true (contents w.queue.to_thread) _
    ∙ frees-signals true (contents w.queue.to_uv) w.trace)
free_if-signals false true w v = rw (free-Frees w v).trace_lem (
    frees-signals false (contents w.queue.to_thread) _
    ∙ frees-signals false (contents w.queue.to_uv) w.trace)

-- The other end's count behind a call by port `b`: one more if the call changes what that end waits
-- for, and the end hears it.
abbrev pub woken : Bool → Bool → World → ℕ
woken go b w = if go && heard b w.queue then signals b w.trace + 1 else signals b w.trace

-- Whether a write pushes a message on an empty ring.
abbrev pub starts : Bool → Block → ℕ → World → Bool
starts b base len w =
    not (is_ended (state b w.queue) || is_closed (peer_state b w.queue))
    && (ring_push (outbox b w.queue) (some base) len).0
    && ring_empty (outbox b w.queue)

write_locked-signals :
    (b : Bool) (base : Block) (len : ℕ) (w : World)
    → (signals (not b) (write_locked b base len w).1.trace ≡ woken (starts b base len w) (not b) w)
      × (signals b (write_locked b base len w).1.trace ≡ signals b w.trace)
unfolding write_locked
write_locked-signals true base len w =
    ground (arith, signal_peer-signals true (pushed true base len w))
write_locked-signals false base len w =
    ground (arith, signal_peer-signals false (pushed false base len w))

write-signals_of_locked :
    (b c : Bool) (source : List ℕ) (len : ℕ) (w : World)
    → 0 < len
    → let n = cap_int len in
      signals c (write b source len w).1.trace
      ≡ signals c (write_locked b (fresh_block w source n) n (begun w)).1.trace
unfolding write signals
write-signals_of_locked b true source len w h = ground arith
write-signals_of_locked b false source len w h = ground arith

-- A write of at least one byte signals the other end, if that hears it, exactly if it puts a
-- message on an empty ring, and never its own end.
pub write-signals :
    (b : Bool) (source : List ℕ) (len : ℕ) (w : World)
    → 0 < len
    → let n = cap_int len in
      (signals (not b) (write b source len w).1.trace
        ≡ woken (starts b (fresh_block w source n) n w) (not b) w)
      × (signals b (write b source len w).1.trace ≡ signals b w.trace)
unfolding signals
write-signals true source len w h =
    let l =
      write_locked-signals true (fresh_block w source (cap_int len)) (cap_int len) (begun w) in
    (
      write-signals_of_locked true false source len w h ∙ l.0,
      write-signals_of_locked true true source len w h ∙ l.1,
    )
write-signals false source len w h =
    let l =
      write_locked-signals false (fresh_block w source (cap_int len)) (cap_int len) (begun w) in
    (
      write-signals_of_locked false true source len w h ∙ l.0,
      write-signals_of_locked false false source len w h ∙ l.1,
    )

abbrev pub has_message : Option Message → Bool
has_message none = false
has_message (some m) = true

-- A read signals the other end, if that hears it, exactly if it takes a message from a full ring,
-- and never its own end.
pub read-signals :
    (b : Bool) (w : World)
    → (signals (not b) (read b w).2.trace
        ≡ woken
            (has_message (ring_shift (inbox b w.queue)).0 && ring_full (inbox b w.queue))
            (not b)
            w)
      × (signals b (read b w).2.trace ≡ signals b w.trace)
unfolding read read_locked signals
read-signals true w = ground (arith, signal_peer-signals true (shifted true (emit Event.lock w)))
read-signals false w = ground (arith, signal_peer-signals false (shifted false (emit Event.lock w)))

advance_locked-signals :
    (b : Bool) (s : PortState) (w : World)
    → (signals (not b) (advance_locked b s w).trace ≡ woken true (not b) w)
      × (signals b (advance_locked b s w).trace ≡ signals b w.trace)
unfolding advance_locked
advance_locked-signals true s w = ground (
  arith,
  signal_peer-signals true (record w { queue = record w.queue { uv_state = s } }),
  signal_peer-signals true w,
)
advance_locked-signals false s w = ground (
  arith,
  signal_peer-signals false (record w { queue = record w.queue { thread_state = s } }),
  signal_peer-signals false w,
)

-- At valid rings, a move of an end to another state, as in an end or a close, signals the other end
-- once if that hears it, and never its own end.
pub advance-signals :
    (b : Bool) (s : PortState) (w : World)
    → IsSound w.queue
    → (signals (not b) (advance b s w).trace ≡ woken true (not b) w)
      × (signals b (advance b s w).trace ≡ signals b w.trace)
unfolding advance signals
advance-signals true s w v =
    let w' = advance_locked true s (emit Event.lock w) in
    let a = advance_locked-Advances true s (emit Event.lock w) v in
    let l = advance_locked-signals true s (emit Event.lock w) in
    (
      free_if-signals false (unowned w'.queue) (emit Event.unlock w') a.sound ∙ l.0,
      free_if-signals true (unowned w'.queue) (emit Event.unlock w') a.sound ∙ l.1,
    )
advance-signals false s w v =
    let w' = advance_locked false s (emit Event.lock w) in
    let a = advance_locked-Advances false s (emit Event.lock w) v in
    let l = advance_locked-signals false s (emit Event.lock w) in
    (
      free_if-signals true (unowned w'.queue) (emit Event.unlock w') a.sound ∙ l.0,
      free_if-signals false (unowned w'.queue) (emit Event.unlock w') a.sound ∙ l.1,
    )
