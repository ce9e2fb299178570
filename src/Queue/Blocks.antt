-- ===== src/Queue/Blocks.antt =====
-- Where the blocks of memory of a queue of src/queue.c are: one that a write allocated is in a ring, with
-- the reader that took it, or freed.
pub mod Spent
pub mod Conserve
use bare_kit.Prelude.{
  ℕ, zero, suc, ◌+◌, ◌≤◌, ◌<◌, ◌≡◌, refl, ap, sym, ◌∙◌, ℤ, pos, negsuc, List, [], ◌∷◌, ◌++◌, Bool,
  true, false, not, Option, none, some, arith, if◌then◌else◌, ◌==◌, ltb, min, int_max, cap_int,
  cap_int_lem, Bool-cases, inl, inr,
}
use bare_kit.Ring.{Ring, Block, Message}
use bare_kit.Ring.Refine.{contents}
use bare_kit.Queue.State.{
  PortState, ended, closed, Queue, World, Event, emit, call_thread, signal_uv, signal_thread,
  signal_peer, unowned,
}
use bare_kit.Queue.Ops.{
  on_wakeup_uv, open_uv, open_thread, write, write_locked, read, read_locked, advance,
  advance_locked, end, close, readable, writable, destroy, shutdown_uv, free_if,
}
use bare_kit.Queue.Channel.{Channel, Sent, accepted, blocked, refused, send, move_to, is_unowned}
use bare_kit.Queue.Calls.{Call, Reply, wrote, gave, says, done, step, answer, Model, message_at}
use bare_kit.Queue.Inv.{IsSound}
use bare_kit.Queue.Drain.{freeing, frees, Frees, free-Frees}
use bare_kit.Queue.Refine.{view, pushed, shifted, advanced, Advances, advance_locked-Advances}
use bare_kit.Queue.Correct.{
  model, step-Refines, unowned_lem, begun, fresh_block, writes-cut, published,
}

-- How often a block has been freed, how often it stands in a list of messages, and whether a reply
-- hands it out.
unfoldable pub freed_count : ℕ → List Event → ℕ
freed_count a [] = 0
freed_count a (Event.free_block b ∷ t) = freed_count a t + (if b == a then 1 else 0)
freed_count a (e ∷ t) = freed_count a t

abbrev pub base_count : ℕ → Option Block → ℕ
base_count a none = 0
base_count a (some b) = if b.address == a then 1 else 0

unfoldable pub held_count : ℕ → List Message → ℕ
held_count a [] = 0
held_count a (m ∷ l) = base_count a m.base + held_count a l

abbrev pub given_count : ℕ → Reply → ℕ
given_count a (gave status (some m)) = base_count a m.base
given_count a r = 0

abbrev pub in_rings : ℕ → Channel → ℕ
in_rings a c = held_count a c.to_uv + held_count a c.to_thread

pub call_thread-freed_count :
    (a : ℕ) (f : Option ℕ) (w : World)
    → freed_count a (call_thread f w).trace ≡ freed_count a w.trace
unfolding freed_count
call_thread-freed_count a none w = refl
call_thread-freed_count a (some f) w = refl

signal_peer-freed_count :
    (a : ℕ) (b : Bool) (w : World) → freed_count a (signal_peer b w).trace ≡ freed_count a w.trace
unfolding signal_peer signal_uv signal_thread freed_count
signal_peer-freed_count a b w = ground (arith, call_thread-freed_count a w.queue.on_signal_thread w)

pub write_locked-freed_count :
    (a : ℕ) (b : Bool) (base : Block) (len : ℕ) (w : World)
    → freed_count a (write_locked b base len w).1.trace ≡ freed_count a w.trace
unfolding write_locked
write_locked-freed_count a b base len w =
    ground (arith, signal_peer-freed_count a b (pushed b base len w))

pub advance_locked-freed_count :
    (a : ℕ) (b : Bool) (s : PortState) (w : World)
    → freed_count a (advance_locked b s w).trace ≡ freed_count a w.trace
unfolding advance_locked
advance_locked-freed_count a b s w =
    ground (arith, signal_peer-freed_count a b (advanced b s w), signal_peer-freed_count a b w)

pub read-freed_count :
    (a : ℕ) (b : Bool) (w : World) → freed_count a (read b w).2.trace ≡ freed_count a w.trace
unfolding read read_locked freed_count
read-freed_count a b w = ground (arith, signal_peer-freed_count a b (shifted b (emit Event.lock w)))

pub open_thread-freed_count :
    (a : ℕ) (f : Option ℕ) (user : ℕ) (w : World)
    → freed_count a (open_thread f user w).1.trace ≡ freed_count a w.trace
unfolding open_thread freed_count signal_thread
open_thread-freed_count a f user w =
    ground (arith, call_thread-freed_count a f (published f user w))

pub open_uv-freed_count :
    (a f user : ℕ) (w : World) → freed_count a (open_uv f user w).trace ≡ freed_count a w.trace
unfolding open_uv freed_count
open_uv-freed_count a f user w = ground arith

freeing-freed_count :
    (a : ℕ) (m : Option Block) (t : List Event)
    → freed_count a (freeing m t) ≡ freed_count a t + base_count a m
unfolding freed_count
freeing-freed_count a none t = omega arith
freeing-freed_count a (some b) t = refl

frees-freed_count :
    (a : ℕ) (ms : List Message) (t : List Event)
    → freed_count a (frees ms t) ≡ freed_count a t + held_count a ms
unfolding frees held_count
frees-freed_count a [] t = omega arith
frees-freed_count a (m ∷ ms) t =
    omega (arith, frees-freed_count a ms (freeing m.base t), freeing-freed_count a m.base t)

pub free_if-freed_count :
    (a : ℕ) (go : Bool) (w : World)
    → IsSound w.queue
    → freed_count a (free_if go w).trace
      ≡ freed_count a w.trace + (if go then in_rings a (view w.queue) else 0)
unfolding view freed_count
free_if-freed_count a false w v = omega arith
free_if-freed_count a true w v = rw (free-Frees w v).trace_lem (
    omega (
      arith,
      frees-freed_count a (contents w.queue.to_thread) (frees (contents w.queue.to_uv) w.trace),
      frees-freed_count a (contents w.queue.to_uv) w.trace,
    ))
