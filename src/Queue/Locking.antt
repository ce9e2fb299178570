-- ===== src/Queue/Locking.antt =====
-- A monitor for the traces of src/queue.c: the life of the queue's mutex and of its memory.
use bare_kit.Prelude.{
  ℕ, ◌≡◌, refl, ap, ◌∙◌, List, [], ◌∷◌, Bool, true, false, Option, none, some, arith, cap_int,
}
use bare_kit.Ring.Refine.{contents}
use bare_kit.Ring.{Message, Block}
use bare_kit.Queue.State.{
  PortState, ended, closed, Queue, World, Event, emit, call_thread, signal_uv, signal_thread,
  signal_peer, unowned,
}
use bare_kit.Queue.Ops.{
  on_wakeup_uv, open_uv, open_thread, write, write_locked, read, read_locked, advance,
  advance_locked, end, close, readable, writable, destroy, shutdown_uv, free_if,
}
use bare_kit.Queue.Calls.{Call, step}
use bare_kit.Queue.Inv.{IsSound}
use bare_kit.Queue.Refine.{view, advance_locked-Advances, pushed, shifted}
use bare_kit.Queue.Channel.{Channel, is_unowned, move_to}
use bare_kit.Queue.Correct.{unowned_lem, fresh_block, begun, published}
use bare_kit.Queue.Drain.{freeing, frees, free-Frees}

-- `fault` is a relock, an unlock without a lock, a host callback outside the lock, or any use of
-- the mutex, the async handle or the queue once it is gone. The async handle is part of the queue's
-- memory, so a ref or an unref of it is safe, closed or not, until that is freed.
pub data Stage : Type 0 where
  unlocked locked torn_down freed fault : Stage

abbrev pub after : Event → Stage → Stage
after Event.lock unlocked = locked
after Event.unlock locked = unlocked
after Event.mutex_destroy unlocked = torn_down
after Event.free_queue torn_down = freed
after (Event.call_signal_thread f) locked = locked
after (Event.call_recv_uv f) unlocked = unlocked
after (Event.free_block a) s = s
after Event.async_init unlocked = unlocked
after Event.async_close unlocked = unlocked
after Event.async_ref unlocked = unlocked
after Event.async_unref unlocked = unlocked
after Event.async_send unlocked = unlocked
after Event.async_send locked = locked
after _ _ = fault

unfoldable pub stage : List Event → Stage
stage [] = unlocked
stage (e ∷ t) = after e (stage t)

call_thread-locked :
    (f : Option ℕ) (w : World) → stage w.trace ≡ locked → stage (call_thread f w).trace ≡ locked
unfolding stage
call_thread-locked none w h = h
call_thread-locked (some f) w h = rw h

signal_uv-locked : (w : World) → stage w.trace ≡ locked → stage (signal_uv w).trace ≡ locked
unfolding signal_uv stage
signal_uv-locked w h = ground arith

pub signal_thread-locked :
    (w : World) → stage w.trace ≡ locked → stage (signal_thread w).trace ≡ locked
unfolding signal_thread
signal_thread-locked w h = ground (arith, call_thread-locked w.queue.on_signal_thread w)

-- A signal is safe under the lock.
pub signal_peer-locked :
    (b : Bool) (w : World) → stage w.trace ≡ locked → stage (signal_peer b w).trace ≡ locked
unfolding signal_peer
signal_peer-locked b w h = ground (arith, signal_uv-locked w, signal_thread-locked w)

pub write_locked-locked :
    (b : Bool) (base : Block) (len : ℕ) (w : World)
    → stage w.trace ≡ locked
    → stage (write_locked b base len w).1.trace ≡ locked
unfolding write_locked
write_locked-locked b base len w h = ground (arith, signal_peer-locked b (pushed b base len w))

pub read_locked-locked :
    (b : Bool) (w : World) → stage w.trace ≡ locked → stage (read_locked b w).2.trace ≡ locked
unfolding read_locked
read_locked-locked b w h = ground (arith, signal_peer-locked b (shifted b w))

pub advance_locked-locked :
    (b : Bool) (s : PortState) (w : World)
    → stage w.trace ≡ locked
    → stage (advance_locked b s w).trace ≡ locked
unfolding advance_locked
advance_locked-locked b s w h = signal_peer-locked b _ (ground arith)

freeing-stage : (b : Option Block) (t : List Event) → stage (freeing b t) ≡ stage t
unfolding stage
freeing-stage none t = refl
freeing-stage (some b) t = refl

frees-stage : (ms : List Message) (t : List Event) → stage (frees ms t) ≡ stage t
unfolding frees
frees-stage [] t = refl
frees-stage (m ∷ ms) t = frees-stage ms (freeing m.base t) ∙ freeing-stage m.base t

-- What is left by a call: freed memory if the last share went, else a free lock.
abbrev pub ending : Bool → Stage
ending true = freed
ending false = unlocked

free_if-stage :
    (b : Bool) (w : World)
    → IsSound w.queue
    → stage w.trace ≡ unlocked
    → stage (free_if b w).trace ≡ ending b
unfolding stage
free_if-stage true w v h =
    let f = frees-stage (contents w.queue.to_thread) (frees (contents w.queue.to_uv) w.trace) in
    let g = frees-stage (contents w.queue.to_uv) w.trace in
    rw (free-Frees w v).trace_lem (ground arith)
free_if-stage false w v h = h

-- Whether a call gives up the last share of the queue.
abbrev pub lets_go : Call → Channel → Bool
lets_go (Call.ends b) c = is_unowned (move_to b ended c)
lets_go (Call.closes b) c = is_unowned (move_to b closed c)
lets_go Call.destroys c = is_unowned (record c { destroyed = true })
lets_go _ c = false

advance-stage :
    (b : Bool) (s : PortState) (w : World)
    → IsSound w.queue
    → stage w.trace ≡ unlocked
    → stage (advance b s w).trace ≡ ending (is_unowned (move_to b s (view w.queue)))
unfolding advance stage
advance-stage b s w v h =
    let l = advance_locked-locked b s (emit Event.lock w) (rw h) in
    let a = advance_locked-Advances b s (emit Event.lock w) v in
    let w' = advance_locked b s (emit Event.lock w) in
    free_if-stage (unowned w'.queue) (emit Event.unlock w') a.sound (rw l)
    ∙ ap ending (unowned_lem w'.queue ∙ ap is_unowned a.moves)

write-stage :
    (b : Bool) (source : List ℕ) (len : ℕ) (w : World)
    → stage w.trace ≡ unlocked
    → stage (write b source len w).1.trace ≡ unlocked
unfolding write stage
write-stage b source len w h =
    ground
      (arith, write_locked-locked b (fresh_block w source (cap_int len)) (cap_int len) (begun w))

open_uv-stage :
    (f user : ℕ) (w : World) → stage w.trace ≡ unlocked → stage (open_uv f user w).trace ≡ unlocked
unfolding open_uv stage
open_uv-stage f user w h = ground arith

open_thread-stage :
    (f : Option ℕ) (user : ℕ) (w : World)
    → stage w.trace ≡ unlocked
    → stage (open_thread f user w).1.trace ≡ unlocked
unfolding open_thread stage
open_thread-stage f user w h = ground (arith, signal_thread-locked (published f user w))

read-stage : (b : Bool) (w : World) → stage w.trace ≡ unlocked → stage (read b w).2.trace ≡ unlocked
unfolding read stage
read-stage b w h = ground (arith, read_locked-locked b (emit Event.lock w))

destroy-stage :
    (w : World)
    → IsSound w.queue
    → stage w.trace ≡ unlocked
    → stage (destroy w).trace ≡ ending (is_unowned (record (view w.queue) { destroyed = true }))
unfolding destroy stage view
destroy-stage w v h =
    let q : Queue = record w.queue { destroyed = true } in
    free_if-stage (unowned q) (emit Event.unlock (record (emit Event.lock w) { queue = q }))
      (record { to_uv_valid = v.to_uv_valid; to_thread_valid = v.to_thread_valid }) (rw h)
    ∙ ap ending (unowned_lem q)

wakes-stage : (w : World) → stage w.trace ≡ unlocked → stage (on_wakeup_uv w).trace ≡ unlocked
unfolding on_wakeup_uv stage
wakes-stage w h = ground arith

-- Every call at a queue with valid rings, begun with the lock free, keeps to the mutex's rules on
-- every path: it ends with the lock free again, or with the queue's memory freed exactly if it gave
-- up the last share.
pub step-stage :
    (c : Call) (w : World)
    → IsSound w.queue
    → stage w.trace ≡ unlocked
    → stage (step c w).1.trace ≡ ending (lets_go c (view w.queue))
unfolding step
step-stage Call.wakes w v h = wakes-stage w h
step-stage Call.shuts_down w v h = unfold shutdown_uv stage in rw h
step-stage Call.destroys w v h = destroy-stage w v h
step-stage (Call.opens_uv f user) w v h = open_uv-stage f user w h
step-stage (Call.opens_thread f user) w v h = open_thread-stage f user w h
step-stage (Call.writes b source len) w v h = write-stage b source len w h
step-stage (Call.reads b) w v h = read-stage b w h
step-stage (Call.ends b) w v h = unfold end in advance-stage b ended w v h
step-stage (Call.closes b) w v h = unfold close in advance-stage b closed w v h
step-stage (Call.asks_readable b) w v h = unfold readable stage in rw h
step-stage (Call.asks_writable b) w v h = unfold writable stage in rw h
