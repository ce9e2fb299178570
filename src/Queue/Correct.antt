-- ===== src/Queue/Correct.antt =====
-- Whole calls of src/queue.c against the channel, and so any history of them.
use bare_kit.Prelude.{
  ℕ, zero, suc, ◌+◌, ◌≤◌, ◌<◌, ap, ap₂, sym, ◌∙◌, cap_int, cap_int_lem, ◌≡◌, refl, pos, List, [],
  ◌∷◌, Bool, true, false, Option, arith, ◌==◌, int_max, take, length,
}
use bare_kit.Ring.Inv.{IsValid}
use bare_kit.Ring.{Ring, Block, ring_empty}
use bare_kit.Ring.Refine.{contents, length-contents, ring_empty_lem, ring_full_lem}
use bare_kit.Queue.State.{PortState, World, Queue, Event, emit, unowned}
use bare_kit.Queue.Channel.{is_unowned, send, move_to}
use bare_kit.Queue.Ops.{
  on_wakeup_uv, open_uv, open_thread, write, write_locked, read, advance, end, close, readable,
  writable, destroy, shutdown_uv, free_if, advance_locked,
}
use bare_kit.Queue.Calls.{
  Call, Reply, step, answer, Model, release, message_at, sent_code, wrote, is_nil,
}
use bare_kit.Queue.Inv.{IsSound, signal_thread-Keeps}
use bare_kit.Queue.Refine.{
  view, Sends, write_locked-Sends, read_locked-Receives, advance_locked-Advances,
}
use bare_kit.Queue.Drain.{free-Frees}

abbrev pub model : World → Model
model w = (view w.queue, w.next)

-- What a call must do at a world: give the channel's reply, go to its state, keep the rings valid.
pub record Refines (c : Call) (w : World) (out : Reply × World) : Type 0 where
  pub reply : out.0 ≡ (answer c (model w)).0
  pub moves : model out.1 ≡ (answer c (model w)).1
  pub sound : IsSound out.1.queue

pub unowned_lem : (q : Queue) → unowned q ≡ is_unowned (view q)
unfolding unowned is_unowned view
unowned_lem q = ground arith

abbrev pub begun : World → World
begun w = emit Event.lock (record w { next = w.next + 1 })

abbrev pub fresh_block : World → List ℕ → ℕ → Block
fresh_block w source n = record { address = w.next; bytes = take n source }

-- A write of a positive length, cut to `n` bytes.
pub writes-cut :
    (b : Bool) (source : List ℕ) (n : ℕ) (w : World)
    → n ≤ int_max
    → IsSound w.queue
    → Sends b
        (message_at w.next source n)
        (begun w)
        (write_locked b (fresh_block w source n) n (begun w))
writes-cut b source n w h v =
    write_locked-Sends b (fresh_block w source n) n (begun w) (omega arith) v

-- `write` is its critical section on a length cut to `int_max`; the rest touches neither the queue
-- nor the count of blocks.
pub write_lem :
    (b : Bool) (source : List ℕ) (len : ℕ) (w : World)
    → 0 < len
    → let n = cap_int len in
      let (r, w') = write_locked b (fresh_block w source n) n (begun w) in
      ((write b source len w).0 ≡ r)
      × ((write b source len w).1.queue ≡ w'.queue)
      × ((write b source len w).1.next ≡ w'.next)
unfolding write
write_lem b source len w h = ground arith

pub write_of_zero : (b : Bool) (source : List ℕ) (w : World) → write b source 0 w ≡ (pos 0, w)
unfolding write
write_of_zero b source w = refl

answer_of_pos :
    (b : Bool) (source : List ℕ) (len : ℕ) (m : Model)
    → 0 < len
    → let n = cap_int len in
      let (s, c') = send b (message_at m.1 source n) m.0 in
      answer (Call.writes b source len) m ≡ (wrote (sent_code n s), (c', m.1 + 1))
unfolding answer
answer_of_pos b source len (c, n) h = rw (cap_int_lem len) (ground arith)

writes-Refines_zero :
    (b : Bool) (source : List ℕ) (w : World)
    → IsSound w.queue
    → Refines (Call.writes b source 0) w (step (Call.writes b source 0) w)
unfolding step answer write
writes-Refines_zero b source w v = record { reply = refl; moves = refl; sound = v }

writes-Refines :
    (b : Bool) (source : List ℕ) (len : ℕ) (w : World)
    → IsSound w.queue
    → Refines (Call.writes b source len) w (step (Call.writes b source len) w)
unfolding step
writes-Refines b source zero w v = writes-Refines_zero b source w v
writes-Refines b source (suc k) w v =
    let len = suc k in
    let c = writes-cut b source (cap_int len) w (omega (arith, cap_int_lem len)) v in
    let l = write_lem b source len w (omega arith) in
    let a = answer_of_pos b source len (model w) (omega arith) in
    record {
      reply = rw a (ap wrote (l.0 ∙ c.result));
      moves = rw a (ground (arith, l.1, l.2, c.moves, c.kept));
      sound = rw l.1 c.sound;
    }

reads-Refines :
    (b : Bool) (w : World) → IsSound w.queue → Refines (Call.reads b) w (step (Call.reads b) w)
unfolding step answer read
reads-Refines b w v = ground (arith, read_locked-Receives b (emit Event.lock w) v)

-- What a call that may free the queue leaves: the messages are gone with the last share.
pub record Releases (w w' : World) : Type 0 where
  pub moves : view w'.queue ≡ release (view w.queue)
  pub sound : IsSound w'.queue
  pub kept : w'.next ≡ w.next

free_if-Releases :
    (b : Bool) (w : World)
    → is_unowned (view w.queue) ≡ b
    → IsSound w.queue
    → Releases w (free_if b w)
free_if-Releases true w e v =
    let f = free-Frees w v in record { moves = rw e f.view_lem; sound = f.sound; kept = f.next_lem }
free_if-Releases false w e v = record { moves = rw e refl; sound = v; kept = refl }

pub release-Releases : (w : World) → IsSound w.queue → Releases w (free_if (unowned w.queue) w)
release-Releases w v = free_if-Releases (unowned w.queue) w (sym (unowned_lem w.queue)) v

pub advance-Releases :
    (b : Bool) (s : PortState) (w : World)
    → IsSound w.queue
    → (view (advance b s w).queue ≡ release (move_to b s (view w.queue)))
      × IsSound (advance b s w).queue
      × ((advance b s w).next ≡ w.next)
unfolding advance
advance-Releases b s w v =
    let a = advance_locked-Advances b s (emit Event.lock w) v in
    let r = release-Releases (emit Event.unlock (advance_locked b s (emit Event.lock w))) a.sound in
    (r.moves ∙ ap release a.moves, r.sound, r.kept ∙ a.kept)

ends-Refines :
    (b : Bool) (w : World) → IsSound w.queue → Refines (Call.ends b) w (step (Call.ends b) w)
unfolding step answer end
ends-Refines b w v =
    let (m, s, k) = advance-Releases b PortState.ended w v in
    record { reply = refl; moves = ap₂ (λ x y. (x, y)) m k; sound = s }

closes-Refines :
    (b : Bool) (w : World) → IsSound w.queue → Refines (Call.closes b) w (step (Call.closes b) w)
unfolding step answer close
closes-Refines b w v =
    let (m, s, k) = advance-Releases b PortState.closed w v in
    record { reply = refl; moves = ap₂ (λ x y. (x, y)) m k; sound = s }

destroys-Refines : (w : World) → IsSound w.queue → Refines Call.destroys w (step Call.destroys w)
unfolding step answer destroy view
destroys-Refines w v =
    let marked : World =
      emit Event.unlock
        (record (emit Event.lock w) { queue = record w.queue { destroyed = true } }) in
    let r =
      release-Releases marked
        (record { to_uv_valid = v.to_uv_valid; to_thread_valid = v.to_thread_valid }) in
    record { reply = refl; moves = ap₂ (λ x y. (x, y)) r.moves r.kept; sound = r.sound }

opens_uv-Refines :
    (f user : ℕ) (w : World)
    → IsSound w.queue
    → Refines (Call.opens_uv f user) w (step (Call.opens_uv f user) w)
unfolding step answer open_uv view
opens_uv-Refines f user w v = ground arith

-- The world of `open_thread` before it catches up.
abbrev pub published : Option ℕ → ℕ → World → World
published f user w = record (emit Event.lock w) {
  queue = record w.queue {
    thread_port = record w.queue.thread_port { user = user };
    on_signal_thread = f;
    thread_state = PortState.opened;
  };
}

opens_thread-Refines :
    (f : Option ℕ) (user : ℕ) (w : World)
    → IsSound w.queue
    → Refines (Call.opens_thread f user) w (step (Call.opens_thread f user) w)
unfolding step answer open_thread view
opens_thread-Refines f user w v = ground (arith, signal_thread-Keeps (published f user w))

is_nil_lem : {A : Type 0} (l : List A) → is_nil l ≡ (length l == 0)
is_nil_lem [] = refl
is_nil_lem (x ∷ xs) = ground arith

pub ring_empty-is_nil : (r : Ring) → IsValid r → ring_empty r ≡ is_nil (contents r)
ring_empty-is_nil r v =
    ground (arith, ring_empty_lem r v, is_nil_lem (contents r), length-contents r)

asks_readable-Refines :
    (b : Bool) (w : World)
    → IsSound w.queue
    → Refines (Call.asks_readable b) w (step (Call.asks_readable b) w)
unfolding step answer readable view
asks_readable-Refines true w v = ground (arith, ring_empty-is_nil w.queue.to_uv v.to_uv_valid)
asks_readable-Refines false w v =
    ground (arith, ring_empty-is_nil w.queue.to_thread v.to_thread_valid)

asks_writable-Refines :
    (b : Bool) (w : World)
    → IsSound w.queue
    → Refines (Call.asks_writable b) w (step (Call.asks_writable b) w)
unfolding step answer writable view
asks_writable-Refines true w v =
    ground
      (arith, ring_full_lem w.queue.to_thread v.to_thread_valid, length-contents w.queue.to_thread)
asks_writable-Refines false w v =
    ground (arith, ring_full_lem w.queue.to_uv v.to_uv_valid, length-contents w.queue.to_uv)

wakes-Refines : (w : World) → IsSound w.queue → Refines Call.wakes w (step Call.wakes w)
unfolding step answer on_wakeup_uv
wakes-Refines w v = ground arith

shuts_down-Refines :
    (w : World) → IsSound w.queue → Refines Call.shuts_down w (step Call.shuts_down w)
unfolding step answer shutdown_uv
shuts_down-Refines w v = record { reply = refl; moves = refl; sound = v }

pub step-Refines : (c : Call) (w : World) → IsSound w.queue → Refines c w (step c w)
step-Refines Call.wakes w v = wakes-Refines w v
step-Refines Call.shuts_down w v = shuts_down-Refines w v
step-Refines Call.destroys w v = destroys-Refines w v
step-Refines (Call.opens_uv f user) w v = opens_uv-Refines f user w v
step-Refines (Call.opens_thread f user) w v = opens_thread-Refines f user w v
step-Refines (Call.writes b source len) w v = writes-Refines b source len w v
step-Refines (Call.reads b) w v = reads-Refines b w v
step-Refines (Call.ends b) w v = ends-Refines b w v
step-Refines (Call.closes b) w v = closes-Refines b w v
step-Refines (Call.asks_readable b) w v = asks_readable-Refines b w v
step-Refines (Call.asks_writable b) w v = asks_writable-Refines b w v
