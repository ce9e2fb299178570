-- ===== src/Queue/Wake/Callback.antt =====
-- The host's callback of src/queue.c is set when the host end is opened, and by no other call.
use bare_kit.Prelude.{
  ℕ, zero, suc, ◌≡◌, refl, ◌∙◌, ap, List, Bool, true, false, Option, arith, cap_int,
}
use bare_kit.Ring.{Block, capacity}
use bare_kit.Queue.State.{PortState, ended, closed, Queue, World, Event, emit}
use bare_kit.Queue.Ops.{
  on_wakeup_uv, open_uv, write, write_locked, read, read_locked, advance, advance_locked, end,
  close, readable, writable, destroy, shutdown_uv, free, free_if, drain,
}
use bare_kit.Queue.Calls.{Call, step}
use bare_kit.Queue.Inv.{IsSound, signal_peer-Keeps}
use bare_kit.Queue.Refine.{pushed, shifted, advanced, advance_locked-Advances}
use bare_kit.Queue.Drain.{drain-capacity}
use bare_kit.Queue.Correct.{fresh_block, begun, write_lem, write_of_zero}

-- Whether a call leaves port `b` open as it is: the end does not reopen or retire it.
abbrev pub stays : Bool → Call → Bool
stays true (Call.opens_uv f user) = false
stays true (Call.closes true) = false
stays true Call.destroys = false
stays false (Call.opens_thread f user) = false
stays false (Call.closes false) = false
stays _ _ = true

abbrev callback : World → Option ℕ
callback w = w.queue.on_signal_thread

free_if-callback : (go : Bool) (w : World) → IsSound w.queue → callback (free_if go w) ≡ callback w
unfolding free
free_if-callback false w v = refl
free_if-callback true w v =
    let d1 = drain-capacity w v.to_uv_valid in
    let d2 =
      drain-capacity {r = w.queue.to_thread} (drain capacity w.queue.to_uv w).1 v.to_thread_valid in
    ground (arith, d1.freed)

write_locked-callback :
    (b : Bool) (base : Block) (len : ℕ) (w : World)
    → callback (write_locked b base len w).1 ≡ callback w
unfolding write_locked
write_locked-callback true base len w =
    ground (arith, signal_peer-Keeps true (pushed true base len w))
write_locked-callback false base len w =
    ground (arith, signal_peer-Keeps false (pushed false base len w))

write-callback :
    (b : Bool) (source : List ℕ) (len : ℕ) (w : World)
    → callback (write b source len w).1 ≡ callback w
write-callback b source zero w = ap (λ r. callback r.1) (write_of_zero b source w)
write-callback b source (suc k) w =
    ap (λ (q : Queue). q.on_signal_thread) (write_lem b source (suc k) w (omega arith)).1
    ∙ write_locked-callback b (fresh_block w source (cap_int (suc k))) (cap_int (suc k)) (begun w)

read-callback : (b : Bool) (w : World) → callback (read b w).2 ≡ callback w
unfolding read read_locked
read-callback true w = ground (arith, signal_peer-Keeps true (shifted true (emit Event.lock w)))
read-callback false w = ground (arith, signal_peer-Keeps false (shifted false (emit Event.lock w)))

advance_locked-callback :
    (b : Bool) (s : PortState) (w : World) → callback (advance_locked b s w) ≡ callback w
unfolding advance_locked
advance_locked-callback true s w =
    ground (arith, signal_peer-Keeps true (advanced true s w), signal_peer-Keeps true w)
advance_locked-callback false s w =
    ground (arith, signal_peer-Keeps false (advanced false s w), signal_peer-Keeps false w)

advance-callback :
    (b : Bool) (s : PortState) (w : World) → IsSound w.queue → callback (advance b s w) ≡ callback w
unfolding advance
advance-callback b s w v =
    let a = advance_locked-Advances b s (emit Event.lock w) v in
    free_if-callback _ (emit Event.unlock (advance_locked b s (emit Event.lock w))) a.sound
    ∙ advance_locked-callback b s (emit Event.lock w)

-- What `stays false` says of a call is enough to keep the callback.
pub step-callback :
    (c : Call) (w : World)
    → IsSound w.queue
    → stays false c ≡ true
    → (step c w).1.queue.on_signal_thread ≡ w.queue.on_signal_thread
unfolding step
step-callback Call.wakes w v h = unfold on_wakeup_uv in ground arith
step-callback Call.shuts_down w v h = unfold shutdown_uv in refl
step-callback Call.destroys w v h =
    unfold destroy in
    free_if-callback _
      (emit Event.unlock
        (record (emit Event.lock w) { queue = record w.queue { destroyed = true } }))
      (record { to_uv_valid = v.to_uv_valid; to_thread_valid = v.to_thread_valid })
step-callback (Call.opens_uv f user) w v h = unfold open_uv in ground arith
step-callback (Call.opens_thread f user) w v h = cc
step-callback (Call.writes b source len) w v h = write-callback b source len w
step-callback (Call.reads b) w v h = read-callback b w
step-callback (Call.ends b) w v h = unfold end in advance-callback b ended w v
step-callback (Call.closes b) w v h = unfold close in advance-callback b closed w v
step-callback (Call.asks_readable b) w v h = unfold readable in refl
step-callback (Call.asks_writable b) w v h = unfold writable in refl
