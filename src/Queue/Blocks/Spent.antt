-- ===== src/Queue/Blocks/Spent.antt =====
-- What each call of src/queue.c frees: a block that a write could not send, and with the last share of
-- the queue every block that is still in its rings.
use bare_kit.Prelude.{
  ℕ, zero, suc, ◌+◌, ◌<◌, ◌≡◌, refl, ap, ap₂, ◌∙◌, List, Bool, true, arith, if◌then◌else◌, ◌==◌,
  min, int_max, cap_int, cap_int_lem, is_negative,
}
use bare_kit.Queue.State.{PortState, ended, closed, Queue, World, Event, emit, unowned}
use bare_kit.Queue.Ops.{
  on_wakeup_uv, write, advance, advance_locked, end, close, readable, writable, destroy,
  shutdown_uv, free_if,
}
use bare_kit.Queue.Channel.{Channel, Sent, accepted, blocked, refused, send, move_to, is_unowned}
use bare_kit.Queue.Calls.{Call, step, Model, message_at, sent_code}
use bare_kit.Queue.Inv.{IsSound}
use bare_kit.Queue.Refine.{view, advance_locked-Advances}
use bare_kit.Queue.Correct.{model, unowned_lem, begun, fresh_block, writes-cut}
use bare_kit.Queue.Blocks.{
  freed_count, in_rings, write_locked-freed_count, read-freed_count, open_thread-freed_count,
  open_uv-freed_count, free_if-freed_count, advance_locked-freed_count,
}

abbrev pub unsent : Sent → ℕ
unsent accepted = 0
unsent blocked = 1
unsent refused = 1

abbrev pub emptied : ℕ → Channel → ℕ
emptied a c = if is_unowned c then in_rings a c else 0

-- How often a call frees the block with address `a`.
unfoldable pub spent : ℕ → Call → Model → ℕ
spent a (Call.writes b source len) (c, n) =
    if len == 0
    then 0
    else if n == a
    then unsent (send b (message_at n source (min len int_max)) c).0
    else 0
spent a (Call.ends b) (c, n) = emptied a (move_to b ended c)
spent a (Call.closes b) (c, n) = emptied a (move_to b closed c)
spent a Call.destroys (c, n) = emptied a (record c { destroyed = true })
spent a _ m = 0

sent_code_lem : (n : ℕ) (s : Sent) → (if is_negative (sent_code n s) then 1 else 0) ≡ unsent s
sent_code_lem n accepted = refl
sent_code_lem n blocked = refl
sent_code_lem n refused = refl

write-freed_count :
    (a : ℕ) (b : Bool) (source : List ℕ) (len : ℕ) (w : World)
    → 0 < len
    → IsSound w.queue
    → freed_count a (write b source len w).1.trace
      ≡ freed_count a w.trace
        + (if w.next == a
            then unsent (send b (message_at w.next source (min len int_max)) (view w.queue)).0
            else 0)
unfolding write freed_count
write-freed_count a b source len w h v =
    let k = cap_int len in
    let s = writes-cut b source k w (omega (arith, cap_int_lem len)) v in
    ground (
      arith,
      cap_int_lem len,
      write_locked-freed_count a b (fresh_block w source k) k (begun w),
      s.result,
      sent_code_lem k (send b (message_at w.next source k) (view w.queue)).0,
    )

-- The end of a call that may free the queue.
release-freed_count :
    (a : ℕ) (w : World)
    → IsSound w.queue
    → freed_count a (free_if (unowned w.queue) w).trace
      ≡ freed_count a w.trace + emptied a (view w.queue)
release-freed_count a w v =
    free_if-freed_count a (unowned w.queue) w v
    ∙ ap (λ (b : Bool). freed_count a w.trace + (if b then in_rings a (view w.queue) else 0))
        (unowned_lem w.queue)

advance-freed_count :
    (a : ℕ) (b : Bool) (s : PortState) (w : World)
    → IsSound w.queue
    → freed_count a (advance b s w).trace
      ≡ freed_count a w.trace + emptied a (move_to b s (view w.queue))
unfolding advance freed_count
advance-freed_count a b s w v =
    let w' = advance_locked b s (emit Event.lock w) in
    let l = advance_locked-Advances b s (emit Event.lock w) v in
    release-freed_count a (emit Event.unlock w') l.sound
    ∙ ap₂ ◌+◌ (advance_locked-freed_count a b s (emit Event.lock w)) (ap (emptied a) l.moves)

destroy-freed_count :
    (a : ℕ) (w : World)
    → IsSound w.queue
    → freed_count a (destroy w).trace
      ≡ freed_count a w.trace + emptied a (record (view w.queue) { destroyed = true })
unfolding destroy freed_count view
destroy-freed_count a w v =
    let q : Queue = record w.queue { destroyed = true } in
    release-freed_count a (emit Event.unlock (record (emit Event.lock w) { queue = q }))
      (record { to_uv_valid = v.to_uv_valid; to_thread_valid = v.to_thread_valid })

pub step-freed_count :
    (a : ℕ) (k : Call) (w : World)
    → IsSound w.queue
    → freed_count a (step k w).1.trace ≡ freed_count a w.trace + spent a k (model w)
unfolding step spent
step-freed_count a Call.wakes w v = unfold on_wakeup_uv freed_count in ground arith
step-freed_count a Call.shuts_down w v = unfold shutdown_uv freed_count in omega arith
step-freed_count a Call.destroys w v = destroy-freed_count a w v
step-freed_count a (Call.opens_uv f user) w v = omega (arith, open_uv-freed_count a f user w)
step-freed_count a (Call.opens_thread f user) w v =
    omega (arith, open_thread-freed_count a f user w)
step-freed_count a (Call.writes b source zero) w v = unfold write in ground arith
step-freed_count a (Call.writes b source (suc len)) w v =
    ground (arith, write-freed_count a b source (suc len) w (omega arith) v)
step-freed_count a (Call.reads b) w v = omega (arith, read-freed_count a b w)
step-freed_count a (Call.ends b) w v = unfold end in advance-freed_count a b ended w v
step-freed_count a (Call.closes b) w v = unfold close in advance-freed_count a b closed w v
step-freed_count a (Call.asks_readable b) w v = unfold readable freed_count in omega arith
step-freed_count a (Call.asks_writable b) w v = unfold writable freed_count in omega arith
