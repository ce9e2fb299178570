-- ===== src/Queue/Blocks/Conserve.antt =====
-- No block of a queue of src/queue.c is lost or freed twice, over any history of calls.
use bare_kit.Prelude.{
  ℕ, ◌+◌, ◌≡◌, refl, ap, List, [], ◌∷◌, ◌++◌, Bool, true, false, some, arith, if◌then◌else◌, ltb,
  min, int_max,
}
use bare_kit.Ring.{Message}
use bare_kit.Ring.Refine.{contents, window}
use bare_kit.Queue.State.{PortState, ended, closed, Queue, World, is_ended}
use bare_kit.Queue.Ops.{create}
use bare_kit.Queue.Channel.{Channel, accepted, send, receive, receive_from, move_to, incoming}
use bare_kit.Queue.Calls.{Call, Reply, step, run, answer, Model, message_at, release, gave_code}
use bare_kit.Queue.Inv.{IsSound}
use bare_kit.Queue.Refine.{view}
use bare_kit.Queue.Correct.{model, step-Refines}
use bare_kit.Queue.History.{create-IsSound}
use bare_kit.Queue.Lifetime.{started}
use bare_kit.Queue.Blocks.{freed_count, held_count, base_count, given_count, in_rings}
use bare_kit.Queue.Blocks.Spent.{spent, emptied, step-freed_count}

-- Whether an address has been given out, as a count.
abbrev pub born : ℕ → ℕ → ℕ
born a n = if ltb a n then 1 else 0

held_count-append :
    (a : ℕ) (l : List Message) (m : Message)
    → held_count a (l ++ m ∷ []) ≡ held_count a l + base_count a m.base
unfolding held_count
held_count-append a [] m = omega arith
held_count-append a (x ∷ l) m = omega (arith, held_count-append a l m)

-- What a call frees, leaves in the rings and hands out, against what was there and what it allocates.
abbrev Balances : ℕ → Call → Model → Reply × Model → Type 0
Balances a k m out =
    spent a k m + in_rings a out.1.0 + given_count a out.0 + born a m.1
    ≡ in_rings a m.0 + born a out.1.1

send-Balances :
    (a : ℕ) (b : Bool) (m : Message) (c : Channel)
    → in_rings a (send b m c).1 + (elim (send b m c).0 [ accepted ↦ 0 | _ ↦ base_count a m.base ])
      ≡ in_rings a c + base_count a m.base
unfolding send
send-Balances a true m c = ground (arith, held_count-append a c.to_thread m)
send-Balances a false m c = ground (arith, held_count-append a c.to_uv m)

writes-Balances :
    (a : ℕ) (b : Bool) (source : List ℕ) (len : ℕ) (m : Model)
    → Balances a (Call.writes b source len) m (answer (Call.writes b source len) m)
unfolding answer spent
writes-Balances a b source len (c, n) =
    ground (arith, send-Balances a b (message_at n source (min len int_max)) c)

receive-Balances :
    (a : ℕ) (b over : Bool) (l : List Message) (c : Channel)
    → incoming b c ≡ l
    → in_rings a (receive_from l over b c).1 + given_count a (gave_code (receive_from l over b c).0)
      ≡ in_rings a c
unfolding held_count
receive-Balances a b true [] c e = omega arith
receive-Balances a b false [] c e = omega arith
receive-Balances a true over (m ∷ l) c e = omega (arith, ap (held_count a) e)
receive-Balances a false over (m ∷ l) c e = omega (arith, ap (held_count a) e)

release-Balances : (a : ℕ) (c : Channel) → emptied a c + in_rings a (release c) ≡ in_rings a c
unfolding held_count
release-Balances a c = ground arith

move_to-Balances :
    (a : ℕ) (b : Bool) (s : PortState) (c : Channel) → in_rings a (move_to b s c) ≡ in_rings a c
unfolding move_to
move_to-Balances a true s c = ground arith
move_to-Balances a false s c = ground arith

answer-Balances : (a : ℕ) (k : Call) (m : Model) → Balances a k m (answer k m)
unfolding answer spent receive
answer-Balances a Call.wakes (c, n) = omega arith
answer-Balances a Call.shuts_down (c, n) = omega arith
answer-Balances a Call.destroys (c, n) =
    omega (arith, release-Balances a (record c { destroyed = true }))
answer-Balances a (Call.opens_uv f user) (c, n) = omega arith
answer-Balances a (Call.opens_thread f user) (c, n) = ground arith
answer-Balances a (Call.writes b source len) m = writes-Balances a b source len m
answer-Balances a (Call.reads true) (c, n) =
    omega (arith, receive-Balances a true (is_ended c.thread_state) c.to_uv c refl)
answer-Balances a (Call.reads false) (c, n) =
    omega (arith, receive-Balances a false (is_ended c.uv_state) c.to_thread c refl)
answer-Balances a (Call.ends b) (c, n) =
    omega (arith, release-Balances a (move_to b ended c), move_to-Balances a b ended c)
answer-Balances a (Call.closes b) (c, n) =
    omega (arith, release-Balances a (move_to b closed c), move_to-Balances a b closed c)
answer-Balances a (Call.asks_readable b) (c, n) = omega arith
answer-Balances a (Call.asks_writable b) (c, n) = omega arith

unfoldable pub all_given : ℕ → List Reply → ℕ
all_given a [] = 0
all_given a (r ∷ rs) = given_count a r + all_given a rs

step-conserves :
    (a : ℕ) (k : Call) (w : World)
    → IsSound w.queue
    → let out = step k w in
      freed_count a out.1.trace
        + in_rings a (view out.1.queue)
        + given_count a out.0
        + born a w.next
      ≡ freed_count a w.trace + in_rings a (view w.queue) + born a out.1.next
step-conserves a k w v =
    let r = step-Refines k w v in
    omega (
      arith,
      step-freed_count a k w v,
      answer-Balances a k (model w),
      ap (λ (m : Model). in_rings a m.0) r.moves,
      ap (λ (m : Model). born a m.1) r.moves,
      ap (given_count a) r.reply,
    )

run-conserves :
    (a : ℕ) (cs : List Call) (w : World)
    → IsSound w.queue
    → let out = run cs w in
      freed_count a out.1.trace + in_rings a (view out.1.queue) + all_given a out.0 + born a w.next
      ≡ freed_count a w.trace + in_rings a (view w.queue) + born a out.1.next
unfolding run all_given
run-conserves a [] w v = omega arith
run-conserves a (c ∷ cs) w v =
    omega
      (arith, step-conserves a c w v, run-conserves a cs (step c w).1 (step-Refines c w v).sound)

created_rings :
    (uv_slots thread_slots : ℕ → Message) {q : Queue} (a : ℕ)
    → create true uv_slots thread_slots ≡ some q
    → in_rings a (view q) ≡ 0
unfolding create view contents window held_count
created_rings us ts a e = ground arith

-- Over any history from a created queue, each block that a write allocated is in one place: it has
-- been freed once, is in a ring, or has been handed out by a read; and no other block is in any of
-- them.
pub blocks_conserved :
    (uv_slots thread_slots : ℕ → Message) {q : Queue} (cs : List Call) (a : ℕ)
    → create true uv_slots thread_slots ≡ some q
    → let out = run cs (started q) in
      freed_count a out.1.trace + in_rings a (view out.1.queue) + all_given a out.0
      ≡ born a out.1.next
unfolding freed_count
blocks_conserved us ts {q} cs a e =
    ground
      (arith, run-conserves a cs (started q) (create-IsSound true us ts e), created_rings us ts a e)
