-- ===== src/Queue/History.antt =====
-- Histories of calls of src/queue.c from a fresh queue.
use bare_kit.Prelude.{ℕ, ◌≡◌, refl, ap₂, List, [], ◌∷◌, Bool, some, arith}
use bare_kit.Ring.{Message}
use bare_kit.Queue.State.{Queue, World}
use bare_kit.Queue.Ops.{create}
use bare_kit.Queue.Calls.{Call, step, run, answers}
use bare_kit.Queue.Inv.{IsSound}
use bare_kit.Queue.Correct.{step-Refines, model}

-- A queue that `bare_queue_create` returns has valid rings.
pub create-IsSound :
    (ok : Bool) (uv_slots thread_slots : ℕ → Message) {q : Queue}
    → create ok uv_slots thread_slots ≡ some q
    → IsSound q
unfolding create
create-IsSound ok uv_slots thread_slots e = ground arith

pub run-IsSound : (cs : List Call) (w : World) → IsSound w.queue → IsSound (run cs w).1.queue
unfolding run
run-IsSound [] w v = v
run-IsSound (c ∷ cs) w v = run-IsSound cs (step c w).1 (step-Refines c w v).sound

-- Any history of calls of the two ends, from a queue with valid rings, gets the replies of the
-- channel (two bounded first-in first-out lists of messages and two port states) and leaves the
-- queue standing for the channel's state.
pub run_refines :
    (cs : List Call) (w : World)
    → IsSound w.queue
    → ((run cs w).0 ≡ (answers cs (model w)).0) × (model (run cs w).1 ≡ (answers cs (model w)).1)
unfolding run answers
run_refines [] w v = (refl, refl)
run_refines (c ∷ cs) w v =
    let s = step-Refines c w v in
    let r = run_refines cs (step c w).1 s.sound in rw (← s.reply, ← s.moves) (ap₂ ◌∷◌ refl r.0, r.1)
