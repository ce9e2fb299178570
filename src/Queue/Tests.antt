-- ===== src/Queue/Tests.antt =====
-- Runs of the queue's code (src/queue.c) at concrete inputs.
use bare_kit.Prelude.{
  ◌&&◌, ◌+◌, ◌≡◌, ◌≢◌, ◌<◌, ◌⊎◌, ◌↔◌, refl, List, [], ◌∷◌, true, false, none, some, arith, cap_int,
  to_int,
}
use bare_kit.Ring.{Ring, Message, ring_shift, ring_empty, ring_push}
use bare_kit.Ring.Refine.{contents, window, length-contents}
use bare_kit.Queue.State.{idle, opened, closed, Queue, World, signal_peer, unowned}
use bare_kit.Queue.Ops
use bare_kit.Queue.Calls.{Call, step, run, answers}
use bare_kit.Queue.Inv.{IsSound}
use bare_kit.Queue.Refine.{view}
use bare_kit.Queue.Correct.{model, step-Refines}
use bare_kit.Queue.History.{run_refines, create-IsSound}
use bare_kit.Queue.Lifetime.{started, IsLegal, run-lifetime}
use bare_kit.Queue.Locking.{stage, freed, fault, ending, lets_go, step-stage}
use bare_kit.Queue.Wake.{signals}
use bare_kit.Queue.Wake.Steps.{stirs, hears_of, one_if, step-signals}
use bare_kit.Queue.Wake.Effects.{is_readable}
use bare_kit.Queue.Wake.Reader.{IsAwake, no_lost_wakeup}
use bare_kit.Queue.Drain.{Drains, drain-Drains}

abbrev pub blank : Message
blank = record { base = none; len = 0 }

abbrev pub fresh_ring : Ring
fresh_ring = record { slots = λ i. blank; head = 0; tail = 0 }

abbrev pub fresh_queue : Queue
fresh_queue = record {
  to_uv = fresh_ring;
  to_thread = fresh_ring;
  uv_state = idle;
  thread_state = idle;
  destroyed = false;
  on_signal_thread = none;
  on_recv_uv = none;
  uv_port = record { is_uv = true; user = 0 };
  thread_port = record { is_uv = false; user = 0 };
}

pub fresh_lem : Ops.create true (λ i. blank) (λ i. blank) ≡ some fresh_queue
unfolding Ops.create
fresh_lem = refl

pub fresh-IsSound : IsSound fresh_queue
fresh-IsSound = create-IsSound true (λ i. blank) (λ i. blank) fresh_lem

-- Both ends open, three bytes to the worklet, and everything closed again.
abbrev pub story : List Call
story =
    Call.opens_thread (some 7) 1
    ∷ Call.opens_uv 8 2
    ∷ Call.writes false (1 ∷ 2 ∷ 3 ∷ []) 3
    ∷ Call.reads true
    ∷ Call.closes false
    ∷ Call.closes true
    ∷ Call.destroys
    ∷ []

run_refines_example :
    ((run story (started fresh_queue)).0 ≡ (answers story (model (started fresh_queue))).0)
    × (model (run story (started fresh_queue)).1 ≡ (answers story (model (started fresh_queue))).1)
run_refines_example = run_refines story (started fresh_queue) fresh-IsSound

story-IsLegal : IsLegal story (started fresh_queue)
unfolding step view Ops.open_thread Ops.open_uv Ops.write Ops.write_locked Ops.read Ops.read_locked
    Ops.close Ops.destroy Ops.advance_locked ring_empty ring_push ring_shift to_int cap_int
    signal_peer unowned
story-IsLegal = (refl, (refl, (refl, (refl, (refl, (refl, (refl, tt)))))))

run-lifetime_example :
    let w = (run story (started fresh_queue)).1 in
    (stage w.trace ≢ fault)
    × ((stage w.trace ≡ freed) ↔ (
        (w.queue.destroyed ≡ true)
        × ((w.queue.thread_state ≡ idle) ⊎ (w.queue.thread_state ≡ closed))))
run-lifetime_example = run-lifetime true (λ i. blank) (λ i. blank) story fresh_lem story-IsLegal

-- Both ends of a queue open, and nothing sent.
abbrev pub open_queue : Queue
open_queue = record fresh_queue {
  uv_state = opened;
  thread_state = opened;
  on_signal_thread = some 7;
  on_recv_uv = some 8;
}

abbrev open_world : World
open_world = started open_queue

open-IsSound : IsSound open_queue
open-IsSound = record {
  to_uv_valid = fresh-IsSound.to_uv_valid;
  to_thread_valid = fresh-IsSound.to_thread_valid;
}

step-stage_example :
    stage (step (Call.writes true (4 ∷ 5 ∷ []) 2) open_world).1.trace
    ≡ ending (lets_go (Call.writes true (4 ∷ 5 ∷ []) 2) (view open_queue))
step-stage_example =
    step-stage (Call.writes true (4 ∷ 5 ∷ []) 2) open_world open-IsSound (unfold stage in refl)

open-IsAwake : IsAwake true open_world
unfolding view
open-IsAwake = record { sound = open-IsSound; hears = refl; owns = refl }

-- The host writes, and then asks for space, while the worklet's end stays as it is.
abbrev sends : List Call
sends = Call.writes false (4 ∷ []) 1 ∷ Call.asks_writable false ∷ []

sends-readable : is_readable true (view (run sends open_world).1.queue) ≡ true
unfolding run step view Ops.write Ops.write_locked Ops.writable ring_empty ring_push to_int cap_int
    signal_peer contents window
sends-readable = refl

open-unreadable : is_readable true (view open_queue) ≡ false
unfolding view contents window
open-unreadable = refl

no_lost_wakeup_example : signals true open_world.trace < signals true (run sends open_world).1.trace
no_lost_wakeup_example =
    no_lost_wakeup true sends open_world open-IsAwake (refl, (refl, tt)) open-unreadable
      sends-readable

drain-Drains_example : Drains fresh_ring open_world (Ops.drain 5 fresh_ring open_world)
drain-Drains_example =
    drain-Drains 5 fresh_ring open_world fresh-IsSound.to_uv_valid
      (omega (arith, length-contents fresh_ring))

-- The worklet queues a byte before the host opens its end.
abbrev early_world : World
early_world = (Ops.write true (4 ∷ []) 1 (started fresh_queue)).1

early-IsSound : IsSound early_world.queue
unfolding step
early-IsSound =
    (step-Refines (Call.writes true (4 ∷ []) 1) (started fresh_queue) fresh-IsSound).sound

abbrev opening : Call
opening = Call.opens_thread (some 7) 1

step-signals_example :
    signals false (step opening early_world).1.trace
    ≡ signals false early_world.trace
      + one_if (stirs false opening (view early_world.queue) && hears_of false opening early_world)
step-signals_example = step-signals false opening early_world early-IsSound
