-- ===== src/Worklet/Tests.antt =====
-- Runs of the worklet's control, thread and process (src/worklet.c) at concrete states.
use bare_kit.Prelude.{
  min, int_max, ◌≡◌, ◌≢◌, ◌⊎◌, ◌↔◌, refl, pos, negsuc, true, false, none, some, [], ◌∷◌, arith,
  if◌then◌else◌,
}
use bare_kit.Ring.{Message}
use bare_kit.Queue.State.{idle, opened, closed, Queue, World}
use bare_kit.Queue.Ops
use bare_kit.Queue.Locking.{stage, freed, fault}
use bare_kit.Ring.Refine.{contents, window}
use bare_kit.Queue.Inv.{IsSound}
use bare_kit.Queue.Refine.{view}
use bare_kit.Queue.Channel.{send, receive}
use bare_kit.Queue.Calls.{message_at}
use bare_kit.Queue.Payload.{AllFull}
use bare_kit.Worklet.Native.{
  native_read, native_write, shown, shown_sent, native_read_lem, native_write_lem,
}
use bare_kit.Queue.Lifetime.{started}
use bare_kit.Worklet.State.{Hook, Callbacks, Note, Shared}
use bare_kit.Worklet.Control.{suspend, wakeup, resume, terminate}
use bare_kit.Worklet.Control.Suspension.{
  Moment, happen, happens, held, held-happen, stale_idle, AllTimed, happen-AllTimed,
}
use bare_kit.Worklet.Process.{Process, Life, may_finish, begin_teardown}
use bare_kit.Worklet.Process.Count.{
  Reach, begin, later, here, tears_down, weight, fresh, teardown_final,
}
use bare_kit.Worklet.Thread.{Worklet, thread_advance, advance_of, launch}
use bare_kit.Worklet.Thread.Steps
use bare_kit.Worklet.Thread.Steps.{exited_at, let_go_at, script_step}
use bare_kit.Worklet.Thread.Invariant.{exits, hook_count}
use bare_kit.Worklet.Thread.Reach.{
  Reached, created, Reached-IsSafe, held_state, Reached-exits, exited-IsClosed, left_alone,
}

abbrev no_hook : Hook
no_hook = record { fn = none; user = 0 }

abbrev hooks : Callbacks
hooks = record {
  suspend = record { fn = some 1; user = 10 };
  wakeup = no_hook;
  idle = no_hook;
  resume = no_hook;
  exit = record { fn = some 2; user = 20 };
}

-- A running worklet that the host has suspended.
abbrev suspended_worklet : Shared
suspended_worklet = record {
  state = record {
    finished = false;
    bare = true;
    suspended = true;
    resuming = false;
    callbacks = hooks;
  };
  log = Note.suspension_start (pos 5) ∷ [];
}

held-happen_example : held (happen Moment.resumes suspended_worklet).log ≡ false
held-happen_example = held-happen Moment.resumes suspended_worklet

-- The host resumes the worklet, and suspends it again before the thread has seen that.
stale_idle_example :
    let now = happens (Moment.suspends (negsuc 0) ∷ []) (happen Moment.resumes suspended_worklet) in
    held (happen Moment.goes_idle now).log ≡ held now.log
stale_idle_example =
    stale_idle (Moment.suspends (negsuc 0) ∷ []) suspended_worklet refl refl (refl, tt)

happen-AllTimed_example : AllTimed (happen (Moment.wakes (negsuc 0)) suspended_worklet).log
happen-AllTimed_example = happen-AllTimed (Moment.wakes (negsuc 0)) suspended_worklet (tt, tt)

abbrev fresh_process : Process
fresh_process = fresh.process

fresh-torn_down : Reach 3 (record fresh { process = begin_teardown fresh_process })
fresh-torn_down = later begin tears_down

teardown_final_example : weight Life.unstarted ≡ 0
unfolding may_finish begin_teardown
teardown_final_example = teardown_final fresh-torn_down refl refl here 1 (omega arith)

abbrev blank : Message
blank = record { base = none; len = 0 }

abbrev queue : Queue
queue = record {
  to_uv = record { slots = λ i. blank; head = 0; tail = 0 };
  to_thread = record { slots = λ i. blank; head = 0; tail = 0 };
  uv_state = idle;
  thread_state = idle;
  destroyed = false;
  on_signal_thread = none;
  on_recv_uv = none;
  uv_port = record { is_uv = true; user = 0 };
  thread_port = record { is_uv = false; user = 0 };
}

abbrev new_worklet : Worklet
new_worklet = created queue hooks

new-Reached : Reached new_worklet
unfolding Ops.create
new-Reached = Reached.creates (λ i. blank) (λ i. blank) hooks refl

-- The host starts the worklet, whose thread runs it to its end and calls the exit callback.
abbrev advance : Worklet → Worklet
advance w = thread_advance 9 (pos 3) w

abbrev ran : Worklet
ran =
    advance
      (advance (advance (advance (advance (advance (advance (advance (launch new_worklet))))))))

go : {w : Worklet} → Reached w → Reached (advance w)
go r = Reached.takes r (Steps.Step.runs 9 (pos 3))

ran-Reached : Reached ran
ran-Reached =
    go
      (go (go (go (go (go (go (go (Reached.takes new-Reached (Steps.Step.launches refl refl)))))))))

ran-exited : exited_at ran.phase ≡ true
unfolding thread_advance advance_of launch
ran-exited = refl

-- The thread has shut the handle down, and JavaScript refers to it inside the teardown.
abbrev shut_worklet : Worklet
shut_worklet =
    advance (advance (advance (advance (advance (advance (advance (launch new_worklet)))))))

shut_worklet-may_run : Steps.may_run Steps.ScriptCall.refs shut_worklet.phase ≡ true
unfolding thread_advance advance_of launch
shut_worklet-may_run = refl

abbrev scripted : Worklet
scripted = record shut_worklet { world = script_step Steps.ScriptCall.refs shut_worklet.world }

scripted-Reached : Reached scripted
scripted-Reached =
    Reached.takes
      (go (go (go (go (go (go (go (Reached.takes new-Reached (Steps.Step.launches refl refl)))))))))
      (Steps.Step.scripts Steps.ScriptCall.refs shut_worklet-may_run)

Reached-IsSafe_example :
    (stage scripted.world.trace ≢ fault)
    × ((stage scripted.world.trace ≡ freed) ↔ (
        (let_go_at scripted.phase ≡ true)
        × ((scripted.world.queue.thread_state ≡ idle)
            ⊎ (scripted.world.queue.thread_state ≡ closed))))
Reached-IsSafe_example = Reached-IsSafe scripted-Reached

ran-handle : ran.handle ≡ true
unfolding thread_advance advance_of launch
ran-handle = refl

held_state_example : ran.freed ≡ false
held_state_example = held_state ran-Reached ran-handle

Reached-exits_example :
    exits ran.shared.log
    ≡ (if exited_at ran.phase then hook_count ran.shared.state.callbacks.exit.fn else 0)
Reached-exits_example = Reached-exits ran-Reached

exited-IsClosed_example :
    (ran.world.queue.uv_state ≡ closed)
    × (suspend (negsuc 0) (pos 5) ran.shared ≡ left_alone ran.shared)
    × (wakeup (negsuc 0) (pos 5) ran.shared ≡ left_alone ran.shared)
    × (resume (negsuc 0) ran.shared ≡ left_alone ran.shared)
    × (terminate (negsuc 0) ran.shared ≡ left_alone ran.shared)
exited-IsClosed_example = exited-IsClosed (negsuc 0) (pos 5) ran-Reached ran-exited

abbrev lone : Message
lone = record { base = some (record { address = 0; bytes = 6 ∷ [] }); len = 1 }

-- The worklet's end is open, and the host has sent it one byte.
abbrev told : World
told = started (record queue {
  uv_state = opened;
  thread_state = opened;
  to_uv = record { slots = λ i. lone; head = 1; tail = 0 };
})

told-IsSound : IsSound told.queue
told-IsSound = record {
  to_uv_valid = record { head_in = omega arith; tail_in = omega arith };
  to_thread_valid = record { head_in = omega arith; tail_in = omega arith };
}

told-AllFull : AllFull (contents told.queue.to_uv)
unfolding contents window
told-AllFull = ((record { address = 0; bytes = 6 ∷ [] }, refl, refl, omega arith, omega arith), tt)

native_read_lem_example :
    ((native_read told).0 ≡ shown (receive true (view told.queue)).0)
    × (view (native_read told).1.queue ≡ (receive true (view told.queue)).1)
native_read_lem_example = native_read_lem told told-IsSound told-AllFull

native_write_lem_example :
    let s = send true (message_at 0 (8 ∷ 9 ∷ []) (min 2 int_max)) (view told.queue) in
    ((native_write (8 ∷ 9 ∷ []) 2 told).0 ≡ shown_sent (min 2 int_max) s.0)
    × (view (native_write (8 ∷ 9 ∷ []) 2 told).1.queue ≡ s.1)
native_write_lem_example = native_write_lem (8 ∷ 9 ∷ []) 2 told (omega arith) told-IsSound
