-- ===== src/Worklet/Thread/Steps.antt =====
-- The steps of a worklet of src/worklet.c: its thread, its host, its JavaScript and its host's ipc, in
-- any interleaving of them, and what a stage of the thread stands behind.
use bare_kit.Prelude.{ℕ, ◌≡◌, ℤ, List, Bool, true, false, Option}
use bare_kit.Queue.State.{listening, World}
use bare_kit.Queue.Ops
use bare_kit.Worklet.Native.{native_write, native_read, native_end, native_ref, native_unref}
use bare_kit.Queue.Calls.{Call, step}
use bare_kit.Worklet.Control.Suspension.{Moment, happen}
use bare_kit.Worklet.Thread.{Phase, Worklet, thread_advance, launch, destroy}

-- The calls of an ipc on the host's end of the queue.
pub data HostCall : Type 0 where
  opens : Option ℕ → ℕ → HostCall
  writes : List ℕ → ℕ → HostCall
  reads ends closes asks_readable asks_writable : HostCall

abbrev pub call_of : HostCall → Call
call_of (HostCall.opens f user) = Call.opens_thread f user
call_of (HostCall.writes source len) = Call.writes false source len
call_of HostCall.reads = Call.reads false
call_of HostCall.ends = Call.ends false
call_of HostCall.closes = Call.closes false
call_of HostCall.asks_readable = Call.asks_readable false
call_of HostCall.asks_writable = Call.asks_writable false

-- An ipc is created while the host holds the worklet, and used until it is closed.
abbrev pub is_fair : HostCall → Worklet → Bool
is_fair (HostCall.opens f user) w = w.handle
is_fair c w = listening w.world.queue.thread_state

-- What the worklet's JavaScript does on the worklet's end of the queue, and the async handle's
-- callback on the worklet's event loop.
pub data ScriptCall : Type 0 where
  writes : List ℕ → ℕ → ScriptCall
  reads ends refs unrefs wakes : ScriptCall

unfoldable pub script_step : ScriptCall → World → World
script_step (ScriptCall.writes source len) w = (native_write source len w).1
script_step ScriptCall.reads w = (native_read w).1
script_step ScriptCall.ends w = native_end w
script_step ScriptCall.refs w = native_ref w
script_step ScriptCall.unrefs w = native_unref w
script_step ScriptCall.wakes w = Ops.on_wakeup_uv w

-- The stages in which the worklet's JavaScript runs with its ipc set up: from its start on, and again
-- inside `bare_teardown`, which runs its exit handlers and its loop between `shut` and the exit
-- callback, behind the closing of the port and of the async handle.
abbrev pub runs_script : Phase → Bool
runs_script Phase.ready = true
runs_script Phase.running = true
runs_script Phase.shut = true
runs_script _ = false

-- A closed async handle has no callback any more.
abbrev pub may_run : ScriptCall → Phase → Bool
may_run ScriptCall.wakes Phase.shut = false
may_run c p = runs_script p

pub data Step (w : Worklet) : Worklet → Type 0 where
  launches : w.handle ≡ true → w.phase ≡ Phase.unstarted → Step w (launch w)
  runs : (on_signal : ℕ) (code : ℤ) → Step w (thread_advance on_signal code w)
  controls : (m : Moment) → w.handle ≡ true → Step w (record w { shared = happen m w.shared })
  handles : (m : Moment) → w.freed ≡ false → Step w (record w { shared = happen m w.shared })
  destroys : (err : ℤ) → w.handle ≡ true → Step w (destroy err w)
  scripts :
      (c : ScriptCall)
      → may_run c w.phase ≡ true
      → Step w (record w { world = script_step c w.world })
  uses :
      (c : HostCall)
      → is_fair c w ≡ true
      → Step w (record w { world = (step (call_of c) w.world).1 })

-- Whether a stage stands behind the destruction of the queue, the closing of its port, the setting
-- of the runtime, the exit callback, and the semaphore.
abbrev pub let_go_at : Phase → Bool
let_go_at Phase.abandoned = true
let_go_at Phase.let_go = true
let_go_at Phase.gone = true
let_go_at _ = false

abbrev pub closed_at : Phase → Bool
closed_at Phase.abandoned = true
closed_at Phase.unstarted = false
closed_at Phase.booting = false
closed_at Phase.loading = false
closed_at Phase.ready = false
closed_at Phase.running = false
closed_at Phase.finished = false
closed_at _ = true

abbrev pub bare_at : Phase → Bool
bare_at Phase.loading = true
bare_at Phase.ready = true
bare_at Phase.running = true
bare_at Phase.finished = true
bare_at Phase.closed_port = true
bare_at _ = false

abbrev pub exited_at : Phase → Bool
exited_at Phase.torn_down = true
exited_at Phase.stopped = true
exited_at Phase.released = true
exited_at Phase.let_go = true
exited_at Phase.gone = true
exited_at _ = false

abbrev pub needs_post : Phase → Bool
needs_post Phase.released = true
needs_post Phase.let_go = true
needs_post Phase.gone = true
needs_post _ = false

abbrev pub freed_at : Phase → Bool
freed_at Phase.abandoned = true
freed_at Phase.gone = true
freed_at _ = false
