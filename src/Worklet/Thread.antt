-- ===== src/Worklet/Thread.antt =====
-- One worklet of src/worklet.c from its creation to its end: the stages of its thread
-- (`bare_worklet__on_thread`), the host's start and destroy, and the calls of the host's ipc on the
-- queue that both share. Setting up and tearing down Bare, loading the bundle and JavaScript itself are
-- outside, but what JavaScript does on the queue, between `ready` and `finished` and again inside
-- `bare_teardown` behind `shut`, is a step of `Worklet/Thread/Steps.antt`; a stage is what runs between
-- two of the thread's effects on shared state.
pub mod Steps
pub mod Invariant
pub mod Moves
pub mod Stages
pub mod Script
pub mod Reach
use bare_kit.Prelude.{ℕ, ℤ, pos, List, Bool, true, false, Option, none, some, if◌then◌else◌}
use bare_kit.Queue.State.{World}
use bare_kit.Queue.Ops
use bare_kit.Worklet.State.{Hook, State, Note, Shared, note}
use bare_kit.Worklet.Control.{terminate, publish_bare, retire_bare}

-- `unstarted` and `abandoned` have no thread: the host destroys an unstarted worklet by itself.
pub data Phase : Type 0 where
  unstarted abandoned : Phase
  booting loading ready running finished closed_port retired shut torn_down : Phase
  stopped released let_go gone : Phase

-- `posted` is whether the host has posted the `finished` semaphore, `handle` whether it still holds
-- the worklet, and `freed` whether the shared state has been freed.
pub record Worklet : Type 0 where
  pub shared : Shared
  pub world : World
  pub phase : Phase
  pub posted : Bool
  pub handle : Bool
  pub freed : Bool

abbrev pub call_exit : Option ℕ → ℤ → ℕ → Shared → Shared
call_exit none code user s = s
call_exit (some f) code user s = note (Note.calls_exit f code user) s

-- The next stage of the thread; `on_signal` is the function `bare_worklet__on_ipc_signal` and `code`
-- the exit code that Bare gives. The thread waits for the host at `stopped`.
unfoldable pub advance_of : Phase → ℕ → ℤ → Worklet → Worklet
advance_of Phase.booting on_signal code w = record w {
  shared = publish_bare w.shared;
  phase = Phase.loading;
}
advance_of Phase.loading on_signal code w = record w {
  world = Ops.open_uv on_signal 1 w.world;
  phase = Phase.ready;
}
advance_of Phase.ready on_signal code w = record w { phase = Phase.running }
advance_of Phase.running on_signal code w = record w {
  shared = record w.shared { state = record w.shared.state { finished = true } };
  phase = Phase.finished;
}
advance_of Phase.finished on_signal code w = record w {
  world = Ops.close true w.world;
  phase = Phase.closed_port;
}
advance_of Phase.closed_port on_signal code w = record w {
  shared = retire_bare w.shared;
  phase = Phase.retired;
}
advance_of Phase.retired on_signal code w = record w {
  world = Ops.shutdown_uv w.world;
  phase = Phase.shut;
}
advance_of Phase.shut on_signal code w =
    let h = w.shared.state.callbacks.exit in
    record w { shared = call_exit h.fn code h.user w.shared; phase = Phase.torn_down }
advance_of Phase.torn_down on_signal code w = record w { phase = Phase.stopped }
advance_of Phase.stopped on_signal code w =
    if w.posted then record w { phase = Phase.released } else w
advance_of Phase.released on_signal code w = record w {
  world = Ops.destroy w.world;
  phase = Phase.let_go;
}
advance_of Phase.let_go on_signal code w = record w { freed = true; phase = Phase.gone }
advance_of _ on_signal code w = w

unfoldable pub thread_advance : ℕ → ℤ → Worklet → Worklet
unfolding advance_of
thread_advance on_signal code w = advance_of w.phase on_signal code w

-- `bare_worklet_start` once it has been admitted and has its thread.
unfoldable pub launch : Worklet → Worklet
launch w = record w { phase = Phase.booting }

-- `bare_worklet_destroy` on a worklet with a thread: terminate it and let it tear itself down.
unfoldable pub destroy_started : ℤ → Worklet → Worklet
destroy_started err w = record w {
  shared = (terminate err w.shared).1;
  posted = true;
  handle = false;
}

-- `bare_worklet_destroy` on a worklet that never got a thread.
unfoldable pub destroy_unstarted : Worklet → Worklet
destroy_unstarted w = record w {
  world = Ops.destroy (Ops.close true w.world);
  phase = Phase.abandoned;
  handle = false;
  freed = true;
}

-- Whether the worklet has no thread, as `thread` is 0.
abbrev pub is_unstarted : Phase → Bool
is_unstarted Phase.unstarted = true
is_unstarted _ = false

unfoldable pub destroy : ℤ → Worklet → Worklet
unfolding destroy_started destroy_unstarted
destroy err w = if is_unstarted w.phase then destroy_unstarted w else destroy_started err w
