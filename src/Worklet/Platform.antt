-- ===== src/Worklet/Platform.antt =====
-- The JavaScript platform that the worklets of a process share (src/worklet.c): the thread that owns it,
-- `bare_worklet__on_platform_init`, which the first worklet runs under `uv_once`, and the end of
-- `bare_worklet_teardown`. Each function here is the next action of one thread, none where it waits.
pub mod Steps
pub mod Owner
pub mod Users
pub mod Lives
pub mod Ends
pub mod Order
mod Tests
use bare_kit.Prelude.{ℕ, ◌+◌, Bool, true, false, Option, none, some, ◌==◌, ◌&&◌, if◌then◌else◌}
use bare_kit.Ring.{update}
use bare_kit.Worklet.Process.{Process, begin_teardown, may_finish}
use bare_kit.Worklet.Process.Count.{System}

-- `bare_worklet__on_platform_init`: nothing done yet, the barrier made, the thread made, and at the
-- barrier.
pub data Init : Type 0 where
  begun barrier_made thread_made at_barrier : Init

-- `bare_worklet__platform_guard`, with the worklet that runs the function.
pub data Once : Type 0 where
  unused done : Once
  busy : ℕ → Init → Once

-- `bare_worklet__on_platform_thread`: behind its start, `uv_async_init`, `js_create_platform`, at the
-- barrier, in the first `uv_run`, behind it, behind `js_destroy_platform`, and returned.
pub data Stage : Type 0 where
  unborn started listening created arrived serving closing destroyed ended : Stage

-- `bare_worklet__platform_shutdown`.
pub data Async : Type 0 where
  uninitialised open_handle sent closed_handle : Async

-- What a worklet's thread has to do with the platform: not yet, past the guard, between `bare_setup` and
-- the end of `bare_teardown`, and no more.
pub data Use : Type 0 where
  before past using left : Use

-- `bare_worklet_teardown`: not called, waiting for the worklets, past the wait, waiting for the thread,
-- and returned.
pub data Teardown : Type 0 where
  idle waits waited joins returned : Teardown

-- `has_platform` is whether the pointer `bare_worklet__platform` is set, and `live` whether what it
-- points to is there.
pub record Platform : Type 0 where
  pub core : System
  pub once : Once
  pub thread : Stage
  pub at_ready : ℕ
  pub async : Async
  pub has_platform : Bool
  pub live : Bool
  pub uses : ℕ → Use
  pub teardown : Teardown

-- The loop runs until `bare_worklet__on_platform_shutdown` has closed the handle.
abbrev pub on_shutdown : Async → Platform → Option Platform
on_shutdown sent s = some (record s { async = closed_handle; thread = closing })
on_shutdown _ s = none

abbrev pub thread_from : Stage → Platform → Option Platform
thread_from unborn s = none
thread_from started s = some (record s { async = open_handle; thread = listening })
thread_from listening s = some (record s { has_platform = true; live = true; thread = created })
thread_from created s = some (record s { at_ready = s.at_ready + 1; thread = arrived })
thread_from arrived s = if s.at_ready == 2 then some (record s { thread = serving }) else none
thread_from serving s = on_shutdown s.async s
thread_from closing s = some (record s { live = false; thread = destroyed })
thread_from destroyed s = some (record s { thread = ended })
thread_from ended s = none

unfoldable pub thread_step : Platform → Option Platform
thread_step s = thread_from s.thread s

-- The worklet `i` in `bare_worklet__on_platform_init`.
abbrev pub init_from : Init → ℕ → Platform → Option Platform
init_from begun i s = some (record s { at_ready = 0; once = busy i barrier_made })
init_from barrier_made i s = some (record s { thread = started; once = busy i thread_made })
init_from thread_made i s = some (record s { at_ready = s.at_ready + 1; once = busy i at_barrier })
init_from at_barrier i s =
    if s.at_ready == 2 then some (record s { once = done; uses = update s.uses i past }) else none

-- `uv_once`: the first runs the function, and the others wait until it has returned.
abbrev pub once_from : Once → ℕ → Platform → Option Platform
once_from unused i s = some (record s { once = busy i begun })
once_from done i s = some (record s { uses = update s.uses i past })
once_from (busy j stage) i s = let next = init_from stage i s in if j == i then next else none

abbrev pub use_from : Use → ℕ → Platform → Option Platform
use_from before i s = once_from s.once i s
use_from past i s = some (record s { uses = update s.uses i using })
use_from using i s = some (record s { uses = update s.uses i left })
use_from left i s = none

unfoldable pub worklet_step : ℕ → Platform → Option Platform
worklet_step i s = use_from (s.uses i) i s

abbrev pub torn : Platform → Platform
torn s = record s { core = record s.core { process = begin_teardown s.core.process } }

abbrev pub is_ended_thread : Stage → Bool
is_ended_thread ended = true
is_ended_thread _ = false

-- Whether there is a platform to shut down.
abbrev pub shut_down : Bool → Platform → Option Platform
shut_down true s = some (record s { async = sent; teardown = joins })
shut_down false s = some (record s { teardown = returned })

abbrev pub teardown_from : Teardown → Platform → Option Platform
teardown_from idle s = some (record (torn s) { teardown = waits })
teardown_from waits s =
    if may_finish s.core.process then some (record s { teardown = waited }) else none
teardown_from waited s = shut_down s.has_platform s
teardown_from joins s =
    if is_ended_thread s.thread then some (record s { teardown = returned }) else none
teardown_from returned s = none

unfoldable pub teardown_step : Platform → Option Platform
teardown_step s = teardown_from s.teardown s
