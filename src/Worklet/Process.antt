-- ===== src/Worklet/Process.antt =====
-- The count of running worklets of src/worklet.c, which `bare_worklet_teardown` waits on: the static
-- variables `bare_worklet__running` and `bare_worklet__torn_down`, and the worklets of the process as
-- a family of life stages. Each critical section of `bare_worklet__running_lock` is one step.
pub mod Count
use bare_kit.Prelude.{
  ℕ, ◌+◌, ◌-◌, ◌<◌, ◌≡◌, ℤ, pos, negsuc, Bool, true, false, Option, none, some, ◌==◌, if◌then◌else◌,
}

pub record Process : Type 0 where
  pub running : ℕ
  pub torn_down : Bool

-- What became of a worklet: not started, admitted to start but with no thread yet, on a thread that
-- has not stopped, or stopped.
pub data Life : Type 0 where
  unstarted starting alive stopped : Life

-- The part of `bare_worklet_start` under the lock: whether the worklet may start.
unfoldable pub admit : Process → Bool × Process
admit p = if p.torn_down then (false, p) else (true, record p { running = p.running + 1 })

-- `bare_worklet__on_stopped`: the result is whether the teardown's condition is signalled.
unfoldable pub on_stopped : Process → Bool × Process
on_stopped p = (p.running - 1 == 0, record p { running = p.running - 1 })

-- `bare_worklet_start` with nothing between its critical sections: `err` is what `uv_thread_create`
-- returns, negative if it made no thread.
unfoldable pub start : ℤ → Process → ℤ × Life × Process
unfolding admit on_stopped
start err p =
    let (admitted, p') = admit p in
    if admitted
    then elim err [
      | pos n ↦ (pos 0, alive, p')
      | negsuc n ↦ (negsuc n, unstarted, (on_stopped p').1)
    ]
    else (negsuc 0, unstarted, p')

-- The part of `bare_worklet_teardown` before it waits, and the test of its loop.
unfoldable pub begin_teardown : Process → Process
begin_teardown p = record p { torn_down = true }

unfoldable pub may_finish : Process → Bool
may_finish p = p.running == 0
