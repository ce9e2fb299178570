-- ===== src/Queue/Wake/Open.antt =====
-- What an end hears of messages that were queued before it was opened (src/queue.c).
use bare_kit.Prelude.{ℕ, ◌+◌, ◌≡◌, true, false, some, arith, if◌then◌else◌}
use bare_kit.Ring.{ring_empty}
use bare_kit.Queue.State.{idle, World}
use bare_kit.Queue.Ops.{open_thread, open_uv}
use bare_kit.Queue.Correct.{published}
use bare_kit.Queue.Wake.{signals, signal_thread-signals}

-- Opening the host end of a queue whose host end is idle, with a callback, signals it once if the
-- worklet has queued messages before, and not otherwise; the worklet's end is not signalled.
pub open_thread-signals :
    (f user : ℕ) (w : World)
    → w.queue.thread_state ≡ idle
    → let out = open_thread (some f) user w in
      (signals false out.1.trace ≡ (
        if ring_empty w.queue.to_thread then signals false w.trace else signals false w.trace + 1))
      × (signals true out.1.trace ≡ signals true w.trace)
unfolding open_thread signals
open_thread-signals f user w h = ground (arith, signal_thread-signals (published (some f) user w))

-- Opening the worklet's end of a queue signals it once if the host has queued messages before, and
-- not otherwise; the host's end is not signalled.
pub open_uv-signals :
    (f user : ℕ) (w : World)
    → (signals true (open_uv f user w).trace
        ≡ (if ring_empty w.queue.to_uv then signals true w.trace else signals true w.trace + 1))
      × (signals false (open_uv f user w).trace ≡ signals false w.trace)
unfolding open_uv signals
open_uv-signals f user w = ground arith
