-- ===== src/Queue/Inv.antt =====
-- The rings of a queue stay valid under its operations, and a signal leaves the queue alone.
use bare_kit.Prelude.{ℕ, ◌≡◌, refl, Bool, Option, none, some, arith}
use bare_kit.Ring.Inv.{IsValid}
use bare_kit.Queue.State.{Queue, World, signal_uv, signal_thread, signal_peer, call_thread}

pub record IsSound (q : Queue) : Type 0 where
  pub to_uv_valid : IsValid q.to_uv
  pub to_thread_valid : IsValid q.to_thread

-- A signal only adds to the trace.
abbrev pub Keeps : World → World → Type 0
Keeps w w' = (w'.queue ≡ w.queue) × (w'.next ≡ w.next)

call_thread-Keeps : (f : Option ℕ) (w : World) → Keeps w (call_thread f w)
call_thread-Keeps none w = (refl, refl)
call_thread-Keeps (some f) w = (refl, refl)

pub signal_uv-Keeps : (w : World) → Keeps w (signal_uv w)
unfolding signal_uv
signal_uv-Keeps w = ground arith

pub signal_thread-Keeps : (w : World) → Keeps w (signal_thread w)
unfolding signal_thread
signal_thread-Keeps w = ground (arith, call_thread-Keeps w.queue.on_signal_thread w)

pub signal_peer-Keeps : (is_uv : Bool) (w : World) → Keeps w (signal_peer is_uv w)
unfolding signal_peer
signal_peer-Keeps is_uv w = ground (arith, signal_uv-Keeps w, signal_thread-Keeps w)
