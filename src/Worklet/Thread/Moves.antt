-- ===== src/Worklet/Thread/Moves.antt =====
-- What the calls of the worklet's thread on the queue and its hooks (src/worklet.c) do to the state
-- that the worklet's invariant reads.
use bare_kit.Prelude.{ℕ, ◌+◌, ◌≡◌, refl, ap, ◌∙◌, ℤ, true, false, Option, none, some, arith}
use bare_kit.Queue.State.{ended, closed, World}
use bare_kit.Queue.Ops
use bare_kit.Queue.Calls.{Call, step, answer, Model}
use bare_kit.Queue.Channel.{Channel, move_to}
use bare_kit.Queue.Refine.{view}
use bare_kit.Queue.Correct.{model, step-Refines}
use bare_kit.Queue.Lifetime.{IsKept, step-IsKept, allowed}
use bare_kit.Worklet.State.{Shared}
use bare_kit.Worklet.Control.{publish_bare, retire_bare}
use bare_kit.Worklet.Thread.{call_exit}
use bare_kit.Worklet.Thread.Invariant.{release-keeps, exits, hook_count}

-- What the worklet's own calls of the queue do to the fields that the invariant reads.
pub record Moves (c : Call) (w w' : World) : Type 0 where
  pub kept : IsKept w'
  pub uv : w'.queue.uv_state ≡ (answer c (model w)).1.0.uv_state
  pub gone : w'.queue.destroyed ≡ (answer c (model w)).1.0.destroyed

pub step-Moves :
    (c : Call) (w : World)
    → w.queue.destroyed ≡ false
    → allowed c (view w.queue) ≡ true
    → IsKept w
    → Moves c w (step c w).1
unfolding view
step-Moves c w d a k =
    let m = (step-Refines c w k.sound).moves in
    record {
      kept = step-IsKept c w a k;
      uv = ap (λ (m : Model). m.0.uv_state) m;
      gone = ap (λ (m : Model). m.0.destroyed) m;
    }

pub close_uv :
    (c : Channel)
    → ((move_to true closed c).uv_state ≡ closed)
      × ((move_to true closed c).destroyed ≡ c.destroyed)
unfolding move_to
close_uv c = ground arith

pub ended_uv : (c : Channel) → (move_to true ended c).destroyed ≡ c.destroyed
unfolding move_to
ended_uv c = ground arith

pub open_uv-moves :
    (f user : ℕ) (w : World)
    → w.queue.destroyed ≡ false
    → IsKept w
    → IsKept (Ops.open_uv f user w) × ((Ops.open_uv f user w).queue.destroyed ≡ false)
unfolding step answer view
open_uv-moves f user w d k =
    let m = step-Moves (Call.opens_uv f user) w d (rw d refl) k in (m.kept, m.gone ∙ d)

pub close-moves :
    (w : World)
    → w.queue.destroyed ≡ false
    → IsKept w
    → IsKept (Ops.close true w)
      × ((Ops.close true w).queue.uv_state ≡ closed)
      × ((Ops.close true w).queue.destroyed ≡ false)
unfolding step answer view
close-moves w d k =
    let m = step-Moves (Call.closes true) w d (rw d refl) k in
    let r = release-keeps (move_to true closed (view w.queue)) in
    let c = close_uv (view w.queue) in (m.kept, m.uv ∙ r.0 ∙ c.0, m.gone ∙ r.1 ∙ c.1 ∙ d)

pub shutdown-moves :
    (w : World)
    → w.queue.destroyed ≡ false
    → IsKept w
    → IsKept (Ops.shutdown_uv w)
      × ((Ops.shutdown_uv w).queue.uv_state ≡ w.queue.uv_state)
      × ((Ops.shutdown_uv w).queue.destroyed ≡ false)
unfolding step answer view
shutdown-moves w d k =
    let m = step-Moves Call.shuts_down w d (rw d refl) k in (m.kept, m.uv, m.gone ∙ d)

pub destroy-moves :
    (w : World)
    → w.queue.destroyed ≡ false
    → IsKept w
    → IsKept (Ops.destroy w)
      × ((Ops.destroy w).queue.uv_state ≡ w.queue.uv_state)
      × ((Ops.destroy w).queue.destroyed ≡ true)
unfolding step answer view
destroy-moves w d k =
    let m = step-Moves Call.destroys w d (rw d refl) k in
    let r = release-keeps (record (view w.queue) { destroyed = true }) in
    (m.kept, m.uv ∙ r.0, m.gone ∙ r.1)

pub exits-publish :
    (s : Shared)
    → (exits (publish_bare s).log ≡ exits s.log) × (exits (retire_bare s).log ≡ exits s.log)
unfolding exits publish_bare retire_bare
exits-publish s = (refl, refl)

pub call_exit-exits :
    (f : Option ℕ) (code : ℤ) (user : ℕ) (s : Shared)
    → (exits (call_exit f code user s).log ≡ exits s.log + hook_count f)
      × ((call_exit f code user s).state ≡ s.state)
unfolding exits
call_exit-exits none code user s = ground arith
call_exit-exits (some f) code user s = ground arith
