-- ===== src/Worklet/Thread/Script.antt =====
-- The worklet's JavaScript, on its end of the queue (src/worklet.c), keeps the invariant of the worklet.
use bare_kit.Prelude.{◌≡◌, refl, sym, ap, ◌∙◌, true, false, arith}
use bare_kit.Queue.State.{Event, emit, ended, closed, World}
use bare_kit.Queue.Calls.{Call, step, answer}
use bare_kit.Queue.Channel.{Channel, is_unowned, move_to}
use bare_kit.Queue.Locking.{stage, unlocked, after, ending}
use bare_kit.Queue.Refine.{view}
use bare_kit.Queue.Correct.{model}
use bare_kit.Queue.Lifetime.{IsKept, allowed}
use bare_kit.Worklet.Native.{native_write, native_read, native_end, native_ref, native_unref}
use bare_kit.Worklet.Thread.{Phase, Worklet}
use mathlib.Core.Bool.{false≢true}
use bare_kit.Queue.Wake.States.{writes-SameStates, receive-SameStates}
use bare_kit.Worklet.Thread.Steps.{ScriptCall, script_step, runs_script, may_run, let_go_at}
use bare_kit.Worklet.Thread.Invariant.{release-keeps, Inv}
use bare_kit.Worklet.Thread.Moves.{step-Moves, ended_uv}

-- What the invariant asks of a step of JavaScript at a queue that is not destroyed: that it is not
-- destroyed, and that a closed end stays closed.
record IsScripted (w w' : World) : Type 0 where
  kept : IsKept w'
  same_destroyed : w'.queue.destroyed ≡ w.queue.destroyed
  stays_closed : w.queue.uv_state ≡ closed → w'.queue.uv_state ≡ closed

call-IsScripted :
    (c : Call) (w : World)
    → w.queue.destroyed ≡ false
    → allowed c (view w.queue) ≡ true
    → (answer c (model w)).1.0.destroyed ≡ w.queue.destroyed
    → (w.queue.uv_state ≡ closed → (answer c (model w)).1.0.uv_state ≡ closed)
    → IsKept w
    → IsScripted w (step c w).1
call-IsScripted c w d a same stays k =
    let m = step-Moves c w d a k in
    record { kept = m.kept; same_destroyed = m.gone ∙ same; stays_closed = λ h. m.uv ∙ stays h }

ended-closed : (c : Channel) → c.uv_state ≡ closed → (move_to true ended c).uv_state ≡ closed
unfolding move_to
ended-closed c h = ground arith

-- What JavaScript does to the handle alone.
handle-IsScripted :
    (e : Event) (w : World)
    → after e unlocked ≡ unlocked
    → w.queue.destroyed ≡ false
    → IsKept w
    → IsScripted w (emit e w)
unfolding stage is_unowned view
handle-IsScripted e w free d k =
    let owned : is_unowned (view w.queue) ≡ false = rw d refl in
    let calm = k.accounted ∙ ap ending owned in
    record {
      kept = record {
        sound = k.sound;
        accounted = ap (after e) calm ∙ free ∙ sym (ap ending owned);
      };
      same_destroyed = refl;
      stays_closed = λ h. h;
    }

script_step-IsScripted :
    (c : ScriptCall) (w : World)
    → w.queue.destroyed ≡ false
    → IsKept w
    → IsScripted w (script_step c w)
unfolding script_step native_write native_read native_end native_ref native_unref step view answer
script_step-IsScripted (ScriptCall.writes source len) w d k =
    let s = writes-SameStates true source len (model w) in
    call-IsScripted (Call.writes true source len) w d (rw d refl) s.same_destroyed
      (λ h. s.same_uv ∙ h) k
script_step-IsScripted ScriptCall.reads w d k =
    let s = receive-SameStates true (view w.queue) in
    call-IsScripted (Call.reads true) w d (rw d refl) s.same_destroyed (λ h. s.same_uv ∙ h) k
script_step-IsScripted ScriptCall.ends w d k =
    let r = release-keeps (move_to true ended (view w.queue)) in
    call-IsScripted (Call.ends true) w d (rw d refl) (r.1 ∙ ended_uv (view w.queue))
      (λ h. r.0 ∙ ended-closed (view w.queue) h) k
script_step-IsScripted ScriptCall.refs w d k = handle-IsScripted Event.async_ref w refl d k
script_step-IsScripted ScriptCall.unrefs w d k = handle-IsScripted Event.async_unref w refl d k
script_step-IsScripted ScriptCall.wakes w d k =
    call-IsScripted Call.wakes w d (rw d refl) refl (λ h. h) k

may_run-runs : (c : ScriptCall) (p : Phase) → may_run c p ≡ true → runs_script p ≡ true
may_run-runs ScriptCall.wakes Phase.shut h = absurd (false≢true h)
may_run-runs ScriptCall.wakes Phase.ready h = refl
may_run-runs ScriptCall.wakes Phase.running h = refl
may_run-runs ScriptCall.wakes _ h = absurd (false≢true h)
may_run-runs (ScriptCall.writes source len) p h = h
may_run-runs ScriptCall.reads p h = h
may_run-runs ScriptCall.ends p h = h
may_run-runs ScriptCall.refs p h = h
may_run-runs ScriptCall.unrefs p h = h

script_phase : (p : Phase) → runs_script p ≡ true → let_go_at p ≡ false
script_phase Phase.ready h = refl
script_phase Phase.running h = refl
script_phase Phase.shut h = refl
script_phase _ h = absurd (false≢true h)

pub scripts-Inv :
    (c : ScriptCall) (w : Worklet)
    → may_run c w.phase ≡ true
    → Inv w
    → Inv (record w { world = script_step c w.world })
scripts-Inv c w r v =
    let d = v.owned ∙ script_phase w.phase (may_run-runs c w.phase r) in
    let s = script_step-IsScripted c w.world d v.kept in
    record {
      kept = s.kept;
      owned = s.same_destroyed ∙ v.owned;
      shut_down = λ f. s.stays_closed (v.shut_down f);
      has_bare = v.has_bare;
      posts = v.posts;
      holds = v.holds;
      frees = v.frees;
      exit_calls = v.exit_calls;
    }
