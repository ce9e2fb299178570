-- ===== src/Queue/Wake/Writer.antt =====
-- No wakeup of src/queue.c is lost on a writer: what makes space for a blocked write, or makes it fail,
-- also signals the end that waits.
use bare_kit.Prelude.{
  ℕ, ◌<◌, ◌≡◌, ap, sym, ◌∙◌, inl, inr, List, [], ◌∷◌, Bool, true, false, Option, arith, Bool-cases,
}
use mathlib.Core.Bool.{false≢true}
use bare_kit.Queue.State.{ended, closed, World}
use bare_kit.Queue.Channel.{Channel}
use bare_kit.Queue.Ops.{
  on_wakeup_uv, open_uv, open_thread, readable, writable, destroy, shutdown_uv, end, close,
}
use bare_kit.Queue.Calls.{Call, step, run, release}
use bare_kit.Queue.Inv.{IsSound}
use bare_kit.Queue.Refine.{view}
use bare_kit.Queue.Correct.{published}
use bare_kit.Queue.State.{listening, Queue}
use bare_kit.Queue.Channel.{is_unowned}
use bare_kit.Queue.Inv.{signal_thread-Keeps}
use bare_kit.Queue.Wake.{signals, heard}
use bare_kit.Queue.Wake.Callback.{stays}
use bare_kit.Queue.Wake.Reader.{IsAwake, AllStay, step-Stirs, step-IsAwake, run-grows, destroy-view}
use bare_kit.Queue.Wake.Space.{
  is_writable, writes_on, AllWriteOn, FreesUp, writes-FreesUp, reads-FreesUp, advance-FreesUp,
}

open_uv-FreesUp : (f user : ℕ) (w : World) → FreesUp false w (open_uv f user w)
unfolding open_uv view
open_uv-FreesUp f user w h = ground arith

open_thread-FreesUp :
    (f : Option ℕ) (user : ℕ) (w : World) → FreesUp true w (open_thread f user w).1
unfolding open_thread view
open_thread-FreesUp f user w h = ground (arith, signal_thread-Keeps (published f user w))

-- While the host end listens, a destroy frees nothing.
release-writable :
    (c : Channel)
    → listening c.thread_state ≡ true
    → is_writable false (release (record c { destroyed = true })) ≡ is_writable false c
unfolding is_unowned
release-writable c l = ground arith

heard-listens : (q : Queue) → heard false q ≡ true → listening (view q).thread_state ≡ true
unfolding view
heard-listens q h = ground arith

destroy-FreesUp :
    (w : World) → IsSound w.queue → heard false w.queue ≡ true → FreesUp false w (destroy w)
destroy-FreesUp w v a h = inl (
    sym (release-writable (view w.queue) (heard-listens w.queue a))
    ∙ ap (is_writable false) (sym (destroy-view w v))
    ∙ h)

step-FreesUp :
    (b : Bool) (c : Call) (w : World)
    → IsAwake b w
    → writes_on b c ≡ true
    → FreesUp b w (step c w).1
unfolding step
step-FreesUp true Call.wakes w a s = unfold on_wakeup_uv in λ h. ground arith
step-FreesUp false Call.wakes w a s = unfold on_wakeup_uv in λ h. ground arith
step-FreesUp b Call.shuts_down w a s = unfold shutdown_uv in λ h. inl h
step-FreesUp true Call.destroys w a s = cc
step-FreesUp false Call.destroys w a s = destroy-FreesUp w a.sound a.hears
step-FreesUp true (Call.opens_uv f user) w a s = cc
step-FreesUp false (Call.opens_uv f user) w a s = open_uv-FreesUp f user w
step-FreesUp true (Call.opens_thread f user) w a s = open_thread-FreesUp f user w
step-FreesUp false (Call.opens_thread f user) w a s = cc
step-FreesUp b (Call.writes p source len) w a s = writes-FreesUp b p source len w a.sound
step-FreesUp b (Call.reads p) w a s = reads-FreesUp b p w a.sound a.hears
step-FreesUp true (Call.ends true) w a s = cc
step-FreesUp false (Call.ends false) w a s = cc
step-FreesUp true (Call.ends false) w a s =
    unfold end in advance-FreesUp false ended w a.sound a.hears
step-FreesUp false (Call.ends true) w a s =
    unfold end in advance-FreesUp true ended w a.sound a.hears
step-FreesUp true (Call.closes true) w a s = cc
step-FreesUp false (Call.closes false) w a s = cc
step-FreesUp true (Call.closes false) w a s =
    unfold close in advance-FreesUp false closed w a.sound a.hears
step-FreesUp false (Call.closes true) w a s =
    unfold close in advance-FreesUp true closed w a.sound a.hears
step-FreesUp b (Call.asks_readable p) w a s = unfold readable in λ h. inl h
step-FreesUp b (Call.asks_writable p) w a s = unfold writable in λ h. inl h

writes_on-stays : (b : Bool) (c : Call) → writes_on b c ≡ true → stays b c ≡ true
writes_on-stays b c s = ground arith

pub AllWriteOn-AllStay : (b : Bool) (cs : List Call) → AllWriteOn b cs → AllStay b cs
AllWriteOn-AllStay b [] s = tt
AllWriteOn-AllStay b (c ∷ cs) s = (writes_on-stays b c s.0, AllWriteOn-AllStay b cs s.1)

-- While an end with valid rings hears its signals, keeps its port and owns its share, no history of
-- calls in which it does not end its own side, and which leave the port as it is, makes a write of
-- it possible, or bound to fail, that had to wait for space, without also signalling that end.
pub no_lost_space :
    (b : Bool) (cs : List Call) (w : World)
    → IsAwake b w
    → AllWriteOn b cs
    → is_writable b (view w.queue) ≡ false
    → is_writable b (view (run cs w).1.queue) ≡ true
    → signals b w.trace < signals b (run cs w).1.trace
unfolding run
no_lost_space b [] w a s h r = absurd (false≢true (sym h ∙ r))
no_lost_space b (c ∷ cs) w a s h r =
    let stay = AllWriteOn-AllStay b (c ∷ cs) s in
    let t = step-Stirs b c w a.sound stay.0 a.hears in
    let a' = step-IsAwake b c w stay.0 a in
    elim (Bool-cases (is_writable b (view (step c w).1.queue))) [
      | inl e ↦ elim (step-FreesUp b c w a s.0 e) [
        | inl before ↦ absurd (false≢true (sym h ∙ before))
        | inr more ↦ omega (arith, run-grows b cs (step c w).1 stay.1 a')
      ]
      | inr e ↦ omega (arith, t.0, no_lost_space b cs (step c w).1 a' s.1 e r)
    ]
