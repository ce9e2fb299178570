-- ===== src/Queue/Wake/Reader.antt =====
-- No wakeup of src/queue.c is lost on a reader: what makes a port readable also signals it.
use bare_kit.Prelude.{
  ℕ, ◌≤◌, ◌<◌, ◌≡◌, refl, ap, sym, ◌∙◌, inl, inr, List, [], ◌∷◌, Bool, true, false, Option, arith,
  Bool-cases,
}
use mathlib.Core.Bool.{false≢true}
use bare_kit.Queue.State.{ended, closed, Queue, World, Event, emit, listening}
use bare_kit.Queue.Channel.{own}
use bare_kit.Queue.Ops.{
  on_wakeup_uv, open_uv, open_thread, readable, writable, destroy, shutdown_uv, end, close,
}
use bare_kit.Queue.Calls.{Call, step, run, answer, release}
use bare_kit.Queue.Inv.{IsSound}
use bare_kit.Queue.Refine.{view}
use bare_kit.Queue.Correct.{step-Refines, model}
use bare_kit.Queue.Lifetime.{may}
use bare_kit.Queue.Wake.{signals, heard}
use bare_kit.Queue.Wake.Callback.{stays, step-callback}
use bare_kit.Queue.Wake.Effects.{
  is_readable, Stirs, moved, quiet, writes-Stirs, reads-Stirs, advance-Stirs, release-readable,
}
use bare_kit.Queue.Wake.States.{answer-IsUp}
use bare_kit.Queue.Wake.{free_if-signals, signal_thread-signals}
use bare_kit.Queue.Correct.{published}
use bare_kit.Queue.Inv.{signal_thread-Keeps}

-- The end `b` still has its port, hears its signals, and its share of the queue is there.
pub record IsAwake (b : Bool) (w : World) : Type 0 where
  pub sound : IsSound w.queue
  pub hears : heard b w.queue ≡ true
  pub owns : may b (view w.queue) ≡ true

pub destroy-view :
    (w : World)
    → IsSound w.queue
    → view (destroy w).queue ≡ release (record (view w.queue) { destroyed = true })
unfolding step answer
destroy-view w v = moved Call.destroys w v

pub destroy-signals :
    (b : Bool) (w : World) → IsSound w.queue → signals b (destroy w).trace ≡ signals b w.trace
unfolding destroy signals
destroy-signals true w v =
    free_if-signals true _
      (emit Event.unlock
        (record (emit Event.lock w) { queue = record w.queue { destroyed = true } }))
      (record { to_uv_valid = v.to_uv_valid; to_thread_valid = v.to_thread_valid })
destroy-signals false w v =
    free_if-signals false _
      (emit Event.unlock
        (record (emit Event.lock w) { queue = record w.queue { destroyed = true } }))
      (record { to_uv_valid = v.to_uv_valid; to_thread_valid = v.to_thread_valid })

destroy-Stirs : (b : Bool) (w : World) → IsSound w.queue → Stirs b w (destroy w)
destroy-Stirs b w v = quiet b w (destroy w) (destroy-signals b w v) (λ r.
    release-readable b (record (view w.queue) { destroyed = true })
      (sym (ap (is_readable b) (destroy-view w v)) ∙ r))

open_uv-Stirs : (f user : ℕ) (w : World) → Stirs false w (open_uv f user w)
unfolding open_uv signals view
open_uv-Stirs f user w = ground arith

open_thread-Stirs : (f : Option ℕ) (user : ℕ) (w : World) → Stirs true w (open_thread f user w).1
unfolding open_thread signals view
open_thread-Stirs f user w =
    ground
      (arith, signal_thread-signals (published f user w), signal_thread-Keeps (published f user w))

wakes-Stirs : (b : Bool) (w : World) → Stirs b w (on_wakeup_uv w)
unfolding on_wakeup_uv signals
wakes-Stirs true w = ground arith
wakes-Stirs false w = ground arith

shuts_down-Stirs : (b : Bool) (w : World) → Stirs b w (shutdown_uv w)
unfolding shutdown_uv signals
shuts_down-Stirs true w = ground arith
shuts_down-Stirs false w = ground arith

asks-Stirs : (b : Bool) (w : World) → Stirs b w (emit Event.unlock (emit Event.lock w))
unfolding signals
asks-Stirs true w = ground arith
asks-Stirs false w = ground arith

pub step-Stirs :
    (b : Bool) (c : Call) (w : World)
    → IsSound w.queue
    → stays b c ≡ true
    → heard b w.queue ≡ true
    → Stirs b w (step c w).1
unfolding step
step-Stirs b Call.wakes w v s h = wakes-Stirs b w
step-Stirs b Call.shuts_down w v s h = shuts_down-Stirs b w
step-Stirs b Call.destroys w v s h = destroy-Stirs b w v
step-Stirs true (Call.opens_uv f user) w v s h = cc
step-Stirs false (Call.opens_uv f user) w v s h = open_uv-Stirs f user w
step-Stirs true (Call.opens_thread f user) w v s h = open_thread-Stirs f user w
step-Stirs false (Call.opens_thread f user) w v s h = cc
step-Stirs b (Call.writes p source len) w v s h = writes-Stirs b p source len w v h
step-Stirs b (Call.reads p) w v s h = reads-Stirs b p w v
step-Stirs b (Call.ends p) w v s h = unfold end in advance-Stirs b p ended w v h
step-Stirs b (Call.closes p) w v s h = unfold close in advance-Stirs b p closed w v h
step-Stirs b (Call.asks_readable p) w v s h = unfold readable in asks-Stirs b w
step-Stirs b (Call.asks_writable p) w v s h = unfold writable in asks-Stirs b w

heard-listening : (b : Bool) (q : Queue) → heard b q ≡ true → listening (own b (view q)) ≡ true
unfolding view
heard-listening true q h = h
heard-listening false q h = ground arith

listening-heard :
    (b : Bool) (q q' : Queue)
    → heard b q ≡ true
    → listening (own b (view q')) ≡ true
    → (b ≡ false → q'.on_signal_thread ≡ q.on_signal_thread)
    → heard b q' ≡ true
unfolding view
listening-heard true q q' h l e = l
listening-heard false q q' h l e = ground (arith, e refl)

-- An end that keeps its port stays awake.
pub step-IsAwake :
    (b : Bool) (c : Call) (w : World) → stays b c ≡ true → IsAwake b w → IsAwake b (step c w).1
step-IsAwake b c w s a =
    let up = answer-IsUp b c (model w) s (heard-listening b w.queue a.hears, a.owns) in
    let m = moved c w a.sound in
    record {
      sound = (step-Refines c w a.sound).sound;
      hears = listening-heard b w.queue (step c w).1.queue a.hears (rw m up.0) (kept b s);
      owns = rw m up.1;
    }
  where
    kept :
        (b : Bool)
        → stays b c ≡ true
        → b ≡ false
        → (step c w).1.queue.on_signal_thread ≡ w.queue.on_signal_thread
    kept false s e = step-callback c w a.sound s
    kept true s e = cc

abbrev pub AllStay : Bool → List Call → Type 0
AllStay b [] = Unit {0}
AllStay b (c ∷ cs) = (stays b c ≡ true) × AllStay b cs

pub run-grows :
    (b : Bool) (cs : List Call) (w : World)
    → AllStay b cs
    → IsAwake b w
    → signals b w.trace ≤ signals b (run cs w).1.trace
unfolding run
run-grows b [] w s a = omega arith
run-grows b (c ∷ cs) w s a = omega (
  arith,
  (step-Stirs b c w a.sound s.0 a.hears).0,
  run-grows b cs (step c w).1 s.1 (step-IsAwake b c w s.0 a),
)

-- While an end with valid rings hears its signals, keeps its port and owns its share, no history of
-- calls that leave the port as it is makes the port readable that was not without also signalling
-- that end.
pub no_lost_wakeup :
    (b : Bool) (cs : List Call) (w : World)
    → IsAwake b w
    → AllStay b cs
    → is_readable b (view w.queue) ≡ false
    → is_readable b (view (run cs w).1.queue) ≡ true
    → signals b w.trace < signals b (run cs w).1.trace
unfolding run
no_lost_wakeup b [] w a s h r = absurd (false≢true (sym h ∙ r))
no_lost_wakeup b (c ∷ cs) w a s h r =
    let t = step-Stirs b c w a.sound s.0 a.hears in
    let a' = step-IsAwake b c w s.0 a in
    elim (Bool-cases (is_readable b (view (step c w).1.queue))) [
      | inl e ↦ elim (t.1 e) [
        | inl before ↦ absurd (false≢true (sym h ∙ before))
        | inr more ↦ omega (arith, run-grows b cs (step c w).1 s.1 a')
      ]
      | inr e ↦ omega (arith, t.0, no_lost_wakeup b cs (step c w).1 a' s.1 e r)
    ]
