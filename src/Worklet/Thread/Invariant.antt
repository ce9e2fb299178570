-- ===== src/Worklet/Thread/Invariant.antt =====
-- What holds of a worklet of src/worklet.c whatever its thread, its host and its host's ipc do.
use bare_kit.Prelude.{
  ℕ, ◌+◌, ◌≡◌, ◌≢◌, refl, ap, sym, ◌∙◌, ℤ, List, [], ◌∷◌, Bool, true, false, Option, none, some,
  arith, if◌then◌else◌,
}
use mathlib.Core.Bool.{false≢true}
use bare_kit.Queue.State.{PortState, ended, closed, World, Queue}
use bare_kit.Queue.Calls.{step, answer, Model, release}
use bare_kit.Queue.Channel.{Channel, move_to}
use bare_kit.Queue.Refine.{view}
use bare_kit.Queue.Correct.{model, step-Refines}
use bare_kit.Queue.Lifetime.{IsKept, step-IsKept, allowed}
use bare_kit.Queue.Wake.States.{writes-SameStates, receive-SameStates}
use bare_kit.Worklet.State.{Note, Shared}
use bare_kit.Worklet.Control.{
  suspend, resume, wakeup, terminate, on_suspend, on_wakeup, on_idle, on_resume,
}
use bare_kit.Worklet.Control.Suspension.{Moment, happen}
use bare_kit.Worklet.Thread.{Phase, Worklet}
use bare_kit.Worklet.Thread.Steps.{
  HostCall, call_of, is_fair, let_go_at, closed_at, bare_at, exited_at, needs_post, freed_at,
}

-- How often the exit callback has been called.
unfoldable pub exits : List Note → ℕ
exits [] = 0
exits (Note.calls_exit f code user ∷ l) = exits l + 1
exits (n ∷ l) = exits l

abbrev pub hook_count : Option ℕ → ℕ
hook_count none = 0
hook_count (some f) = 1

pub record Inv (w : Worklet) : Type 0 where
  pub kept : IsKept w.world
  pub owned : w.world.queue.destroyed ≡ let_go_at w.phase
  pub shut_down : closed_at w.phase ≡ true → w.world.queue.uv_state ≡ closed
  pub has_bare : w.shared.state.bare ≡ bare_at w.phase
  pub posts : needs_post w.phase ≡ true → w.posted ≡ true
  pub holds : w.handle ≡ true → (w.posted ≡ false) × (w.phase ≢ Phase.abandoned)
  pub frees : w.freed ≡ freed_at w.phase
  pub exit_calls :
      exits w.shared.log
      ≡ (if exited_at w.phase then hook_count w.shared.state.callbacks.exit.fn else 0)

-- The control calls and handlers leave the runtime's presence and the exit callback alone.
pub record SameShared (s s' : Shared) : Type 0 where
  pub same_bare : s'.state.bare ≡ s.state.bare
  pub same_exit : s'.state.callbacks.exit.fn ≡ s.state.callbacks.exit.fn
  pub same_exits : exits s'.log ≡ exits s.log

pub happen-SameShared : (m : Moment) (s : Shared) → SameShared s (happen m s)
unfolding happen exits suspend wakeup resume terminate on_idle on_resume on_suspend on_wakeup
happen-SameShared (Moment.suspends t) s = ground arith
happen-SameShared (Moment.wakes t) s = ground arith
happen-SameShared Moment.resumes s = ground arith
happen-SameShared Moment.terminates s = ground arith
happen-SameShared Moment.goes_idle s = ground arith
happen-SameShared Moment.resumed s = ground arith
happen-SameShared (Moment.suspended_at t) s = ground arith
happen-SameShared (Moment.woken_at t) s = ground arith

pub terminate-SameShared : (err : ℤ) (s : Shared) → SameShared s (terminate err s).1
unfolding terminate exits
terminate-SameShared err s = ground arith

pub shared-Inv :
    {w : Worklet} (s' : Shared) → SameShared w.shared s' → Inv w → Inv (record w { shared = s' })
shared-Inv s' e v = record {
  kept = v.kept;
  owned = v.owned;
  shut_down = v.shut_down;
  has_bare = e.same_bare ∙ v.has_bare;
  posts = v.posts;
  holds = v.holds;
  frees = v.frees;
  exit_calls = ground (arith, e.same_exits, e.same_exit, v.exit_calls);
}

-- What a call of the host's ipc does to the fields that the worklet's invariant reads.
pub record SameUv (q q' : Queue) : Type 0 where
  pub same_uv : q'.uv_state ≡ q.uv_state
  pub same_destroyed : q'.destroyed ≡ q.destroyed

-- While the host holds the worklet, the queue has not been destroyed.
pub held_phase :
    (p : Phase) (posted : Bool)
    → (needs_post p ≡ true → posted ≡ true)
    → posted ≡ false
    → p ≢ Phase.abandoned
    → let_go_at p ≡ false
held_phase Phase.abandoned posted n e a = absurd (a refl)
held_phase Phase.let_go posted n e a = absurd (false≢true (sym e ∙ n refl))
held_phase Phase.gone posted n e a = absurd (false≢true (sym e ∙ n refl))
held_phase _ posted n e a = refl

-- A fair call of the ipc is allowed.
fair_allowed :
    (c : HostCall) (w : Worklet)
    → is_fair c w ≡ true
    → Inv w
    → allowed (call_of c) (view w.world.queue) ≡ true
unfolding view
fair_allowed (HostCall.opens f user) w h v =
    rw (v.owned, held_phase w.phase w.posted v.posts (v.holds h).0 (v.holds h).1) refl
fair_allowed (HostCall.writes source len) w h v = h
fair_allowed HostCall.reads w h v = h
fair_allowed HostCall.ends w h v = h
fair_allowed HostCall.closes w h v = h
fair_allowed HostCall.asks_readable w h v = h
fair_allowed HostCall.asks_writable w h v = h

pub release-keeps :
    (c : Channel) → ((release c).uv_state ≡ c.uv_state) × ((release c).destroyed ≡ c.destroyed)
release-keeps c = ground arith

move_to-keeps :
    (s : PortState) (c : Channel)
    → ((move_to false s c).uv_state ≡ c.uv_state) × ((move_to false s c).destroyed ≡ c.destroyed)
unfolding move_to
move_to-keeps s c = ground arith

answer-keeps :
    (c : HostCall) (m : Model)
    → ((answer (call_of c) m).1.0.uv_state ≡ m.0.uv_state)
      × ((answer (call_of c) m).1.0.destroyed ≡ m.0.destroyed)
unfolding answer
answer-keeps (HostCall.opens f user) (c, n) = ground arith
answer-keeps (HostCall.writes source len) m =
    let s = writes-SameStates false source len m in (s.same_uv, s.same_destroyed)
answer-keeps HostCall.reads (c, n) =
    let s = receive-SameStates false c in (s.same_uv, s.same_destroyed)
answer-keeps HostCall.ends (c, n) =
    let r = release-keeps (move_to false ended c) in
    let m = move_to-keeps ended c in (r.0 ∙ m.0, r.1 ∙ m.1)
answer-keeps HostCall.closes (c, n) =
    let r = release-keeps (move_to false closed c) in
    let m = move_to-keeps closed c in (r.0 ∙ m.0, r.1 ∙ m.1)
answer-keeps HostCall.asks_readable m = (refl, refl)
answer-keeps HostCall.asks_writable m = (refl, refl)

step-SameUv : (c : HostCall) (w : World) → IsKept w → SameUv w.queue (step (call_of c) w).1.queue
unfolding view
step-SameUv c w k =
    let m = (step-Refines (call_of c) w k.sound).moves in
    let a = answer-keeps c (model w) in
    record {
      same_uv = ap (λ (m : Model). m.0.uv_state) m ∙ a.0;
      same_destroyed = ap (λ (m : Model). m.0.destroyed) m ∙ a.1;
    }

pub uses-Inv :
    (c : HostCall) (w : Worklet)
    → is_fair c w ≡ true
    → Inv w
    → Inv (record w { world = (step (call_of c) w.world).1 })
uses-Inv c w h v =
    let s = step-SameUv c w.world v.kept in
    record {
      kept = step-IsKept (call_of c) w.world (fair_allowed c w h v) v.kept;
      owned = s.same_destroyed ∙ v.owned;
      shut_down = λ e. s.same_uv ∙ v.shut_down e;
      has_bare = v.has_bare;
      posts = v.posts;
      holds = v.holds;
      frees = v.frees;
      exit_calls = v.exit_calls;
    }
