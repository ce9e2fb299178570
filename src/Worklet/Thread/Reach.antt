-- ===== src/Worklet/Thread/Reach.antt =====
-- What every run of a worklet of src/worklet.c keeps to, from its creation on.
use bare_kit.Prelude.{
  ℕ, ◌≡◌, ◌≢◌, ◌⊎◌, ◌↔◌, refl, ap, sym, ◌∙◌, ℤ, pos, [], Bool, true, false, some, arith,
  if◌then◌else◌, Bool-cases, inl, inr,
}
use mathlib.Core.Bool.{false≢true}
use bare_kit.Ring.{Message}
use bare_kit.Queue.State.{idle, closed, Queue}
use bare_kit.Queue.Ops
use bare_kit.Queue.Channel.{is_unowned}
use bare_kit.Queue.Refine.{view}
use bare_kit.Queue.Lifetime.{started, create-IsKept}
use bare_kit.Queue.Locking.{freed, fault, stage}
use bare_kit.Worklet.State.{Callbacks, Note, Shared, note}
use bare_kit.Worklet.Control.{suspend, wakeup, resume, terminate}
use bare_kit.Worklet.Control.Suspension.{happen}
use bare_kit.Worklet.Thread.{
  Phase, Worklet, launch, destroy, destroy_started, destroy_unstarted, is_unstarted,
}
use bare_kit.Worklet.Thread.Steps.{
  Step, exited_at, bare_at, let_go_at, closed_at, freed_at, needs_post,
}
use bare_kit.Worklet.Thread.Invariant.{
  Inv, exits, hook_count, happen-SameShared, terminate-SameShared, shared-Inv, uses-Inv,
}
use bare_kit.Worklet.Thread.Stages.{thread_advance-Inv}
use bare_kit.Worklet.Thread.Script.{scripts-Inv}
use bare_kit.Worklet.Thread.Moves.{close-moves, destroy-moves}

-- `bare_worklet_create` with the callbacks that the host sets before it starts the worklet.
abbrev pub created : Queue → Callbacks → Worklet
created q h = record {
  shared = record {
    state = record {
      finished = false;
      bare = false;
      suspended = false;
      resuming = false;
      callbacks = h;
    };
    log = [];
  };
  world = started q;
  phase = Phase.unstarted;
  posted = false;
  handle = true;
  freed = false;
}

pub data Reached : Worklet → Type 0 where
  creates :
      (uv_slots thread_slots : ℕ → Message) {q : Queue} (h : Callbacks)
      → Ops.create true uv_slots thread_slots ≡ some q
      → Reached (created q h)
  takes : {w w' : Worklet} → Reached w → Step w w' → Reached w'

created-Inv :
    (uv_slots thread_slots : ℕ → Message) {q : Queue} (h : Callbacks)
    → Ops.create true uv_slots thread_slots ≡ some q
    → Inv (created q h)
unfolding Ops.create exits
created-Inv us ts {q} h e = record {
  kept = create-IsKept true us ts e;
  owned = ground arith;
  shut_down = λ f. cc;
  has_bare = refl;
  posts = λ f. cc;
  holds = λ f. (refl, λ g. cc);
  frees = refl;
  exit_calls = refl;
}

launch-Inv : (w : Worklet) → w.phase ≡ Phase.unstarted → Inv w → Inv (launch w)
unfolding launch
launch-Inv w e v = record {
  kept = v.kept;
  owned = v.owned ∙ ap let_go_at e;
  shut_down = λ f. cc;
  has_bare = v.has_bare ∙ rw e refl;
  posts = λ f. cc;
  holds = λ f. ((v.holds f).0, λ g. cc);
  frees = v.frees ∙ rw e refl;
  exit_calls = v.exit_calls ∙ rw e refl;
}

unstarted_lem : (p : Phase) → is_unstarted p ≡ true → p ≡ Phase.unstarted
unstarted_lem Phase.unstarted h = refl
unstarted_lem _ h = absurd (false≢true h)

destroy_unstarted-Inv :
    (w : Worklet) → w.phase ≡ Phase.unstarted → Inv w → Inv (destroy_unstarted w)
unfolding destroy_unstarted
destroy_unstarted-Inv w e v =
    let c = close-moves w.world (v.owned ∙ ap let_go_at e) v.kept in
    let d = destroy-moves (Ops.close true w.world) c.2 c.0 in
    record {
      kept = d.0;
      owned = d.2;
      shut_down = λ f. d.1 ∙ c.1;
      has_bare = v.has_bare ∙ rw e refl;
      posts = λ f. cc;
      holds = λ f. absurd (false≢true f);
      frees = refl;
      exit_calls = v.exit_calls ∙ rw e refl;
    }

destroy_started-Inv : (err : ℤ) (w : Worklet) → Inv w → Inv (destroy_started err w)
unfolding destroy_started
destroy_started-Inv err w v =
    let s = terminate-SameShared err w.shared in
    record {
      kept = v.kept;
      owned = v.owned;
      shut_down = v.shut_down;
      has_bare = s.same_bare ∙ v.has_bare;
      posts = λ f. refl;
      holds = λ f. absurd (false≢true f);
      frees = v.frees;
      exit_calls = ground (arith, s.same_exits, s.same_exit, v.exit_calls);
    }

destroy-Inv : (err : ℤ) (w : Worklet) → Inv w → Inv (destroy err w)
unfolding destroy
destroy-Inv err w v = elim (Bool-cases (is_unstarted w.phase)) [
  | inl e ↦ rw e (destroy_unstarted-Inv w (unstarted_lem w.phase e) v)
  | inr e ↦ rw e (destroy_started-Inv err w v)
]

Step-Inv : {w w' : Worklet} → Inv w → Step w w' → Inv w'
Step-Inv {w} v (Step.launches h e) = launch-Inv w e v
Step-Inv {w} v (Step.runs f code) = thread_advance-Inv f code w v
Step-Inv {w} v (Step.controls m h) = shared-Inv (happen m w.shared) (happen-SameShared m w.shared) v
Step-Inv {w} v (Step.handles m h) = shared-Inv (happen m w.shared) (happen-SameShared m w.shared) v
Step-Inv {w} v (Step.destroys err h) = destroy-Inv err w v
Step-Inv {w} v (Step.scripts c h) = scripts-Inv c w h v
Step-Inv {w} v (Step.uses c h) = uses-Inv c w h v

pub Reached-Inv : {w : Worklet} → Reached w → Inv w
Reached-Inv (Reached.creates us ts h e) = created-Inv us ts h e
Reached-Inv (Reached.takes r s) = Step-Inv (Reached-Inv r) s

held_freed :
    (p : Phase) (posted : Bool)
    → (needs_post p ≡ true → posted ≡ true)
    → posted ≡ false
    → p ≢ Phase.abandoned
    → freed_at p ≡ false
held_freed Phase.abandoned posted n e a = absurd (a refl)
held_freed Phase.gone posted n e a = absurd (false≢true (sym e ∙ n refl))
held_freed _ posted n e a = refl

exited_closed : (p : Phase) → exited_at p ≡ true → (closed_at p ≡ true) × (bare_at p ≡ false)
exited_closed Phase.torn_down e = (refl, refl)
exited_closed Phase.stopped e = (refl, refl)
exited_closed Phase.released e = (refl, refl)
exited_closed Phase.let_go e = (refl, refl)
exited_closed Phase.gone e = (refl, refl)
exited_closed _ e = absurd (false≢true e)

-- In every run of a created worklet, neither its thread, its JavaScript, from its start to the end
-- of the teardown of its runtime, its host nor its host's ipc touches freed memory of the queue or
-- misuses its lock; and the queue is freed exactly if the worklet's share has been let go and the
-- host's end is not open.
pub Reached-IsSafe :
    {w : Worklet}
    → Reached w
    → (stage w.world.trace ≢ fault)
      × ((stage w.world.trace ≡ freed) ↔ (
          (let_go_at w.phase ≡ true)
          × ((w.world.queue.thread_state ≡ idle) ⊎ (w.world.queue.thread_state ≡ closed))))
unfolding is_unowned view
Reached-IsSafe {w} r =
    let v = Reached-Inv r in
    let k = v.kept.accounted in
    let o = v.owned in (ground arith, (λ p. ground arith, λ p. ground arith))

-- In every run of a created worklet, its shared state is not freed while the host holds the
-- worklet.
pub held_state : {w : Worklet} → Reached w → w.handle ≡ true → w.freed ≡ false
held_state {w} r h =
    let v = Reached-Inv r in
    v.frees ∙ held_freed w.phase w.posted v.posts (v.holds h).0 (v.holds h).1

-- In every run of a created worklet, the exit callback has been called once behind its stage, if
-- one is set, and never before it.
pub Reached-exits :
    {w : Worklet}
    → Reached w
    → exits w.shared.log
      ≡ (if exited_at w.phase then hook_count w.shared.state.callbacks.exit.fn else 0)
Reached-exits r = (Reached-Inv r).exit_calls

-- What a control call that does not reach the runtime gives: it takes the lock and lets it go.
abbrev pub left_alone : Shared → ℤ × Shared
left_alone s = (pos 0, note Note.unlock (note Note.lock s))

controls-left_alone :
    (err time : ℤ) (s : Shared)
    → s.state.bare ≡ false
    → (suspend err time s ≡ left_alone s)
      × (wakeup err time s ≡ left_alone s)
      × (resume err s ≡ left_alone s)
      × (terminate err s ≡ left_alone s)
unfolding suspend wakeup resume terminate
controls-left_alone err time s h = (rw h refl, rw h refl, rw h refl, rw h refl)

-- In every run of a created worklet, once the stage of the exit callback is behind, the worklet's
-- end of the queue is closed, and a suspend, wakeup, resume or terminate of the host returns 0 and
-- does nothing but take the lock and let it go.
pub exited-IsClosed :
    (err time : ℤ) {w : Worklet}
    → Reached w
    → exited_at w.phase ≡ true
    → (w.world.queue.uv_state ≡ closed)
      × (suspend err time w.shared ≡ left_alone w.shared)
      × (wakeup err time w.shared ≡ left_alone w.shared)
      × (resume err w.shared ≡ left_alone w.shared)
      × (terminate err w.shared ≡ left_alone w.shared)
exited-IsClosed err time {w} r e =
    let v = Reached-Inv r in
    let c = exited_closed w.phase e in
    let (suspends, wakes, resumes, terminates) =
      controls-left_alone err time w.shared (v.has_bare ∙ c.1) in
    (v.shut_down c.0, suspends, wakes, resumes, terminates)
