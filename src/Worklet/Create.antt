-- ===== src/Worklet/Create.antt =====
-- bare_worklet_create of src/worklet.c, where memory may run out. The options that it keeps are those
-- of the platform, in src/android/platform.c.
mod Tests
use bare_kit.Prelude.{
  ℕ, ◌+◌, ◌≡◌, refl, ap, ◌∙◌, ℤ, pos, negsuc, List, [], ◌∷◌, Bool, true, false, not, ◌&&◌, Option,
  none, some, inl, inr, if◌then◌else◌, arith,
}
use bare_kit.Ring.{Message}
use bare_kit.Queue.State.{Queue, World, idle}
use bare_kit.Queue.Ops
use bare_kit.Queue.Calls.{Call, step, run}
use bare_kit.Queue.Lifetime.{started}
use bare_kit.Queue.Channel.{is_unowned}
use bare_kit.Queue.Refine.{view}
use bare_kit.Queue.History.{create-IsSound}
use bare_kit.Queue.Locking.{Stage, stage, freed, lets_go, ending, step-stage}
use bare_kit.Worklet.State.{Callbacks, Hook}
use bare_kit.Worklet.Thread.{Worklet}
use bare_kit.Worklet.Thread.Reach.{Reached, created}

abbrev no_hook : Hook
no_hook = record { fn = none; user = 0 }

-- The callbacks of a state whose memory is zero.
abbrev pub no_callbacks : Callbacks
no_callbacks = record {
  suspend = no_hook;
  wakeup = no_hook;
  idle = no_hook;
  resume = no_hook;
  exit = no_hook;
}

-- What the call returns, and what it has done with the queue's memory and the two structs.
pub record Outcome : Type 0 where
  pub code : ℤ
  pub handle : Option Worklet
  pub queue : Option World
  pub freed_state : Bool
  pub freed_worklet : Bool

abbrev destroy_queue : Option Queue → Option World
destroy_queue none = none
destroy_queue (some q) = some (Ops.destroy (started q))

-- The structs that could be allocated are freed, as `free(NULL)` has no effect.
abbrev fail_create : Bool → Bool → Option Queue → Outcome
fail_create has_worklet has_state queue = record {
  code = negsuc 0;
  handle = none;
  queue = destroy_queue queue;
  freed_state = has_state;
  freed_worklet = has_worklet;
}

abbrev finish_create : Bool → Bool → Option Queue → Outcome
finish_create true true (some q) = record {
  code = pos 0;
  handle = some (created q no_callbacks);
  queue = some (started q);
  freed_state = false;
  freed_worklet = false;
}
finish_create has_worklet has_state queue = fail_create has_worklet has_state queue

-- The arguments say which of the worklet, its state and its queue get memory, and what stands in the
-- slots of the rings.
unfoldable pub create : Bool → Bool → Bool → (ℕ → Message) → (ℕ → Message) → Outcome
create has_worklet has_state has_queue uv_slots thread_slots =
    finish_create has_worklet has_state (Ops.create has_queue uv_slots thread_slots)

abbrev is_left : Stage → Bool
is_left freed = false
is_left _ = true

abbrev queue_left : Option World → Bool
queue_left none = false
queue_left (some w) = is_left (stage w.trace)

abbrev one_if : Bool → ℕ
one_if b = if b then 1 else 0

-- How many of the three are still allocated.
unfoldable pub left_over : Bool → Bool → Outcome → ℕ
left_over has_worklet has_state r =
    one_if (has_worklet && not r.freed_worklet)
    + one_if (has_state && not r.freed_state)
    + one_if (queue_left r.queue)

-- The worklet handed out is one that is created, if there is one.
abbrev pub IsHandle : Bool → Option Worklet → Type 0
IsHandle true (some w) = Reached w
IsHandle false none = Unit {0}
IsHandle _ _ = ⊥

fresh_unowned :
    (us ts : ℕ → Message) {q : Queue}
    → Ops.create true us ts ≡ some q
    → lets_go Call.destroys (view q) ≡ true
unfolding Ops.create view is_unowned
fresh_unowned us ts {q} e = ground (arith, e)

destroyed_queue :
    (us ts : ℕ → Message) {q : Queue}
    → Ops.create true us ts ≡ some q
    → stage (Ops.destroy (started q)).trace ≡ freed
unfolding step
destroyed_queue us ts {q} e =
    step-stage Call.destroys (started q) (create-IsSound true us ts e) (unfold stage in refl)
    ∙ ap ending (fresh_unowned us ts e)

-- A queue that was created is destroyed again where something else fails.
failed_left :
    (w s : Bool) (us ts : ℕ → Message) → left_over w s (fail_create w s (Ops.create true us ts)) ≡ 0
unfolding left_over Ops.create
failed_left true true us ts = rw (destroyed_queue us ts refl) refl
failed_left true false us ts = rw (destroyed_queue us ts refl) refl
failed_left false true us ts = rw (destroyed_queue us ts refl) refl
failed_left false false us ts = rw (destroyed_queue us ts refl) refl

-- Whichever of the worklet, its state and its queue get memory, the creation of a worklet returns 0
-- and hands out a worklet with all three if all do, and otherwise returns -1, hands out none, and
-- has freed those that did.
pub create-left_over :
    (has_worklet has_state has_queue : Bool) (uv_slots thread_slots : ℕ → Message)
    → let r = create has_worklet has_state has_queue uv_slots thread_slots in
      let all = has_worklet && has_state && has_queue in
      (r.code ≡ (if all then pos 0 else negsuc 0))
      × IsHandle all r.handle
      × (left_over has_worklet has_state r ≡ (if all then 3 else 0))
unfolding create Ops.create left_over stage
create-left_over true true true us ts = (refl, Reached.creates us ts no_callbacks refl, refl)
create-left_over true false true us ts = (refl, tt, failed_left true false us ts)
create-left_over false true true us ts = (refl, tt, failed_left false true us ts)
create-left_over false false true us ts = (refl, tt, failed_left false false us ts)
create-left_over true true false us ts = (refl, tt, refl)
create-left_over true false false us ts = (refl, tt, refl)
create-left_over false true false us ts = (refl, tt, refl)
create-left_over false false false us ts = (refl, tt, refl)
