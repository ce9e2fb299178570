-- ===== src/Queue/Lifetime.antt =====
-- When the memory of a queue of src/queue.c is freed, over the histories in which each end keeps to
-- its share: the worklet calls until it has destroyed the queue, and the host until it has closed
-- its port; a host opens its end only while the worklet's share is there.
use bare_kit.Prelude.{
  ℕ, ◌≡◌, refl, ap, sym, ◌∙◌, List, [], ◌∷◌, Bool, true, false, not, arith, some, ◌≢◌, ◌↔◌, ◌⊎◌,
  Bool-cases, inl, inr, min, int_max, ◌==◌,
}
use bare_kit.Ring.{Message}
use bare_kit.Queue.State.{idle, ended, closed, World, Queue, listening}
use bare_kit.Queue.Channel.{Channel, is_unowned, send, receive, receive_from, incoming, move_to}
use bare_kit.Queue.Calls.{Call, step, run, answer, Model, release, message_at}
use bare_kit.Queue.Ops.{create}
use bare_kit.Queue.Inv.{IsSound}
use bare_kit.Queue.Refine.{view}
use bare_kit.Queue.Correct.{step-Refines}
use bare_kit.Queue.History.{create-IsSound}
use bare_kit.Queue.Locking.{freed, fault, stage, ending, lets_go, step-stage}

-- Whether an end may still use its port.
abbrev pub may : Bool → Channel → Bool
may true c = not c.destroyed
may false c = listening c.thread_state

abbrev pub allowed : Call → Channel → Bool
allowed (Call.writes b source len) c = may b c
allowed (Call.reads b) c = may b c
allowed (Call.ends b) c = may b c
allowed (Call.closes b) c = may b c
allowed (Call.asks_readable b) c = may b c
allowed (Call.asks_writable b) c = may b c
allowed _ c = not c.destroyed

abbrev pub IsLegal : List Call → World → Type 0
IsLegal [] w = Unit {0}
IsLegal (c ∷ cs) w = (allowed c (view w.queue) ≡ true) × IsLegal cs (step c w).1

may-owned : (b : Bool) (c : Channel) → may b c ≡ true → is_unowned c ≡ false
unfolding is_unowned
may-owned true c h = ground arith
may-owned false c h = ground arith

pub allowed-owned : (k : Call) (c : Channel) → allowed k c ≡ true → is_unowned c ≡ false
unfolding is_unowned
allowed-owned (Call.writes b source len) c h = may-owned b c h
allowed-owned (Call.reads b) c h = may-owned b c h
allowed-owned (Call.ends b) c h = may-owned b c h
allowed-owned (Call.closes b) c h = may-owned b c h
allowed-owned (Call.asks_readable b) c h = may-owned b c h
allowed-owned (Call.asks_writable b) c h = may-owned b c h
allowed-owned Call.wakes c h = ground arith
allowed-owned _ c h = ground arith

pub release-is_unowned : (c : Channel) → is_unowned (release c) ≡ is_unowned c
unfolding is_unowned
release-is_unowned c = ground arith

send-is_unowned : (b : Bool) (m : Message) (c : Channel) → is_unowned (send b m c).1 ≡ is_unowned c
unfolding is_unowned send
send-is_unowned b m c = ground arith

receive_from-is_unowned :
    (l : List Message) (over b : Bool) (c : Channel)
    → is_unowned (receive_from l over b c).1 ≡ is_unowned c
unfolding is_unowned
receive_from-is_unowned [] true b c = refl
receive_from-is_unowned [] false b c = refl
receive_from-is_unowned (m ∷ l) over true c = refl
receive_from-is_unowned (m ∷ l) over false c = refl

writes-is_unowned :
    (b : Bool) (source : List ℕ) (len : ℕ) (c : Channel) (n : ℕ)
    → is_unowned c ≡ false
    → false ≡ is_unowned (answer (Call.writes b source len) (c, n)).1.0
unfolding answer
writes-is_unowned b source len c n h =
    let k = min len int_max in
    let s = send-is_unowned b (message_at n source k) c in
    elim (Bool-cases (len == 0)) [ inl e ↦ rw e (sym h) | inr e ↦ rw e (sym (s ∙ h)) ]

-- After an allowed call the queue is unowned exactly if the call gave up the last share.
lets_go_lem :
    (k : Call) (c : Channel) (n : ℕ)
    → allowed k c ≡ true
    → lets_go k c ≡ is_unowned (answer k (c, n)).1.0
unfolding answer
lets_go_lem Call.wakes c n h = sym (allowed-owned Call.wakes c h)
lets_go_lem Call.shuts_down c n h = sym (allowed-owned Call.shuts_down c h)
lets_go_lem Call.destroys c n h = sym (release-is_unowned (record c { destroyed = true }))
lets_go_lem (Call.opens_uv f user) c n h = unfold is_unowned in ground arith
lets_go_lem (Call.opens_thread f user) c n h = unfold is_unowned in ground arith
lets_go_lem (Call.writes b source len) c n h = writes-is_unowned b source len c n (may-owned b c h)
lets_go_lem (Call.reads b) c n h =
    sym (unfold receive in receive_from-is_unowned (incoming b c) _ b c ∙ may-owned b c h)
lets_go_lem (Call.ends b) c n h = sym (release-is_unowned (move_to b ended c))
lets_go_lem (Call.closes b) c n h = sym (release-is_unowned (move_to b closed c))
lets_go_lem (Call.asks_readable b) c n h = sym (may-owned b c h)
lets_go_lem (Call.asks_writable b) c n h = sym (may-owned b c h)

-- A world in which the trace says of the queue's memory what its owners say.
pub record IsKept (w : World) : Type 0 where
  pub sound : IsSound w.queue
  pub accounted : stage w.trace ≡ ending (is_unowned (view w.queue))

pub step-IsKept :
    (c : Call) (w : World) → allowed c (view w.queue) ≡ true → IsKept w → IsKept (step c w).1
step-IsKept c w h k =
    let r = step-Refines c w k.sound in
    record {
      sound = r.sound;
      accounted =
          step-stage c w k.sound (k.accounted ∙ ap ending (allowed-owned c (view w.queue) h))
          ∙ ap ending (
              lets_go_lem c (view w.queue) w.next h
              ∙ ap is_unowned (ap (λ (m : Model). m.0) (sym r.moves)));
    }

pub run-IsKept : (cs : List Call) (w : World) → IsLegal cs w → IsKept w → IsKept (run cs w).1
unfolding run
run-IsKept [] w h k = k
run-IsKept (c ∷ cs) w h k = run-IsKept cs (step c w).1 h.1 (step-IsKept c w h.0 k)

-- The world in which `bare_queue_create` has just returned `q`.
abbrev pub started : Queue → World
started q = record { queue = q; next = 0; trace = [] }

pub create-IsKept :
    (ok : Bool) (uv_slots thread_slots : ℕ → Message) {q : Queue}
    → create ok uv_slots thread_slots ≡ some q
    → IsKept (started q)
unfolding create view is_unowned stage
create-IsKept ok uv_slots thread_slots {q} e = record {
  sound = create-IsSound ok uv_slots thread_slots e;
  accounted = ground arith;
}

-- Over any history from a created queue in which the worklet calls only until it has destroyed the
-- queue, and the host opens its end only until then and uses it only while it is open, no call
-- misuses the lock or touches freed memory, and behind the history the queue is freed exactly if
-- the worklet has destroyed it and the host end is not open.
pub run-lifetime :
    (ok : Bool) (uv_slots thread_slots : ℕ → Message) {q : Queue} (cs : List Call)
    → create ok uv_slots thread_slots ≡ some q
    → IsLegal cs (started q)
    → let w = (run cs (started q)).1 in
      (stage w.trace ≢ fault)
      × ((stage w.trace ≡ freed) ↔ (
          (w.queue.destroyed ≡ true)
          × ((w.queue.thread_state ≡ idle) ⊎ (w.queue.thread_state ≡ closed))))
unfolding is_unowned view
run-lifetime ok us ts {q} cs e h =
    let k = (run-IsKept cs (started q) h (create-IsKept ok us ts e)).accounted in
    (ground arith, (λ p. ground arith, λ p. ground arith))
