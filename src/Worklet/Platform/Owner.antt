-- ===== src/Worklet/Platform/Owner.antt =====
-- The thread that owns the platform of src/worklet.c keeps what is known of it.
use bare_kit.Prelude.{
  ◌+◌, ℕ, ◌≤◌, ◌≡◌, inl, inr, refl, ap, subst, ◌≢◌, ◌∙◌, Bool, true, false, ◌&&◌, Option, none,
  some, arith, ◌==◌, leb, Bool-cases,
}
use bare_kit.Worklet.Process.{Life}
use bare_kit.Worklet.Platform.{
  begun, barrier_made, thread_made, at_barrier, Once, unused, done, busy, Stage, unborn, started,
  listening, created, arrived, serving, closing, destroyed, ended, Async, uninitialised,
  open_handle, sent, closed_handle, Use, returned, Platform, thread_step, thread_from, on_shutdown,
}
use bare_kit.Worklet.Platform.Steps.{
  stage_rank, teardown_rank, arrivals, Guards, AsyncOf, IsOrderly,
}

-- What an action gives, if there is one.
abbrev pub Gives : Option Platform → (Platform → Type 0) → Type 0
Gives none P = Unit {0}
Gives (some t) P = P t

-- The thread goes on by one stage, and counts at the barrier as it comes to it.
Guards-next :
    (n : ℕ) (o : Once) (life : ℕ → Life) (uses : ℕ → Use) (g g' : Stage) (k k' : ℕ)
    → 1 ≤ stage_rank g
    → stage_rank g' ≡ stage_rank g + 1
    → k' + arrivals g ≡ k + arrivals g'
    → (stage_rank g ≡ 4 → k ≡ 2)
    → Guards n o life uses g k
    → Guards n o life uses g' k'
Guards-next n unused life uses g g' k k' l e c w h = absurd (omega (arith, ap stage_rank h, l))
Guards-next n done life uses g g' k k' l e c w h = omega arith
Guards-next n (busy i begun) life uses g g' k k' l e c w (b, h) =
    absurd (omega (arith, ap stage_rank h, l))
Guards-next n (busy i barrier_made) life uses g g' k k' l e c w (b, h, z) =
    absurd (omega (arith, ap stage_rank h, l))
Guards-next n (busy i thread_made) life uses g g' k k' l e c w (b, h, z, q) =
    (b, omega arith, ground (arith, q, w), ground (arith, q, c))
Guards-next n (busy i at_barrier) life uses g g' k k' l e c w (b, h, q) =
    (b, omega arith, ground (arith, q, c))

-- A thread that has started and not ended has no teardown that has returned.
not_returned :
    {n : ℕ} {s : Platform}
    → IsOrderly n s
    → 1 ≤ stage_rank s.thread
    → stage_rank s.thread ≤ 7
    → s.teardown ≢ returned
not_returned o l h r = elim (o.returns r) [
  | inl e ↦ omega (arith, ap stage_rank e)
  | inr e ↦ omega (arith, ap stage_rank e)
]

-- What is to be known of one action of the thread.
record Goes (s : Platform) (g : Stage) (k : ℕ) (a : Async) (p l : Bool) : Type 0 where
  from : 1 ≤ stage_rank s.thread
  next : stage_rank g ≡ stage_rank s.thread + 1
  to : stage_rank g ≤ 8
  count : k + arrivals s.thread ≡ s.at_ready + arrivals g
  met : stage_rank s.thread ≡ 4 → s.at_ready ≡ 2
  pointer : p ≡ leb 3 (stage_rank g)
  alive_platform : l ≡ (leb 3 (stage_rank g) && leb (stage_rank g) 6)
  handle : AsyncOf g a
  sends : a ≡ sent → s.async ≡ sent
  closes : 6 ≤ stage_rank g → 3 ≤ teardown_rank s.teardown

Goes-IsOrderly :
    {n : ℕ} {s : Platform} (g : Stage) (k : ℕ) (a : Async) (p l : Bool)
    → Goes s g k a p l
    → IsOrderly n s
    → IsOrderly n (record s { thread = g; at_ready = k; async = a; has_platform = p; live = l })
Goes-IsOrderly {n} {s} g k a p l m o = record {
  reached = o.reached;
  over = o.over;
  marked = o.marked;
  inside = o.inside;
  guards =
      Guards-next n s.once s.core.life s.uses s.thread g s.at_ready k m.from m.next m.count m.met
        o.guards;
  pointer = m.pointer;
  alive_platform = m.alive_platform;
  handle = m.handle;
  sends = λ h. o.sends (m.sends h);
  closes = m.closes;
  returns = λ r. absurd (not_returned o m.from (omega (arith, m.next, m.to)) r);
}

module _ {n : ℕ} {s : Platform} (o : IsOrderly n s) where
  inits_async :
      s.thread ≡ started → IsOrderly n (record s { async = open_handle; thread = listening })
  inits_async e =
      Goes-IsOrderly listening s.at_ready open_handle s.has_platform s.live
        (record {
          from = rw e (omega arith);
          next = rw e refl;
          to = omega arith;
          count = rw e refl;
          met = rw e (λ h. absurd (omega (arith, h)));
          pointer = o.pointer ∙ rw e refl;
          alive_platform = o.alive_platform ∙ rw e refl;
          handle = inl refl;
          sends = λ h. cc;
          closes = λ h. absurd (omega (arith, h));
        })
        o

  creates_platform :
      s.thread ≡ listening
      → IsOrderly n (record s { has_platform = true; live = true; thread = created })
  creates_platform e =
      Goes-IsOrderly created s.at_ready s.async true true
        (record {
          from = rw e (omega arith);
          next = rw e refl;
          to = omega arith;
          count = rw e refl;
          met = rw e (λ h. absurd (omega (arith, h)));
          pointer = refl;
          alive_platform = refl;
          handle = subst (λ g. AsyncOf g s.async) e o.handle;
          sends = λ h. h;
          closes = λ h. absurd (omega (arith, h));
        })
        o

  arrives :
      s.thread ≡ created → IsOrderly n (record s { at_ready = s.at_ready + 1; thread = arrived })
  arrives e =
      Goes-IsOrderly arrived (s.at_ready + 1) s.async s.has_platform s.live
        (record {
          from = rw e (omega arith);
          next = rw e refl;
          to = omega arith;
          count = rw e (omega arith);
          met = rw e (λ h. absurd (omega (arith, h)));
          pointer = o.pointer ∙ rw e refl;
          alive_platform = o.alive_platform ∙ rw e refl;
          handle = subst (λ g. AsyncOf g s.async) e o.handle;
          sends = λ h. h;
          closes = λ h. absurd (omega (arith, h));
        })
        o

  serves : s.thread ≡ arrived → s.at_ready ≡ 2 → IsOrderly n (record s { thread = serving })
  serves e k =
      Goes-IsOrderly serving s.at_ready s.async s.has_platform s.live
        (record {
          from = rw e (omega arith);
          next = rw e refl;
          to = omega arith;
          count = rw e refl;
          met = λ h. k;
          pointer = o.pointer ∙ rw e refl;
          alive_platform = o.alive_platform ∙ rw e refl;
          handle = subst (λ g. AsyncOf g s.async) e o.handle;
          sends = λ h. h;
          closes = λ h. absurd (omega (arith, h));
        })
        o

  shuts_down :
      s.thread ≡ serving
      → s.async ≡ sent
      → IsOrderly n (record s { async = closed_handle; thread = closing })
  shuts_down e a =
      Goes-IsOrderly closing s.at_ready closed_handle s.has_platform s.live
        (record {
          from = rw e (omega arith);
          next = rw e refl;
          to = omega arith;
          count = rw e refl;
          met = rw e (λ h. absurd (omega (arith, h)));
          pointer = o.pointer ∙ rw e refl;
          alive_platform = o.alive_platform ∙ rw e refl;
          handle = refl;
          sends = λ h. cc;
          closes = λ h. o.sends a;
        })
        o

  destroys : s.thread ≡ closing → IsOrderly n (record s { live = false; thread = destroyed })
  destroys e =
      Goes-IsOrderly destroyed s.at_ready s.async s.has_platform false
        (record {
          from = rw e (omega arith);
          next = rw e refl;
          to = omega arith;
          count = rw e refl;
          met = rw e (λ h. absurd (omega (arith, h)));
          pointer = o.pointer ∙ rw e refl;
          alive_platform = refl;
          handle = subst (λ g. AsyncOf g s.async) e o.handle;
          sends = λ h. h;
          closes = λ h. o.closes (omega (arith, ap stage_rank e));
        })
        o

  ends : s.thread ≡ destroyed → IsOrderly n (record s { thread = ended })
  ends e =
      Goes-IsOrderly ended s.at_ready s.async s.has_platform s.live
        (record {
          from = rw e (omega arith);
          next = rw e refl;
          to = omega arith;
          count = rw e refl;
          met = rw e (λ h. absurd (omega (arith, h)));
          pointer = o.pointer ∙ rw e refl;
          alive_platform = o.alive_platform ∙ rw e refl;
          handle = subst (λ g. AsyncOf g s.async) e o.handle;
          sends = λ h. h;
          closes = λ h. o.closes (omega (arith, ap stage_rank e));
        })
        o

shutdown-IsOrderly :
    {n : ℕ} {s : Platform} (a : Async)
    → s.thread ≡ serving
    → s.async ≡ a
    → IsOrderly n s
    → Gives (on_shutdown a s) (IsOrderly n)
shutdown-IsOrderly sent e h o = shuts_down o e h
shutdown-IsOrderly uninitialised e h o = tt
shutdown-IsOrderly open_handle e h o = tt
shutdown-IsOrderly closed_handle e h o = tt

thread_from-IsOrderly :
    (n : ℕ) (g : Stage) (s : Platform)
    → s.thread ≡ g
    → IsOrderly n s
    → Gives (thread_from g s) (IsOrderly n)
thread_from-IsOrderly n unborn s e o = tt
thread_from-IsOrderly n started s e o = inits_async o e
thread_from-IsOrderly n listening s e o = creates_platform o e
thread_from-IsOrderly n created s e o = arrives o e
thread_from-IsOrderly n arrived s e o = elim (Bool-cases (s.at_ready == 2)) [
  | inl k ↦ rw k (serves o e (ground (arith, k)))
  | inr k ↦ rw k tt
]
thread_from-IsOrderly n serving s e o = shutdown-IsOrderly s.async e refl o
thread_from-IsOrderly n closing s e o = destroys o e
thread_from-IsOrderly n destroyed s e o = ends o e
thread_from-IsOrderly n ended s e o = tt

pub Gives-some :
    (P : Platform → Type 0) (r : Option Platform) (t : Platform) → r ≡ some t → Gives r P → P t
Gives-some P r t e g = subst (λ x. Gives x P) e g

pub thread_step-IsOrderly :
    {n : ℕ} {s t : Platform} → thread_step s ≡ some t → IsOrderly n s → IsOrderly n t
unfolding thread_step
thread_step-IsOrderly {n} {s} {t} e o =
    Gives-some (IsOrderly n) (thread_from s.thread s) t e
      (thread_from-IsOrderly n s.thread s refl o)
