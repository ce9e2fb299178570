-- ===== src/Worklet/Platform/Lives.antt =====
-- What is known of the platform of src/worklet.c stays true as worklets come and go.
use bare_kit.Prelude.{ℕ, ◌≡◌, ◌⊎◌, inl, inr, refl, ◌≢◌, true, false, arith}
use bare_kit.Worklet.Process.{alive, stopped, begin_teardown}
use bare_kit.Worklet.Process.Count.{System, Step, later, Step-IsOver, tears_down}
use bare_kit.Worklet.Platform.{
  begun, barrier_made, thread_made, at_barrier, Once, unused, done, busy, left, Platform,
}
use bare_kit.Worklet.Platform.Steps.{is_inside, Guards, IsOrderly}
use bare_kit.Worklet.Process.{admit, on_stopped}

Step-alive :
    {n : ℕ} {c d : System} (i : ℕ)
    → Step n c d
    → c.life i ≡ alive
    → (d.life i ≡ alive) ⊎ (d.life i ≡ stopped)
unfolding admit on_stopped begin_teardown
Step-alive i (Step.admits j h l) a = inl (ground (arith, l, a))
Step-alive i (Step.creates j h l) a = inl (ground (arith, l, a))
Step-alive i (Step.fails j h l) a = inl (ground (arith, l, a))
Step-alive i (Step.stops j h l) a = ground (arith, l, a)
Step-alive i tears_down a = inl a

Step-marked :
    {n : ℕ} {c d : System} → Step n c d → c.process.torn_down ≡ true → d.process.torn_down ≡ true
unfolding admit on_stopped begin_teardown
Step-marked (Step.admits j h l) a = ground (arith, a)
Step-marked (Step.creates j h l) a = a
Step-marked (Step.fails j h l) a = a
Step-marked (Step.stops j h l) a = a
Step-marked tears_down a = refl

module _ {n : ℕ} {s : Platform} (o : IsOrderly n s) where
  -- A worklet that is not done with the platform goes on living.
  lives_on :
      {c : System} (i : ℕ)
      → Step n s.core c
      → ((j : ℕ) → c.life j ≡ stopped → s.uses j ≡ left)
      → s.core.life i ≡ alive
      → s.uses i ≢ left
      → c.life i ≡ alive
  lives_on i st p a ne = elim (Step-alive i st a) [ inl e ↦ e | inr e ↦ absurd (ne (p i e)) ]

  Guards-live :
      {c : System} (k : Once)
      → Step n s.core c
      → ((j : ℕ) → c.life j ≡ stopped → s.uses j ≡ left)
      → Guards n k s.core.life s.uses s.thread s.at_ready
      → Guards n k c.life s.uses s.thread s.at_ready
  Guards-live unused st p g = g
  Guards-live done st p g = g
  Guards-live (busy i begun) st p ((l, a, u), g) = ((l, lives_on i st p a (λ e. cc), u), g)
  Guards-live (busy i barrier_made) st p ((l, a, u), g, k) =
      ((l, lives_on i st p a (λ e. cc), u), g, k)
  Guards-live (busy i thread_made) st p ((l, a, u), g, k, m) =
      ((l, lives_on i st p a (λ e. cc), u), g, k, m)
  Guards-live (busy i at_barrier) st p ((l, a, u), g, k) =
      ((l, lives_on i st p a (λ e. cc), u), g, k)

  pub lives-IsOrderly :
      (c : System)
      → Step n s.core c
      → ((j : ℕ) → c.life j ≡ stopped → s.uses j ≡ left)
      → IsOrderly n (record s { core = c })
  lives-IsOrderly c st p = record {
    reached = later o.reached st;
    over = λ h. Step-IsOver st (o.over h);
    marked = λ h. Step-marked st (o.marked h);
    inside = λ i h.
        (let (l, a, d) = o.inside i h in
          (
            l,
            lives_on i st p a (λ e. (let f : is_inside (s.uses i) ≡ false = rw e refl in cc)),
            d,
          ));
    guards = Guards-live s.once st p o.guards;
    pointer = o.pointer;
    alive_platform = o.alive_platform;
    handle = o.handle;
    sends = o.sends;
    closes = o.closes;
    returns = o.returns;
  }
