-- ===== src/Worklet/Platform/Users.antt =====
-- The worklets that share the platform of src/worklet.c keep what is known of it.
use bare_kit.Prelude.{
  ◌+◌, ℕ, ◌≤◌, ◌<◌, ◌≡◌, ◌⊎◌, inl, inr, refl, ap, sym, subst, ◌≢◌, ◌∙◌, true, some, arith, ◌==◌,
  leb, Bool-cases,
}
use bare_kit.Ring.{update}
use bare_kit.Worklet.Process.{alive}
use bare_kit.Worklet.Process.Count.{weight}
use bare_kit.Worklet.Platform.{
  Init, begun, barrier_made, thread_made, at_barrier, Once, unused, done, busy, started, Use,
  before, past, using, left, Platform, worklet_step, init_from, once_from, use_from,
}
use bare_kit.Worklet.Platform.Steps.{teardown_rank, is_inside, Guards, AsyncOf, IsOrderly}
use bare_kit.Worklet.Platform.Owner.{Gives, Gives-some}

-- An action of a worklet that leaves the thread of the platform as it is.
Users-IsOrderly :
    {n : ℕ} {s : Platform} (o' : Once) (uses' : ℕ → Use) (k : ℕ)
    → ((i : ℕ) → is_inside (uses' i) ≡ true → (i < n) × (s.core.life i ≡ alive) × (o' ≡ done))
    → Guards n o' s.core.life uses' s.thread k
    → IsOrderly n s
    → IsOrderly n (record s { once = o'; uses = uses'; at_ready = k })
Users-IsOrderly o' uses' k h g o = record {
  reached = o.reached;
  over = o.over;
  marked = o.marked;
  inside = h;
  guards = g;
  pointer = o.pointer;
  alive_platform = o.alive_platform;
  handle = o.handle;
  sends = o.sends;
  closes = o.closes;
  returns = o.returns;
}

module _ {n : ℕ} {s : Platform} (i : ℕ) (l : i < n) (a : s.core.life i ≡ alive)
    (o : IsOrderly n s) where
  pub Guards-at_once : {c : Once} → s.once ≡ c → Guards n c s.core.life s.uses s.thread s.at_ready
  Guards-at_once e = subst (λ c. Guards n c s.core.life s.uses s.thread s.at_ready) e o.guards

  -- Nothing is inside before the function under the guard has returned.
  none_inside :
      {B : Type 0} (c : Once) → s.once ≡ c → c ≢ done → (j : ℕ) → is_inside (s.uses j) ≡ true → B
  none_inside c e ne j h = absurd (ne (sym e ∙ (o.inside j h).2))

  pub not_over : teardown_rank s.teardown ≤ 1
  not_over = elim (Bool-cases (leb 2 (teardown_rank s.teardown))) [
    | inl e ↦ absurd (omega (arith, (o.over (ground (arith, e))).quiet i l, ap weight a))
    | inr e ↦ ground (arith, e)
  ]

  begins : s.uses i ≡ before → s.once ≡ unused → IsOrderly n (record s { once = busy i begun })
  begins u e =
      Users-IsOrderly (busy i begun) s.uses s.at_ready (λ j h. none_inside unused e (λ d. cc) j h)
        ((l, a, u), Guards-at_once e) o

  makes_barrier :
      s.once ≡ busy i begun → IsOrderly n (record s { at_ready = 0; once = busy i barrier_made })
  makes_barrier e =
      let g = Guards-at_once e in
      Users-IsOrderly (busy i barrier_made) s.uses 0
        (λ j h. none_inside (busy i begun) e (λ d. cc) j h) (g.0, g.1, refl) o

  makes_thread :
      s.once ≡ busy i barrier_made
      → IsOrderly n (record s { thread = started; once = busy i thread_made })
  makes_thread e =
      let g = Guards-at_once e in
      record {
        reached = o.reached;
        over = o.over;
        marked = o.marked;
        inside = λ j h. none_inside (busy i barrier_made) e (λ d. cc) j h;
        guards = (g.0, omega arith, omega arith, g.2);
        pointer = o.pointer ∙ rw (g.1) refl;
        alive_platform = o.alive_platform ∙ rw (g.1) refl;
        handle = subst (λ r. AsyncOf r s.async) (g.1) o.handle;
        sends = o.sends;
        closes = λ h. absurd (omega (arith, h));
        returns = λ h. absurd (omega (arith, not_over, ap teardown_rank h));
      }

  comes_to_barrier :
      s.once ≡ busy i thread_made
      → IsOrderly n (record s { at_ready = s.at_ready + 1; once = busy i at_barrier })
  comes_to_barrier e =
      let g = Guards-at_once e in
      Users-IsOrderly (busy i at_barrier) s.uses (s.at_ready + 1)
        (λ j h. none_inside (busy i thread_made) e (λ d. cc) j h) (g.0, g.1, omega (arith, g.3)) o

  passed :
      (j : ℕ) → is_inside (update s.uses i past j) ≡ true → (i ≡ j) ⊎ (is_inside (s.uses j) ≡ true)
  passed j h = ground (arith, h)

  -- The worklet goes past the guard.
  passes_inside :
      (j : ℕ)
      → is_inside (update s.uses i past j) ≡ true
      → (j < n) × (s.core.life j ≡ alive) × ((i ≡ j) ⊎ (s.once ≡ done))
  passes_inside j h = elim (passed j h) [
    | inl e ↦ (subst (λ x. x < n) e l, subst (λ x. s.core.life x ≡ alive) e a, inl e)
    | inr e ↦ (let f = o.inside j e in (f.0, f.1, inr f.2))
  ]

  finishes_init :
      s.once ≡ busy i at_barrier
      → s.at_ready ≡ 2
      → IsOrderly n (record s { once = done; uses = update s.uses i past })
  finishes_init e k =
      let g = Guards-at_once e in
      Users-IsOrderly done (update s.uses i past) s.at_ready
        (λ j h. (let f = passes_inside j h in (f.0, f.1, refl))) (ground (arith, g.2, k)) o

  goes_past : s.once ≡ done → IsOrderly n (record s { uses = update s.uses i past })
  goes_past e =
      Users-IsOrderly s.once (update s.uses i past) s.at_ready
        (λ j h. (let f = passes_inside j h in (f.0, f.1, e)))
        (subst (λ c. Guards n c s.core.life (update s.uses i past) s.thread s.at_ready) (sym e)
          (Guards-at_once e))
        o

  -- A worklet that is inside moves on, or out.
  moves_inside :
      (u : Use) → is_inside (s.uses i) ≡ true → IsOrderly n (record s { uses = update s.uses i u })
  moves_inside u h =
      let e = (o.inside i h).2 in
      Users-IsOrderly s.once (update s.uses i u) s.at_ready (still_inside u h)
        (subst (λ c. Guards n c s.core.life (update s.uses i u) s.thread s.at_ready) (sym e)
          (Guards-at_once e))
        o
    where
      still_inside :
          (u : Use)
          → is_inside (s.uses i) ≡ true
          → (j : ℕ) → is_inside (update s.uses i u j) ≡ true
          → (j < n) × (s.core.life j ≡ alive) × (s.once ≡ done)
      still_inside u h j k = o.inside j (ground (arith, h, k))

  init_from-IsOrderly :
      (stage : Init) → s.once ≡ busy i stage → Gives (init_from stage i s) (IsOrderly n)
  init_from-IsOrderly begun e = makes_barrier e
  init_from-IsOrderly barrier_made e = makes_thread e
  init_from-IsOrderly thread_made e = comes_to_barrier e
  init_from-IsOrderly at_barrier e = elim (Bool-cases (s.at_ready == 2)) [
    | inl k ↦ rw k (finishes_init e (ground (arith, k)))
    | inr k ↦ rw k tt
  ]

  once_from-IsOrderly :
      (c : Once) → s.uses i ≡ before → s.once ≡ c → Gives (once_from c i s) (IsOrderly n)
  once_from-IsOrderly unused u e = begins u e
  once_from-IsOrderly done u e = goes_past e
  once_from-IsOrderly (busy j stage) u e = elim (Bool-cases (j == i)) [
    | inl k ↦ rw k (init_from-IsOrderly stage (e ∙ ap (λ x. busy x stage) (ground (arith, k))))
    | inr k ↦ rw k tt
  ]

  use_from-IsOrderly : (u : Use) → s.uses i ≡ u → Gives (use_from u i s) (IsOrderly n)
  use_from-IsOrderly before e = once_from-IsOrderly s.once e refl
  use_from-IsOrderly past e = moves_inside using (rw e refl)
  use_from-IsOrderly using e = moves_inside left (rw e refl)
  use_from-IsOrderly left e = tt

  pub worklet_step-IsOrderly : (t : Platform) → worklet_step i s ≡ some t → IsOrderly n t
  unfolding worklet_step
  worklet_step-IsOrderly t e =
      Gives-some (IsOrderly n) (use_from (s.uses i) i s) t e (use_from-IsOrderly (s.uses i) refl)
