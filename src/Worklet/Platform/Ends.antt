-- ===== src/Worklet/Platform/Ends.antt =====
-- The teardown keeps what is known of the platform of src/worklet.c.
use bare_kit.Prelude.{
  ℕ, ◌≤◌, ◌≡◌, inl, inr, refl, ap, ◌≢◌, Bool, true, false, some, arith, leb, Bool-cases,
}
use bare_kit.Worklet.Process.{may_finish, begin_teardown}
use bare_kit.Worklet.Process.Count.{later, tears_down, weight}
use bare_kit.Worklet.Platform.{
  begun, barrier_made, thread_made, at_barrier, Once, unused, done, busy, Stage, unborn, started,
  listening, created, arrived, serving, closing, destroyed, ended, sent, Teardown, idle, waits,
  waited, is_ended_thread, shut_down, joins, returned, Platform, teardown_step, teardown_from, torn,
}
use bare_kit.Worklet.Platform.Steps.{stage_rank, teardown_rank, Guards, AsyncOf, IsOrderly}
use bare_kit.Worklet.Process.Count.{teardown_final, here}
use bare_kit.Worklet.Platform.Owner.{Gives, Gives-some}

module _ {n : ℕ} {s : Platform} (o : IsOrderly n s) where
  -- Before a teardown has sent anything, the thread has closed nothing.
  pub not_closed : teardown_rank s.teardown ≤ 2 → stage_rank s.thread ≤ 5
  not_closed h = elim (Bool-cases (leb 6 (stage_rank s.thread))) [
    | inl e ↦ absurd (omega (arith, o.closes (ground (arith, e))))
    | inr e ↦ ground (arith, e)
  ]

  pub not_sent : teardown_rank s.teardown ≤ 2 → s.async ≢ sent
  not_sent h e = omega (arith, o.sends e)

  begins_teardown : s.teardown ≡ idle → IsOrderly n (record (torn s) { teardown = waits })
  begins_teardown e =
      let q : teardown_rank s.teardown ≡ 0 = ap teardown_rank e in
      record {
        reached = later o.reached tears_down;
        over = λ h. absurd (omega (arith, h));
        marked = λ h. unfold begin_teardown in refl;
        inside = o.inside;
        guards = o.guards;
        pointer = o.pointer;
        alive_platform = o.alive_platform;
        handle = o.handle;
        sends = λ h. absurd (not_sent (omega (arith, q)) h);
        closes = λ h. absurd (omega (arith, not_closed (omega (arith, q)), h));
        returns = λ h. cc;
      }

  ends_wait :
      s.teardown ≡ waits
      → may_finish s.core.process ≡ true
      → IsOrderly n (record s { teardown = waited })
  ends_wait e f =
      let q : teardown_rank s.teardown ≡ 1 = ap teardown_rank e in
      let m = o.marked (omega (arith, q)) in
      record {
        reached = o.reached;
        over = λ h. record { marked = m; quiet = λ i l. teardown_final o.reached m f here i l };
        marked = λ h. m;
        inside = o.inside;
        guards = o.guards;
        pointer = o.pointer;
        alive_platform = o.alive_platform;
        handle = o.handle;
        sends = λ h. absurd (not_sent (omega (arith, q)) h);
        closes = λ h. absurd (omega (arith, not_closed (omega (arith, q)), h));
        returns = λ h. cc;
      }

  -- A handle that is there and not closed can be sent to.
  open_at : (g : Stage) → 3 ≤ stage_rank g → stage_rank g ≤ 5 → AsyncOf g sent
  open_at unborn h k = absurd (omega (arith, h))
  open_at started h k = absurd (omega (arith, h))
  open_at listening h k = absurd (omega (arith, h))
  open_at closing h k = absurd (omega (arith, k))
  open_at destroyed h k = absurd (omega (arith, k))
  open_at ended h k = absurd (omega (arith, k))
  open_at created h k = inr refl
  open_at arrived h k = inr refl
  open_at serving h k = inr refl

  pub created_at : s.has_platform ≡ true → 3 ≤ stage_rank s.thread
  created_at p = ground (arith, o.pointer, p)

  sends_shutdown :
      s.teardown ≡ waited
      → s.has_platform ≡ true
      → IsOrderly n (record s { async = sent; teardown = joins })
  sends_shutdown e p =
      let q : teardown_rank s.teardown ≡ 2 = ap teardown_rank e in
      record {
        reached = o.reached;
        over = λ h. o.over (omega (arith, q));
        marked = λ h. o.marked (omega (arith, q));
        inside = o.inside;
        guards = o.guards;
        pointer = o.pointer;
        alive_platform = o.alive_platform;
        handle = open_at s.thread (created_at p) (not_closed (omega (arith, q)));
        sends = λ h. omega arith;
        closes = λ h. omega arith;
        returns = λ h. cc;
      }

  -- Once the wait is over, no worklet is in the function under the guard.
  none_busy :
      (k : Once)
      → 2 ≤ teardown_rank s.teardown
      → s.has_platform ≡ false
      → Guards n k s.core.life s.uses s.thread s.at_ready
      → s.thread ≡ unborn
  none_busy unused h p g = g
  none_busy done h p g = absurd (ground (arith, g, o.pointer, p))
  none_busy (busy i begun) h p (b, g) = g
  none_busy (busy i barrier_made) h p (b, g, k) = g
  none_busy (busy i thread_made) h p ((l, a, u), g, k, m) =
      absurd (omega (arith, (o.over h).quiet i l, ap weight a))
  none_busy (busy i at_barrier) h p ((l, a, u), g, k) =
      absurd (omega (arith, (o.over h).quiet i l, ap weight a))

  returns_at_once :
      s.teardown ≡ waited → s.has_platform ≡ false → IsOrderly n (record s { teardown = returned })
  returns_at_once e p =
      let q : teardown_rank s.teardown ≡ 2 = ap teardown_rank e in
      record {
        reached = o.reached;
        over = λ h. o.over (omega (arith, q));
        marked = λ h. o.marked (omega (arith, q));
        inside = o.inside;
        guards = o.guards;
        pointer = o.pointer;
        alive_platform = o.alive_platform;
        handle = o.handle;
        sends = λ h. omega arith;
        closes = λ h. omega arith;
        returns = λ h. inr (none_busy s.once (omega (arith, q)) p o.guards);
      }

  returns_joined :
      s.teardown ≡ joins → s.thread ≡ ended → IsOrderly n (record s { teardown = returned })
  returns_joined e g =
      let q : teardown_rank s.teardown ≡ 3 = ap teardown_rank e in
      record {
        reached = o.reached;
        over = λ h. o.over (omega (arith, q));
        marked = λ h. o.marked (omega (arith, q));
        inside = o.inside;
        guards = o.guards;
        pointer = o.pointer;
        alive_platform = o.alive_platform;
        handle = o.handle;
        sends = λ h. omega arith;
        closes = λ h. omega arith;
        returns = λ h. inl g;
      }

  ended_of : (g : Stage) → is_ended_thread g ≡ true → g ≡ ended
  ended_of ended h = refl
  ended_of unborn h = cc
  ended_of g h = absurd (cc)

  shut_down-IsOrderly :
      (b : Bool) → s.teardown ≡ waited → s.has_platform ≡ b → Gives (shut_down b s) (IsOrderly n)
  shut_down-IsOrderly true e k = sends_shutdown e k
  shut_down-IsOrderly false e k = returns_at_once e k

  teardown_from-IsOrderly :
      (d : Teardown) → s.teardown ≡ d → Gives (teardown_from d s) (IsOrderly n)
  teardown_from-IsOrderly idle e = begins_teardown e
  teardown_from-IsOrderly waits e = elim (Bool-cases (may_finish s.core.process)) [
    | inl k ↦ rw k (ends_wait e k)
    | inr k ↦ rw k tt
  ]
  teardown_from-IsOrderly waited e = shut_down-IsOrderly s.has_platform e refl
  teardown_from-IsOrderly joins e = elim (Bool-cases (is_ended_thread s.thread)) [
    | inl k ↦ rw k (returns_joined e (ended_of s.thread k))
    | inr k ↦ rw k tt
  ]
  teardown_from-IsOrderly returned e = tt

  pub teardown_step-IsOrderly : (t : Platform) → teardown_step s ≡ some t → IsOrderly n t
  unfolding teardown_step
  teardown_step-IsOrderly t e =
      Gives-some (IsOrderly n) (teardown_from s.teardown s) t e
        (teardown_from-IsOrderly s.teardown refl)
