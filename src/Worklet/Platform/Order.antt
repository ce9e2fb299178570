-- ===== src/Worklet/Platform/Order.antt =====
-- When the platform of src/worklet.c is there, whatever the order of its threads.
use bare_kit.Prelude.{
  ℕ, ◌≤◌, ◌≡◌, ◌⊎◌, inl, inr, refl, ap, ◌≢◌, Bool, true, false, ◌&&◌, arith, leb, Bool-cases,
}
use bare_kit.Worklet.Process.Count.{begin}
use bare_kit.Worklet.Platform.{
  Stage, unborn, started, listening, created, arrived, serving, closing, destroyed, ended, Async,
  open_handle, sent, waited, returned, Platform,
}
use bare_kit.Worklet.Platform.Steps.{
  Act, lives, owns, runs, tears, stage_rank, teardown_rank, is_inside, AsyncOf, IsOrderly,
  no_platform,
}
use bare_kit.Worklet.Platform.Steps.{Reached, starts, acts}
use bare_kit.Worklet.Platform.Owner.{thread_step-IsOrderly}
use bare_kit.Worklet.Platform.Users.{worklet_step-IsOrderly, not_over, Guards-at_once}
use bare_kit.Worklet.Platform.Lives.{lives-IsOrderly}
use bare_kit.Worklet.Platform.Ends.{teardown_step-IsOrderly, not_closed, not_sent, created_at}

no_platform-IsOrderly : (n : ℕ) → IsOrderly n no_platform
no_platform-IsOrderly n = record {
  reached = begin;
  over = λ h. absurd (omega (arith, h));
  marked = λ h. absurd (omega (arith, h));
  inside = λ i h. cc;
  guards = refl;
  pointer = refl;
  alive_platform = refl;
  handle = refl;
  sends = λ h. cc;
  closes = λ h. absurd (omega (arith, h));
  returns = λ h. cc;
}

Act-IsOrderly : {n : ℕ} {s t : Platform} → Act n s t → IsOrderly n s → IsOrderly n t
Act-IsOrderly {n} {s} (lives {c} st p) o = lives-IsOrderly o c st p
Act-IsOrderly (owns e) o = thread_step-IsOrderly e o
Act-IsOrderly {n} {s} {t} (runs i l a e) o = worklet_step-IsOrderly i l a o t e
Act-IsOrderly {n} {s} {t} (tears e) o = teardown_step-IsOrderly o t e

pub Reached-IsOrderly : {n : ℕ} {s : Platform} → Reached n s → IsOrderly n s
Reached-IsOrderly {n} starts = no_platform-IsOrderly n
Reached-IsOrderly (acts r a) = Act-IsOrderly a (Reached-IsOrderly r)

open_before :
    (g : Stage) (a : Async)
    → AsyncOf g a
    → 3 ≤ stage_rank g
    → stage_rank g ≤ 5
    → a ≢ sent
    → a ≡ open_handle
open_before unborn a h l k ne = absurd (omega (arith, l))
open_before started a h l k ne = absurd (omega (arith, l))
open_before listening a h l k ne = absurd (omega (arith, l))
open_before closing a h l k ne = absurd (omega (arith, k))
open_before destroyed a h l k ne = absurd (omega (arith, k))
open_before ended a h l k ne = absurd (omega (arith, k))
open_before created a h l k ne = elim h [ inl e ↦ e | inr e ↦ absurd (ne e) ]
open_before arrived a h l k ne = elim h [ inl e ↦ e | inr e ↦ absurd (ne e) ]
open_before serving a h l k ne = elim h [ inl e ↦ e | inr e ↦ absurd (ne e) ]

-- In every order of the actions of the worklets, of the thread that owns the JavaScript platform
-- and of a teardown, whenever a worklet is past the guard of the platform and not done with it, the
-- pointer to the platform is set, the platform has been created and not destroyed, and the teardown
-- is not past its wait.
pub used_while_there :
    {n : ℕ} {s : Platform} (i : ℕ)
    → Reached n s
    → is_inside (s.uses i) ≡ true
    → (s.has_platform ≡ true) × (s.live ≡ true) × (teardown_rank s.teardown ≤ 1)
used_while_there {n} {s} i r h =
    let o = Reached-IsOrderly r in
    let (l, a, d) = o.inside i h in
    let t = not_over i l a o in
    let g : 4 ≤ stage_rank s.thread = Guards-at_once i l a o d in
    let k = not_closed o (omega (arith, t)) in
    (ground (arith, o.pointer, g), ground (arith, o.alive_platform, g, k), t)

-- What the teardown sends to is a handle that has been initialised and not closed.
pub sent_while_open :
    {n : ℕ} {s : Platform}
    → Reached n s
    → s.teardown ≡ waited
    → s.has_platform ≡ true
    → s.async ≡ open_handle
sent_while_open {n} {s} r e p =
    let o = Reached-IsOrderly r in
    let t : teardown_rank s.teardown ≡ 2 = ap teardown_rank e in
    open_before s.thread s.async o.handle (created_at o p) (not_closed o (omega (arith, t)))
      (not_sent o (omega (arith, t)))

none_live :
    (b : Bool) (g : Stage)
    → b ≡ (leb 3 (stage_rank g) && leb (stage_rank g) 6)
    → (g ≡ ended) ⊎ (g ≡ unborn)
    → b ≡ false
none_live b g e (inl h) = rw h at e
none_live b g e (inr h) = rw h at e

none_left :
    {n : ℕ} {s : Platform} (i : ℕ)
    → IsOrderly n s
    → s.teardown ≡ returned
    → is_inside (s.uses i) ≡ false
none_left {n} {s} i o e = elim (Bool-cases (is_inside (s.uses i))) [
  | inl h ↦
      (let (l, a, d) = o.inside i h in absurd (omega (arith, not_over i l a o, ap teardown_rank e)))
  | inr h ↦ h
]

-- In every order of the actions of the worklets, of the thread that owns the JavaScript platform
-- and of a teardown, once the teardown has returned, that thread has ended or was never made, the
-- platform is not there, and no worklet is past the guard of the platform and not done with it.
pub returned_clean :
    {n : ℕ} {s : Platform} (i : ℕ)
    → Reached n s
    → s.teardown ≡ returned
    → ((s.thread ≡ ended) ⊎ (s.thread ≡ unborn)) × (s.live ≡ false) × (is_inside (s.uses i) ≡ false)
returned_clean {n} {s} i r e =
    let o = Reached-IsOrderly r in
    let t = o.returns e in (t, none_live s.live s.thread o.alive_platform t, none_left i o e)
