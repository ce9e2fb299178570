-- ===== src/Ipc/Signal.antt =====
-- The signal of an ipc on the desktop platforms (src/standalone/ipc.c): the thread that runs the
-- polls' callbacks, and who frees it. The lock `running` is held across a callback, so a destroy on
-- another thread waits for its end; a destroy from within one runs on the signal's own thread.
use mathlib.Core.Bool.{false≢true}
use bare_kit.Prelude.{
  ℕ, ◌+◌, ◌≡◌, refl, sym, ◌∙◌, Bool, true, false, not, ◌&&◌, arith, if◌then◌else◌, ◌⊎◌, inl, inr,
  Option, none, some, ◌==◌, ◌||◌, ap, subst,
}

-- `ipc` is whether the pointer is set, `in_callback` whether the thread is in a callback, `closing` whether
-- the handle `close` has been sent, `closed` whether both handles are, `over` whether the thread is done
-- with the signal, and `joining` whether a destroy waits for that. `frees` counts the frees of the signal.
-- `running` is the poll that the callback found, and `changed` whether it has set another since.
pub record Signal : Type 0 where
  pub ipc : Bool
  pub detached : Bool
  pub in_callback : Bool
  pub closing : Bool
  pub closed : Bool
  pub over : Bool
  pub joining : Bool
  pub frees : ℕ
  pub poll : Option ℕ
  pub running : Option ℕ
  pub changed : Bool

abbrev pub signal_init : Signal
signal_init = record {
  ipc = true;
  detached = false;
  in_callback = false;
  closing = false;
  closed = false;
  over = false;
  joining = false;
  frees = 0;
  poll = none;
  running = none;
  changed = false;
}

unfoldable pub on_wake : Signal → Signal
on_wake s = if s.ipc then record s { in_callback = true; running = s.poll; changed = false } else s

unfoldable pub on_close : Signal → Signal
on_close s = record s { closed = true }

-- The end of `bare_ipc__signal_thread`, behind its loop.
unfoldable pub signal_thread_end : Signal → Signal
signal_thread_end s = record s { over = true; frees = if s.detached then s.frees + 1 else s.frees }

-- `bare_ipc__signal_destroy` up to the join, on the signal's own thread or on another, and the rest of it.
unfoldable pub signal_destroy : Bool → Signal → Signal
signal_destroy is_self s = record s {
  ipc = false;
  closing = true;
  detached = is_self;
  joining = not is_self;
}

unfoldable pub signal_join : Signal → Signal
signal_join s = record s { joining = false; frees = s.frees + 1 }

-- Whether the lock `running` is free for a thread: the signal's own thread may take it again inside a
-- callback, across which it holds it.
abbrev pub may_take : Bool → Signal → Bool
may_take is_self s = is_self || not s.in_callback

-- `bare_ipc__set_poll`, on the signal's own thread or on another; `none` while it waits for the lock.
unfoldable pub signal_set_poll : Bool → Option ℕ → Signal → Option Signal
signal_set_poll is_self p s =
    if may_take is_self s
    then some (record s { poll = p; changed = s.changed || is_self })
    else none

abbrev pub is_same_poll : Option ℕ → Option ℕ → Bool
is_same_poll none none = true
is_same_poll (some j) (some k) = j == k
is_same_poll _ _ = false

pub same_poll : (p : Option ℕ) → is_same_poll p p ≡ true
same_poll none = refl
same_poll (some k) = ground arith

-- The loop ends when its handles are closed, and an ipc is destroyed once. What runs on the signal's
-- own thread runs in a callback.
pub data SignalStep (s : Signal) : Signal → Type 0 where
  wakes : s.closed ≡ false → s.in_callback ≡ false → SignalStep s (on_wake s)
  returns : s.in_callback ≡ true → SignalStep s (record s { in_callback = false })
  destroys :
      (is_self : Bool)
      → s.in_callback ≡ is_self
      → s.ipc ≡ true
      → SignalStep s (signal_destroy is_self s)
  sets :
      (is_self : Bool) (p : Option ℕ) {t : Signal}
      → (is_self ≡ true → s.in_callback ≡ true)
      → s.ipc ≡ true
      → signal_set_poll is_self p s ≡ some t
      → SignalStep s t
  closes : s.closing ≡ true → s.in_callback ≡ false → s.closed ≡ false → SignalStep s (on_close s)
  finishes : s.closed ≡ true → s.over ≡ false → SignalStep s (signal_thread_end s)
  joins : s.joining ≡ true → s.over ≡ true → SignalStep s (signal_join s)

pub data SignalReach : Signal → Type 0 where
  begins : SignalReach signal_init
  moves : {s t : Signal} → SignalReach s → SignalStep s t → SignalReach t

guarded {ℓ} :
    {A : Type ℓ} (b : Bool) {x t : A} → (if b then some x else none) ≡ some t → (b ≡ true) × (t ≡ x)
guarded true e = (refl, cc)
guarded false e = cc

set_poll_lem :
    (b : Bool) (p : Option ℕ) (s : Signal) {t : Signal}
    → signal_set_poll b p s ≡ some t
    → (may_take b s ≡ true) × (t ≡ record s { poll = p; changed = s.changed || b })
unfolding signal_set_poll
set_poll_lem b p s e = guarded (may_take b s) e

record IsHeld (s : Signal) : Type 0 where
  of_ipc : s.ipc ≡ not s.closing
  of_closed : s.closed ≡ true → s.closing ≡ true
  of_callback : s.closed ≡ true → s.in_callback ≡ false
  of_over : s.over ≡ true → s.closed ≡ true
  of_joining : s.over ≡ false → s.joining ≡ (s.closing && not s.detached)
  of_frees : s.frees ≡ (if s.over && not s.joining then 1 else 0)

open_of_ipc : (s : Signal) → IsHeld s → s.ipc ≡ true → (s.closed ≡ false) × (s.over ≡ false)
open_of_ipc s h e =
    (ground (arith, h.of_ipc, h.of_closed), ground (arith, h.of_ipc, h.of_closed, h.of_over))

SignalStep-IsHeld : {s t : Signal} → SignalStep s t → IsHeld s → IsHeld t
unfolding on_wake on_close signal_thread_end signal_destroy signal_join signal_set_poll
SignalStep-IsHeld {s} (SignalStep.wakes c i) h = record {
  of_ipc = ground (arith, h.of_ipc);
  of_closed = ground (arith, h.of_closed);
  of_callback = ground (arith, h.of_callback, c);
  of_over = ground (arith, h.of_over);
  of_joining = ground (arith, h.of_joining);
  of_frees = ground (arith, h.of_frees);
}
SignalStep-IsHeld {s} (SignalStep.returns c) h = record {
  of_ipc = h.of_ipc;
  of_closed = h.of_closed;
  of_callback = λ e. refl;
  of_over = h.of_over;
  of_joining = h.of_joining;
  of_frees = h.of_frees;
}
SignalStep-IsHeld {s} (SignalStep.destroys b i e) h =
    let (c, o) = open_of_ipc s h e in
    record {
      of_ipc = refl;
      of_closed = λ x. refl;
      of_callback = λ x. absurd (false≢true (sym c ∙ x));
      of_over = λ x. absurd (false≢true (sym o ∙ x));
      of_joining = λ x. refl;
      of_frees = ground (arith, h.of_frees, o);
    }
SignalStep-IsHeld {s} (SignalStep.sets b p i e f) h =
    subst IsHeld (sym (set_poll_lem b p s f).1) (record {
      of_ipc = h.of_ipc;
      of_closed = h.of_closed;
      of_callback = h.of_callback;
      of_over = h.of_over;
      of_joining = h.of_joining;
      of_frees = h.of_frees;
    })
SignalStep-IsHeld {s} (SignalStep.closes c i d) h = record {
  of_ipc = h.of_ipc;
  of_closed = λ e. c;
  of_callback = λ e. i;
  of_over = λ e. refl;
  of_joining = h.of_joining;
  of_frees = h.of_frees;
}
SignalStep-IsHeld {s} (SignalStep.finishes c o) h = record {
  of_ipc = h.of_ipc;
  of_closed = h.of_closed;
  of_callback = h.of_callback;
  of_over = λ e. c;
  of_joining = λ e. absurd (ground arith);
  of_frees = ground (arith, h.of_frees, h.of_joining o, h.of_closed c);
}
SignalStep-IsHeld {s} (SignalStep.joins j o) h = record {
  of_ipc = h.of_ipc;
  of_closed = h.of_closed;
  of_callback = h.of_callback;
  of_over = h.of_over;
  of_joining = λ e. absurd (ground arith);
  of_frees = ground (arith, h.of_frees);
}

SignalReach-IsHeld : {s : Signal} → SignalReach s → IsHeld s
SignalReach-IsHeld SignalReach.begins = record {
  of_ipc = refl;
  of_closed = λ x. absurd (false≢true x);
  of_callback = λ x. refl;
  of_over = λ x. absurd (false≢true x);
  of_joining = λ x. refl;
  of_frees = refl;
}
SignalReach-IsHeld (SignalReach.moves r t) = SignalStep-IsHeld t (SignalReach-IsHeld r)

-- In every run of an ipc's signal, it has been freed once if its thread is done with it and no
-- destroy still waits for that, and not at all otherwise.
pub signal_frees_lem :
    {s : Signal} → SignalReach s → s.frees ≡ (if s.over && not s.joining then 1 else 0)
signal_frees_lem r = (SignalReach-IsHeld r).of_frees

-- In every run of an ipc's signal, it has not been freed while its ipc has not been destroyed or
-- its thread is in a callback.
pub signal_in_use_lem :
    {s : Signal} → SignalReach s → (s.ipc ≡ true) ⊎ (s.in_callback ≡ true) → s.frees ≡ 0
signal_in_use_lem {s} r (inl e) =
    let h = SignalReach-IsHeld r in ground (arith, h.of_frees, open_of_ipc s h e)
signal_in_use_lem {s} r (inr e) =
    let h = SignalReach-IsHeld r in ground (arith, h.of_frees, h.of_callback, h.of_over)

-- A callback that runs has found the poll that is set, unless it has set another itself.
abbrev pub is_outdated : Signal → Bool
is_outdated s = s.in_callback && not s.changed && not (is_same_poll s.running s.poll)

SignalStep-outdated :
    {s t : Signal} → SignalStep s t → is_outdated s ≡ false → is_outdated t ≡ false
unfolding on_wake on_close signal_thread_end signal_destroy signal_join signal_set_poll
SignalStep-outdated {s} (SignalStep.wakes c i) h = ground (arith, same_poll s.poll, i)
SignalStep-outdated (SignalStep.returns c) h = refl
SignalStep-outdated (SignalStep.destroys b i e) h = h
SignalStep-outdated {s} (SignalStep.sets b p i e f) h =
    let (free, eq) = set_poll_lem b p s f in ap is_outdated eq ∙ ground (arith, i, free)
SignalStep-outdated (SignalStep.closes c i d) h = h
SignalStep-outdated (SignalStep.finishes c o) h = h
SignalStep-outdated (SignalStep.joins j o) h = h

SignalReach-outdated : {s : Signal} → SignalReach s → is_outdated s ≡ false
SignalReach-outdated SignalReach.begins = refl
SignalReach-outdated (SignalReach.moves r t) = SignalStep-outdated t (SignalReach-outdated r)

-- In every run of an ipc's signal, while its ipc has not been destroyed or its thread is in a
-- callback, the signal has not been freed, and a callback that runs has found the poll that is set,
-- unless it has set another itself.
pub signal_safe_lem :
    {s : Signal}
    → SignalReach s
    → (s.ipc ≡ true) ⊎ (s.in_callback ≡ true)
    → (s.frees ≡ 0) × (is_outdated s ≡ false)
signal_safe_lem r e = (signal_in_use_lem r e, SignalReach-outdated r)
