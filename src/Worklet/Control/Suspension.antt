-- ===== src/Worklet/Control/Suspension.antt =====
-- How the calls of src/worklet.c keep the suspension of a worklet: which of them begin it, which
-- end it, and when a stale idle leaves it alone.
use bare_kit.Prelude.{
  ◌≡◌, refl, ◌∙◌, ℤ, pos, negsuc, List, [], ◌∷◌, Bool, true, false, arith, if◌then◌else◌,
}
use bare_kit.Worklet.State.{Note, Shared, linger_time}
use bare_kit.Worklet.Control.{
  suspend, resume, wakeup, terminate, on_suspend, on_wakeup, on_idle, on_resume,
}

-- Whether the last call of the suspension's own began it.
unfoldable pub held : List Note → Bool
held [] = false
held (Note.suspension_start t ∷ l) = true
held (Note.suspension_end ∷ l) = false
held (n ∷ l) = held l

-- What happens to a worklet that has started.
pub data Moment : Type 0 where
  suspends wakes : ℤ → Moment
  resumes terminates goes_idle resumed : Moment
  suspended_at woken_at : ℤ → Moment

unfoldable pub happen : Moment → Shared → Shared
happen (Moment.suspends t) s = (suspend (pos 0) t s).1
happen (Moment.wakes t) s = (wakeup (pos 0) t s).1
happen Moment.resumes s = (resume (pos 0) s).1
happen Moment.terminates s = (terminate (pos 0) s).1
happen Moment.goes_idle s = on_idle s
happen Moment.resumed s = on_resume s
happen (Moment.suspended_at t) s = on_suspend t s
happen (Moment.woken_at t) s = on_wakeup t s

-- Before the first call, and once a resume has been seen, an idle is not stale.
abbrev pub expects : Moment → Shared → Bool
expects (Moment.suspends t) s = if s.state.bare then true else held s.log
expects (Moment.wakes t) s = if s.state.bare then true else held s.log
expects Moment.resumes s = if s.state.bare then false else held s.log
expects Moment.goes_idle s = if s.state.resuming then held s.log else false
expects _ s = held s.log

-- Each moment leaves the suspension as follows, whatever callbacks the host has set: a suspend or a
-- wakeup holds it and a resume lets it go, unless the runtime is not there; an idle lets it go
-- unless a resume is still to be seen; nothing else touches it.
pub held-happen : (m : Moment) (s : Shared) → held (happen m s).log ≡ expects m s
unfolding happen held suspend wakeup resume terminate on_idle on_resume on_suspend on_wakeup
held-happen (Moment.suspends t) s = ground arith
held-happen (Moment.wakes t) s = ground arith
held-happen Moment.resumes s = ground arith
held-happen Moment.terminates s = ground arith
held-happen Moment.goes_idle s = ground arith
held-happen Moment.resumed s = ground arith
held-happen (Moment.suspended_at t) s = ground arith
held-happen (Moment.woken_at t) s = ground arith

abbrev pub happens : List Moment → Shared → Shared
happens [] s = s
happens (m ∷ ms) s = happens ms (happen m s)

-- Whether the worklet's thread has seen the resume.
abbrev pub is_resumed : Moment → Bool
is_resumed Moment.resumed = true
is_resumed _ = false

abbrev pub NoneResumed : List Moment → Type 0
NoneResumed [] = Unit {0}
NoneResumed (m ∷ ms) = (is_resumed m ≡ false) × NoneResumed ms

happen-resuming :
    (m : Moment) (s : Shared)
    → is_resumed m ≡ false
    → s.state.resuming ≡ true
    → (happen m s).state.resuming ≡ true
unfolding happen suspend wakeup resume terminate on_idle on_resume on_suspend on_wakeup
happen-resuming (Moment.suspends t) s h e = ground arith
happen-resuming (Moment.wakes t) s h e = ground arith
happen-resuming Moment.resumes s h e = ground arith
happen-resuming Moment.terminates s h e = ground arith
happen-resuming Moment.goes_idle s h e = ground arith
happen-resuming Moment.resumed s h e = cc
happen-resuming (Moment.suspended_at t) s h e = ground arith
happen-resuming (Moment.woken_at t) s h e = ground arith

happens-resuming :
    (ms : List Moment) (s : Shared)
    → NoneResumed ms
    → s.state.resuming ≡ true
    → (happens ms s).state.resuming ≡ true
happens-resuming [] s h e = e
happens-resuming (m ∷ ms) s h e = happens-resuming ms (happen m s) h.1 (happen-resuming m s h.0 e)

resume-resuming :
    (s : Shared)
    → s.state.bare ≡ true
    → s.state.suspended ≡ true
    → (happen Moment.resumes s).state.resuming ≡ true
unfolding happen resume
resume-resuming s b e = ground arith

-- At a worklet that has its runtime and is suspended, an idle behind a resume, and behind whatever
-- else has happened except that the worklet's thread has seen a resume, leaves the suspension as it
-- is: it does not end a suspension that was begun after the resume.
pub stale_idle :
    (ms : List Moment) (s : Shared)
    → s.state.bare ≡ true
    → s.state.suspended ≡ true
    → NoneResumed ms
    → let now = happens ms (happen Moment.resumes s) in
      held (happen Moment.goes_idle now).log ≡ held now.log
stale_idle ms s b e h =
    let r = happens-resuming ms (happen Moment.resumes s) h (resume-resuming s b e) in
    held-happen Moment.goes_idle (happens ms (happen Moment.resumes s)) ∙ rw r refl

abbrev pub IsTimed : Note → Type 0
IsTimed (Note.bare_suspend (negsuc n)) = ⊥
IsTimed (Note.bare_wakeup (negsuc n)) = ⊥
IsTimed _ = Unit {0}

abbrev pub AllTimed : List Note → Type 0
AllTimed [] = Unit {0}
AllTimed (n ∷ l) = IsTimed n × AllTimed l

-- If every time that the runtime has been given is not negative, then whatever happens next, and
-- whatever the sign of the host's linger or deadline, every time that it has been given is still
-- not negative.
pub happen-AllTimed : (m : Moment) (s : Shared) → AllTimed s.log → AllTimed (happen m s).log
unfolding happen suspend wakeup resume terminate on_idle on_resume on_suspend on_wakeup linger_time
happen-AllTimed (Moment.suspends (pos n)) s h = ground arith
happen-AllTimed (Moment.suspends (negsuc n)) s h = ground arith
happen-AllTimed (Moment.wakes (pos n)) s h = ground arith
happen-AllTimed (Moment.wakes (negsuc n)) s h = ground arith
happen-AllTimed Moment.resumes s h = ground arith
happen-AllTimed Moment.terminates s h = ground arith
happen-AllTimed Moment.goes_idle s h = ground arith
happen-AllTimed Moment.resumed s h = ground arith
happen-AllTimed (Moment.suspended_at t) s h = ground arith
happen-AllTimed (Moment.woken_at t) s h = ground arith
