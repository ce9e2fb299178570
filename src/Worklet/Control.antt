-- ===== src/Worklet/Control.antt =====
-- The host's control of a worklet (src/worklet.c): the lifecycle calls, which may come from any
-- thread, and the handlers that Bare runs on the worklet's thread. `err` is what the call of Bare
-- returns.
pub mod Suspension
use bare_kit.Prelude.{ℕ, ℤ, pos, List, Bool, true, false, Option, none, some, if◌then◌else◌}
use bare_kit.Worklet.State.{Hook, Callbacks, State, Note, Shared, note, linger_time}

abbrev to_zero : Bool → ℤ → ℤ
to_zero has_bare err = if has_bare then err else pos 0

unfoldable pub suspend : ℤ → ℤ → Shared → ℤ × Shared
suspend err linger s =
    let locked = note Note.lock s in
    let time = linger_time linger in
    let started = note (Note.suspension_start linger) locked in
    let done =
      note (Note.bare_suspend time)
        (record started { state = record s.state { suspended = true } }) in
    (to_zero s.state.bare err, note Note.unlock (if s.state.bare then done else locked))

unfoldable pub resume : ℤ → Shared → ℤ × Shared
resume err s =
    let locked = note Note.lock s in
    let ended = note Note.suspension_end locked in
    let marked =
      if s.state.suspended
      then record ended { state = record s.state { suspended = false; resuming = true } }
      else ended in
    (
      to_zero s.state.bare err,
      note Note.unlock (if s.state.bare then note Note.bare_resume marked else locked),
    )

unfoldable pub wakeup : ℤ → ℤ → Shared → ℤ × Shared
wakeup err deadline s =
    let locked = note Note.lock s in
    let time = linger_time deadline in
    let done = note (Note.bare_wakeup time) (note (Note.suspension_start deadline) locked) in
    (to_zero s.state.bare err, note Note.unlock (if s.state.bare then done else locked))

unfoldable pub terminate : ℤ → Shared → ℤ × Shared
terminate err s =
    let locked = note Note.lock s in
    (
      to_zero s.state.bare err,
      note Note.unlock (if s.state.bare then note Note.bare_terminate locked else locked),
    )

-- A handler calls the host back unless the worklet has finished or the host set no callback.
abbrev call_if : Bool → Option ℕ → (ℕ → Note) → Shared → Shared
call_if true fn n s = s
call_if false none n s = s
call_if false (some f) n s = note (n f) s

unfoldable pub on_suspend : ℤ → Shared → Shared
on_suspend linger s =
    let h = s.state.callbacks.suspend in
    call_if s.state.finished h.fn (λ f. Note.calls_suspend f linger h.user) s

unfoldable pub on_wakeup : ℤ → Shared → Shared
on_wakeup deadline s =
    let h = s.state.callbacks.wakeup in
    call_if s.state.finished h.fn (λ f. Note.calls_wakeup f deadline h.user) s

unfoldable pub on_idle : Shared → Shared
on_idle s =
    let locked = note Note.lock s in
    let h = s.state.callbacks.idle in
    call_if s.state.finished h.fn (λ f. Note.calls_idle f h.user)
      (note Note.unlock (if s.state.resuming then locked else note Note.suspension_end locked))

unfoldable pub on_resume : Shared → Shared
on_resume s =
    let h = s.state.callbacks.resume in
    call_if s.state.finished h.fn (λ f. Note.calls_resume f h.user)
      (note Note.unlock (record (note Note.lock s) { state = record s.state { resuming = false } }))

-- `bare_worklet_on_suspend` and its kin, which the host calls before it starts the worklet.
abbrev pub set_callbacks : Callbacks → Shared → Shared
set_callbacks c s = record s { state = record s.state { callbacks = c } }

unfoldable pub set_on_suspend : Hook → Shared → Shared
set_on_suspend h s = set_callbacks (record s.state.callbacks { suspend = h }) s

unfoldable pub set_on_wakeup : Hook → Shared → Shared
set_on_wakeup h s = set_callbacks (record s.state.callbacks { wakeup = h }) s

unfoldable pub set_on_idle : Hook → Shared → Shared
set_on_idle h s = set_callbacks (record s.state.callbacks { idle = h }) s

unfoldable pub set_on_resume : Hook → Shared → Shared
set_on_resume h s = set_callbacks (record s.state.callbacks { resume = h }) s

unfoldable pub set_on_exit : Hook → Shared → Shared
set_on_exit h s = set_callbacks (record s.state.callbacks { exit = h }) s

-- The worklet's thread publishes the runtime, and takes it back before it tears down.
unfoldable pub publish_bare : Shared → Shared
publish_bare s =
    note Note.unlock (record (note Note.lock s) { state = record s.state { bare = true } })

unfoldable pub retire_bare : Shared → Shared
retire_bare s = note Note.unlock (
    note Note.suspension_end
      (record (note Note.lock s) { state = record s.state { bare = false } }))
