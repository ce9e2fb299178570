-- ===== src/Worklet/Bundle/Settled.antt =====
-- The stream of src/worklet.js behind a signal: it has read what it could and written what it could,
-- and is signalled again when it can do more.
use bare_kit.Prelude.{
  ℕ, ◌≡◌, ◌≤◌, ◌<◌, ◌⊎◌, inl, inr, refl, ap, ◌∙◌, subst, List, [], ◌∷◌, Bool, true, false, ◌&&◌,
  ◌||◌, Option, pos, negsuc, none, some, arith, length, min, int_max, Bool-cases,
}
use bare_kit.Ring.{Message}
use bare_kit.Queue.State.{World, listening}
use bare_kit.Queue.Channel.{Channel, Sent, accepted, blocked, refused, send}
use bare_kit.Queue.Calls.{Call, run, message_at}
use bare_kit.Queue.Refine.{view}
use bare_kit.Queue.Correct.{write_of_zero}
use bare_kit.Queue.Wake.{signals}
use bare_kit.Queue.Wake.Effects.{is_readable}
use bare_kit.Queue.Wake.Reader.{IsAwake, no_lost_wakeup}
use bare_kit.Queue.Wake.Space.{is_writable, AllWriteOn}
use bare_kit.Queue.Wake.Writer.{no_lost_space, AllWriteOn-AllStay}
use bare_kit.Worklet.Native.{
  JsWritten, null_written, number, native_write, native_write_lem, shown_sent,
}
use bare_kit.Worklet.Bundle.{Push, IpcStream, sent_by, send_chunk, retry, retry_of, on_signal}
use bare_kit.Worklet.Bundle.Sending.{send_chunk-Sends}
use bare_kit.Worklet.Bundle.Ready.{IsReady}
use bare_kit.Worklet.Bundle.Drain.{Drains, drain_pushes}
use bare_kit.Worklet.Bundle.Events.Carry.{retry-Carries}

abbrev pub is_waiting : Option (List ℕ × ℕ) → Bool
is_waiting none = false
is_waiting (some c) = true

-- Whether the stream could go on if it were signalled.
abbrev pub could_go_on : IpcStream → Channel → Bool
could_go_on s c = (s.reading && is_readable true c) || (is_waiting s.pending && is_writable true c)

-- What waits is no longer than the largest `int`.
abbrev pub IsShort : Option (List ℕ × ℕ) → Type 0
IsShort none = Unit {0}
IsShort (some (c, cb)) = length c ≤ int_max

send_blocked :
    (m : Message) (c : Channel)
    → (send true m c).0 ≡ blocked
    → is_writable true (send true m c).1 ≡ false
unfolding send
send_blocked m c h = ground (arith, h)

-- Only a write that blocks leaves a short chunk waiting.
waits-blocked :
    (r : Sent) (c : List ℕ) (cb : ℕ) (t : IpcStream)
    → length c ≤ int_max
    → t.pending ≡ none
    → is_waiting (sent_by (shown_sent (min (length c) int_max) r) c cb t).pending ≡ true
    → r ≡ blocked
waits-blocked accepted c cb t l e h = ground (arith, h, e, l)
waits-blocked blocked c cb t l e h = refl
waits-blocked refused c cb t l e h = ground (arith, h, e)

-- What waits can be written, or not.
abbrev IsStuck : IpcStream → Type 0
IsStuck s = (is_waiting s.pending && is_writable true (view s.world.queue)) ≡ false

no_writes-IsStuck : (cb : ℕ) (s : IpcStream) → s.pending ≡ none → IsStuck (send_chunk [] cb s)
unfolding send_chunk native_write
no_writes-IsStuck cb s e = rw (write_of_zero true [] s.world) (rw e refl)

sent_by-world :
    (x : JsWritten) (c : List ℕ) (cb : ℕ) (t : IpcStream) → (sent_by x c cb t).world ≡ t.world
sent_by-world null_written c cb t = refl
sent_by-world (number (negsuc n)) c cb t = refl
sent_by-world (number (pos n)) c cb t = ground arith

blocks-stuck :
    (c : List ℕ) (cb : ℕ) (s : IpcStream)
    → IsReady s.world
    → 0 < length c
    → length c ≤ int_max
    → s.pending ≡ none
    → is_waiting (send_chunk c cb s).pending ≡ true
    → is_writable true (view (send_chunk c cb s).world.queue) ≡ false
unfolding send_chunk
blocks-stuck c cb s r z l e h =
    let n = native_write_lem c (length c) s.world z r.sound in
    let m = message_at s.world.next c (min (length c) int_max) in
    let t = record s { world = (native_write c (length c) s.world).1 } in
    let b =
      waits-blocked (send true m (view s.world.queue)).0 c cb t l e
        (subst (λ x. is_waiting (sent_by x c cb t).pending ≡ true) n.0 h) in
    ap (λ (x : World). is_writable true (view x.queue))
      (sent_by-world (native_write c (length c) s.world).0 c cb t)
    ∙ ap (is_writable true) n.1
    ∙ send_blocked m (view s.world.queue) b

send_chunk-IsStuck :
    (c : List ℕ) (cb : ℕ) (s : IpcStream)
    → IsReady s.world
    → length c ≤ int_max
    → s.pending ≡ none
    → IsStuck (send_chunk c cb s)
send_chunk-IsStuck [] cb s r l e = no_writes-IsStuck cb s e
send_chunk-IsStuck (x ∷ c) cb s r l e =
    let s' = send_chunk (x ∷ c) cb s in
    elim (Bool-cases (is_waiting s'.pending)) [
      | inl h ↦ rw (h, blocks-stuck (x ∷ c) cb s r (omega arith) l e h) refl
      | inr h ↦ rw h refl
    ]

-- A retry leaves what waits stuck, and the state of the worklet's end as it was.
record Retries (s s' : IpcStream) : Type 0 where
  stuck : IsStuck s'
  same_uv : (view s'.world.queue).uv_state ≡ (view s.world.queue).uv_state

retry_of-Retries :
    (p : Option (List ℕ × ℕ)) (s : IpcStream)
    → IsReady s.world
    → IsShort p
    → s.pending ≡ p
    → Retries s (retry_of p s)
retry_of-Retries none s r l e = record { stuck = rw e refl; same_uv = refl }
retry_of-Retries (some (c, cb)) s r l e =
    let t = record s { pending = none } in
    record {
      stuck = send_chunk-IsStuck c cb t r l refl;
      same_uv = (send_chunk-Sends c cb t r refl).same_uv;
    }

Drains-IsStuck : (s s' : IpcStream) → Drains s s' → IsStuck s → IsStuck s'
Drains-IsStuck s s' d k =
    rw (d.same_pending, d.leaves.same_out, d.leaves.same_uv, d.leaves.same_thread) k

IsAwake-of_listening :
    (w : World) → IsReady w → listening (view w.queue).uv_state ≡ true → IsAwake true w
unfolding view
IsAwake-of_listening w r h = record { sound = r.sound; hears = h; owns = rw (r.kept) refl }

-- What was not to be and is comes with `N`.
rises :
    (p x x' : Bool) {N : Type 0}
    → (p && x) ≡ false
    → (x ≡ false → x' ≡ true → N)
    → ((p && x') ≡ false) ⊎ N
rises false x x' h f = inl refl
rises true true x' h f = cc
rises true false false h f = inl refl
rises true false true h f = inr (f refl refl)

or-false : (b c : Bool) → b ≡ false → c ≡ false → (b || c) ≡ false
or-false b c h k = rw (h, k) refl

-- From a stream that could not go on, what lets it go on signals the worklet.
woken_again :
    (cs : List Call) (s : IpcStream)
    → IsAwake true s.world
    → AllWriteOn true cs
    → (s.reading && is_readable true (view s.world.queue)) ≡ false
    → IsStuck s
    → (could_go_on s (view (run cs s.world).1.queue) ≡ false)
      ⊎ (signals true s.world.trace < signals true (run cs s.world).1.trace)
woken_again cs s a f r k =
    let c = view s.world.queue in
    let d = view (run cs s.world).1.queue in
    elim (rises s.reading (is_readable true c) (is_readable true d) r
      (no_lost_wakeup true cs s.world a (AllWriteOn-AllStay true cs f))) [
        | inr more ↦ inr more
        | inl e ↦
            elim (rises (is_waiting s.pending) (is_writable true c) (is_writable true d) k
              (no_lost_space true cs s.world a f)) [
                | inr more ↦ inr more
                | inl e' ↦ inl (
                    or-false (s.reading && is_readable true d)
                      (is_waiting s.pending && is_writable true d) e e')
              ]
      ]

-- At a queue with valid rings and whole messages that is not destroyed, with the worklet's end
-- listening and at most the largest `int` of bytes waiting, the stream's handler of a signal comes
-- to an end; and behind any history of calls in which the worklet's end is not ended, closed,
-- opened again or destroyed, the stream can neither read on, if it is being read, nor write on, if
-- a write waits, or the worklet has been signalled again.
pub on_signal-wakes :
    (wants_more : List Push → Bool) (cs : List Call) (s : IpcStream)
    → IsReady s.world
    → listening (view s.world.queue).uv_state ≡ true
    → IsShort s.pending
    → AllWriteOn true cs
    → (s' : IpcStream) × (on_signal wants_more s ≡ some s')
      × ((could_go_on s' (view (run cs s'.world).1.queue) ≡ false)
          ⊎ (signals true s'.world.trace < signals true (run cs s'.world).1.trace))
unfolding on_signal retry
on_signal-wakes wants_more cs s r h l f =
    let k = retry_of-Retries s.pending s r l refl in
    let (s', e, d) = drain_pushes wants_more (retry s) (retry-Carries s r).ready in
    let up = ap listening (d.leaves.same_uv ∙ k.same_uv) ∙ h in
    (
      s',
      e,
      woken_again cs s' (IsAwake-of_listening s'.world d.leaves.ready up) f d.settled
          (Drains-IsStuck (retry s) s' d k.stuck),
    )
