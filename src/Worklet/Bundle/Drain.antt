-- ===== src/Worklet/Bundle/Drain.antt =====
-- The loop of src/worklet.js that pushes what there is to read.
use bare_kit.Prelude.{
  ℕ, zero, suc, ◌≤◌, ◌<◌, ◌≡◌, refl, ap, sym, ◌∙◌, List, [], ◌∷◌, ◌++◌, append_assoc, Bool, true,
  false, ◌&&◌, some, arith, if◌then◌else◌, length, Bool-cases, inl, inr,
}
use bare_kit.Ring.{Message}
use bare_kit.Ring.Refine.{length-contents}
use bare_kit.Queue.State.{World}
use bare_kit.Queue.Refine.{view}
use bare_kit.Queue.Payload.{payload, payloads}
use bare_kit.Queue.Wake.Effects.{is_readable}
use bare_kit.Worklet.Native.{undefined, null, buffer, native_read}
use bare_kit.Worklet.Bundle.Ready.{IsReady}
use bare_kit.Worklet.Bundle.{drain, drain_fuel, Push, chunk, finish, IpcStream, push, drain_loop}
use bare_kit.Worklet.Bundle.Reading.{
  Leaves, Given, gives, finishes, waits, native_read-Given, native_read-Leaves, Leaves-Leaves,
}

-- The bytes of what has been pushed, the oldest first.
unfoldable pub pushed_bytes : List Push → List ℕ
pushed_bytes [] = []
pushed_bytes (chunk l ∷ ps) = pushed_bytes ps ++ l
pushed_bytes (finish ∷ ps) = pushed_bytes ps

-- What the loop does: it pushes the messages there are in their order, until the reader wants no
-- more or there is nothing to read.
pub record Drains (s s' : IpcStream) : Type 0 where
  pub leaves : Leaves s.world s'.world
  pub order :
      pushed_bytes s.pushed ++ payloads (view s.world.queue).to_uv
      ≡ pushed_bytes s'.pushed ++ payloads (view s'.world.queue).to_uv
  pub settled : (s'.reading && is_readable true (view s'.world.queue)) ≡ false
  pub same_pending : s'.pending ≡ s.pending
  pub same_answered : s'.answered ≡ s.answered

-- The stream behind a read of `m`, and behind one at the end.
abbrev pushes : Message → IpcStream → IpcStream
pushes m s = push (chunk (payload m.base)) (record s { world = (native_read s.world).1 })

loop_gives :
    (wants_more : List Push → Bool) (n : ℕ) (m : Message) (s : IpcStream)
    → (native_read s.world).0 ≡ buffer m
    → drain_loop wants_more (suc n) s ≡ (
        if wants_more (pushes m s).pushed
        then drain_loop wants_more n (pushes m s)
        else some (record (pushes m s) { reading = false }))
unfolding drain_loop
loop_gives wants_more n m s e = rw e refl

loop_finishes :
    (wants_more : List Push → Bool) (n : ℕ) (s : IpcStream)
    → (native_read s.world).0 ≡ null
    → drain_loop wants_more (suc n) s
      ≡ some (push finish (record s { world = (native_read s.world).1; reading = false }))
unfolding drain_loop
loop_finishes wants_more n s e = rw e refl

loop_waits :
    (wants_more : List Push → Bool) (n : ℕ) (s : IpcStream)
    → (native_read s.world).0 ≡ undefined
    → drain_loop wants_more (suc n) s ≡ some (record s { world = (native_read s.world).1 })
unfolding drain_loop
loop_waits wants_more n s e = rw e refl

-- The bytes that one push moves from the queue to the reader.
moved_bytes :
    (m : Message) (rest : List Message) (s : IpcStream)
    → (view s.world.queue).to_uv ≡ m ∷ rest
    → (view (native_read s.world).1.queue).to_uv ≡ rest
    → pushed_bytes s.pushed ++ payloads (view s.world.queue).to_uv
      ≡ pushed_bytes (pushes m s).pushed ++ payloads (view (native_read s.world).1.queue).to_uv
unfolding pushed_bytes payloads
moved_bytes m rest s e e' =
    rw (e, e') (sym (append_assoc (pushed_bytes s.pushed) (payload m.base) (payloads rest)))

and-false : (b : Bool) → (b && false) ≡ false
and-false true = refl
and-false false = refl

-- What a call of the loop gives.
abbrev Ends : (List Push → Bool) → ℕ → IpcStream → Type 0
Ends wants_more n s = (s' : IpcStream) × (drain_loop wants_more n s ≡ some s') × Drains s s'

waits-Ends :
    (wants_more : List Push → Bool) (n : ℕ) (s : IpcStream)
    → IsReady s.world
    → (native_read s.world).0 ≡ undefined
    → (view s.world.queue).to_uv ≡ []
    → is_readable true (view (native_read s.world).1.queue) ≡ false
    → (view (native_read s.world).1.queue).to_uv ≡ []
    → Ends wants_more (suc n) s
waits-Ends wants_more n s r e l q l' = (
  record s { world = (native_read s.world).1 },
  loop_waits wants_more n s e,
  record {
    leaves = native_read-Leaves s.world r;
    order = rw (l, l') refl;
    settled = rw q (and-false s.reading);
    same_pending = refl;
    same_answered = refl;
  },
)

finishes-Ends :
    (wants_more : List Push → Bool) (n : ℕ) (s : IpcStream)
    → IsReady s.world
    → (native_read s.world).0 ≡ null
    → (view s.world.queue).to_uv ≡ []
    → (view (native_read s.world).1.queue).to_uv ≡ []
    → Ends wants_more (suc n) s
unfolding pushed_bytes
finishes-Ends wants_more n s r e l l' = (
  push finish (record s { world = (native_read s.world).1; reading = false }),
  loop_finishes wants_more n s e,
  record {
    leaves = native_read-Leaves s.world r;
    order = rw (l, l') refl;
    settled = refl;
    same_pending = refl;
    same_answered = refl;
  },
)

-- Behind a push the reader wants no more.
stops-Ends :
    (wants_more : List Push → Bool) (n : ℕ) (m : Message) (rest : List Message) (s : IpcStream)
    → IsReady s.world
    → (native_read s.world).0 ≡ buffer m
    → (view s.world.queue).to_uv ≡ m ∷ rest
    → (view (native_read s.world).1.queue).to_uv ≡ rest
    → wants_more (pushes m s).pushed ≡ false
    → Ends wants_more (suc n) s
stops-Ends wants_more n m rest s r e l l' b = (
  record (pushes m s) { reading = false },
  loop_gives wants_more n m s e ∙ rw b refl,
  record {
    leaves = native_read-Leaves s.world r;
    order = moved_bytes m rest s l l';
    settled = refl;
    same_pending = refl;
    same_answered = refl;
  },
)

-- Behind a push the loop goes on.
goes_on-Ends :
    (wants_more : List Push → Bool) (n : ℕ) (m : Message) (rest : List Message) (s : IpcStream)
    → IsReady s.world
    → (native_read s.world).0 ≡ buffer m
    → (view s.world.queue).to_uv ≡ m ∷ rest
    → (view (native_read s.world).1.queue).to_uv ≡ rest
    → wants_more (pushes m s).pushed ≡ true
    → Ends wants_more n (pushes m s)
    → Ends wants_more (suc n) s
goes_on-Ends wants_more n m rest s r e l l' b (s', e', d) = (
  s',
  loop_gives wants_more n m s e ∙ rw b e',
  record {
    leaves = Leaves-Leaves (native_read-Leaves s.world r) d.leaves;
    order = moved_bytes m rest s l l' ∙ d.order;
    settled = d.settled;
    same_pending = d.same_pending;
    same_answered = d.same_answered;
  },
)

turn-Ends :
    (wants_more : List Push → Bool) (n : ℕ) (s : IpcStream)
    → IsReady s.world
    → length (view s.world.queue).to_uv < suc n
    → ((t : IpcStream)
        → IsReady t.world
        → length (view t.world.queue).to_uv < n
        → Ends wants_more n t)
    → Given s.world (native_read s.world)
    → Ends wants_more (suc n) s
turn-Ends wants_more n s r h ih (gives m rest e l l') =
    elim (Bool-cases (wants_more (pushes m s).pushed)) [
      | inl b ↦ goes_on-Ends wants_more n m rest s r e l l' b (
          ih (pushes m s) (native_read-Leaves s.world r).ready
            (omega (arith, h, ap length l, ap length l')))
      | inr b ↦ stops-Ends wants_more n m rest s r e l l' b
    ]
turn-Ends wants_more n s r h ih (finishes e l l') = finishes-Ends wants_more n s r e l l'
turn-Ends wants_more n s r h ih (waits e l q l') = waits-Ends wants_more n s r e l q l'

pub drain_loop-Drains :
    (wants_more : List Push → Bool) (n : ℕ) (s : IpcStream)
    → IsReady s.world
    → length (view s.world.queue).to_uv < n
    → Ends wants_more n s
drain_loop-Drains wants_more zero s r h = absurd (omega (arith, h))
drain_loop-Drains wants_more (suc n) s r h =
    turn-Ends wants_more n s r h (λ t q k. drain_loop-Drains wants_more n t q k)
      (native_read-Given s.world r)

held_messages : (w : World) → IsReady w → length (view w.queue).to_uv ≤ 1023
unfolding view
held_messages w r =
    omega (
      arith,
      length-contents w.queue.to_uv,
      r.sound.to_uv_valid.head_in,
      r.sound.to_uv_valid.tail_in,
    )

-- Nothing is read.
Drains-same : (s : IpcStream) → IsReady s.world → s.reading ≡ false → Drains s s
Drains-same s r e = record {
  leaves = record { ready = r; same_out = refl; same_uv = refl; same_thread = refl };
  order = refl;
  settled = rw e refl;
  same_pending = refl;
  same_answered = refl;
}

-- At a queue with valid rings and whole messages that is not destroyed, the loop that pushes what
-- there is to read comes to an end, whenever the reader wants no more: the bytes pushed and those
-- left are those that there were, in the same order, with nothing else of the queue, of the write
-- that waits and of the callbacks changed; and if the stream is still being read, then there is
-- nothing to read.
-- `_drain` comes to an end, and does what `Drains` says.
pub drain_pushes :
    (wants_more : List Push → Bool) (s : IpcStream)
    → IsReady s.world
    → (s' : IpcStream) × (drain wants_more s ≡ some s') × Drains s s'
unfolding drain
drain_pushes wants_more s r =
    let (s', e, d) =
      drain_loop-Drains wants_more drain_fuel s r (omega (arith, held_messages s.world r)) in
    elim (Bool-cases s.reading) [
      | inl b ↦ (s', simp b e, d)
      | inr b ↦ (s, simp b refl, Drains-same s r b)
    ]
