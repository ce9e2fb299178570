-- ===== src/Ipc/Read.antt =====
-- `bare_ipc_read` of src/ipc.c on the stream of bytes that the host sees.
use bare_kit.Prelude.{
  ℕ, ◌<◌, ◌≡◌, refl, ap, sym, subst, ◌∙◌, ℤ, pos, List, [], ◌∷◌, ◌++◌, Bool, true, false, Option,
  none, some, arith, cap_int, cap_int_lem, inl, inr, Bool-cases, Option-cases,
}
use bare_kit.Ring.{Block, Message, ring_shift}
use bare_kit.Ring.Refine.{contents, Shift, nothing, oldest, Shift-cases}
use bare_kit.Ring.Inv.{ring_shift-IsValid}
use bare_kit.Queue.State.{World, Queue, Event, emit, is_ended}
use bare_kit.Queue.Ops
use bare_kit.Queue.Inv.{IsSound, signal_peer-Keeps}
use bare_kit.Queue.Refine.{shifted}
use bare_kit.Ipc.State.{ipc_would_block, Act, Host, act}
use bare_kit.Ipc.Ops.{read, refill, serve, serve_if, no_message}
use bare_kit.Queue.Payload.{AllFull, payload, payloads}
use bare_kit.Ipc.Stream.{
  stream, is_over, IsLeft, IsGood, Reads, some_bytes, at_end, would_block, Serves, serve-Serves,
  IsGood-of_parts, stream_lem,
}

-- What the host end of a queue reads.
data Given (w : World) (r : ℤ × Option Message × World) : Type 0 where
  gives :
      (m : Message) (rest : List Message)
      → contents w.queue.to_thread ≡ m ∷ rest
      → r.1 ≡ some m
      → contents r.2.queue.to_thread ≡ rest
      → Given w r
  finishes :
      contents w.queue.to_thread ≡ []
      → is_ended w.queue.uv_state ≡ true
      → r.1 ≡ some no_message
      → contents r.2.queue.to_thread ≡ []
      → Given w r
  waits :
      contents w.queue.to_thread ≡ []
      → is_ended w.queue.uv_state ≡ false
      → r.1 ≡ none
      → contents r.2.queue.to_thread ≡ []
      → Given w r

abbrev shifted_thread : World → World
shifted_thread w = shifted false (emit Event.lock w)

-- A read leaves the way in as the shift left it, and the rest of the queue as it was.
pub read-queue :
    (w : World)
    → (Ops.read false w).2.queue ≡ record w.queue { to_thread = (ring_shift w.queue.to_thread).1 }
unfolding Ops.read Ops.read_locked
read-queue w = ground (arith, signal_peer-Keeps false (shifted_thread w))

read-out :
    (w : World)
    → (Ops.read false w).1
      ≡ (Ops.read_result (ring_shift w.queue.to_thread).0 (is_ended w.queue.uv_state)).1
unfolding Ops.read Ops.read_locked
read-out w = refl

Given-of_Shift : (w : World) → Shift w.queue.to_thread → Given w (Ops.read false w)
Given-of_Shift w (oldest m rest e n e') =
    gives m rest e (read-out w ∙ rw (n, Ops.read_result) refl)
      (ap (λ (q : Queue). contents q.to_thread) (read-queue w) ∙ e')
Given-of_Shift w (nothing e n e') = elim (Bool-cases (is_ended w.queue.uv_state)) [
  | inl over ↦
      finishes e over (read-out w ∙ rw (n, over) refl)
        (ap (λ (q : Queue). contents q.to_thread) (read-queue w) ∙ e')
  | inr open_yet ↦
      waits e open_yet (read-out w ∙ rw (n, open_yet) refl)
        (ap (λ (q : Queue). contents q.to_thread) (read-queue w) ∙ e')
]

read-Given : (w : World) → IsSound w.queue → Given w (Ops.read false w)
read-Given w v = Given-of_Shift w (Shift-cases v.to_thread_valid)

read-IsSound : (w : World) → IsSound w.queue → IsSound (Ops.read false w).2.queue
read-IsSound w v =
    rw (read-queue w) (record {
      to_uv_valid = v.to_uv_valid;
      to_thread_valid = ring_shift-IsValid v.to_thread_valid;
    })

-- What the first half of a read leaves.
data Fills (h : Host) (r : ℤ × Host) : Type 0 where
  at_hand :
      (b : Block) → r.1.ipc.pending.base ≡ some b → IsGood r.1 → stream r.1 ≡ stream h → Fills h r
  over :
      r.1.ipc.pending.base ≡ none
      → IsGood r.1
      → r.0 ≡ pos 0
      → is_over h ≡ true
      → stream h ≡ []
      → stream r.1 ≡ []
      → Fills h r
  dry :
      r.1.ipc.pending.base ≡ none
      → IsGood r.1
      → r.0 ≡ ipc_would_block
      → is_over h ≡ false
      → stream h ≡ []
      → stream r.1 ≡ []
      → Fills h r

refill_closed : (h : Host) → h.ipc.port ≡ false → refill h ≡ (pos 0, h)
unfolding refill
refill_closed h p = rw p refl

refill_held : (h : Host) (b : Block) → h.ipc.pending.base ≡ some b → refill h ≡ (pos 0, h)
unfolding refill
refill_held h b e = rw (e, refill) (ground arith)

abbrev taken : Host → Message → Host
taken h m = record h {
  world = (Ops.read false h.world).2;
  ipc = record h.ipc { offset = 0; pending = m };
}

refill_gives :
    (h : Host) (m : Message)
    → h.ipc.port ≡ true
    → h.ipc.pending.base ≡ none
    → (Ops.read false h.world).1 ≡ some m
    → refill h ≡ (pos 0, taken h m)
unfolding refill
refill_gives h m p e o = ground arith

refill_waits :
    (h : Host)
    → h.ipc.port ≡ true
    → h.ipc.pending.base ≡ none
    → (Ops.read false h.world).1 ≡ none
    → refill h ≡ (ipc_would_block, taken h h.ipc.pending)
unfolding refill
refill_waits h p e o = ground arith

open_stream_empty :
    (h : Host) → h.ipc.pending.base ≡ none → contents h.world.queue.to_thread ≡ [] → stream h ≡ []
unfolding stream payloads
open_stream_empty h e q = rw (e, q) (ground arith)

closed_stream : (h : Host) → h.ipc.port ≡ false → stream h ≡ []
unfolding stream
closed_stream h p = rw p refl

taken-IsGood :
    (h : Host) (m : Message)
    → IsSound (Ops.read false h.world).2.queue
    → AllFull (contents (Ops.read false h.world).2.queue.to_thread)
    → IsLeft m.base (record h.ipc { offset = 0; pending = m })
    → IsGood (taken h m)
taken-IsGood h m v f l = record { sound = v; full = f; left = l }

stream-taken :
    (h : Host) (m : Message) (b : Block) (rest : List Message)
    → h.ipc.port ≡ true
    → h.ipc.pending.base ≡ none
    → m.base ≡ some b
    → contents h.world.queue.to_thread ≡ m ∷ rest
    → contents (Ops.read false h.world).2.queue.to_thread ≡ rest
    → stream (taken h m) ≡ stream h
unfolding payloads
stream-taken h m b rest p e mb q q' =
    stream_lem (taken h m) b.bytes (payloads rest) p (rw mb refl) (ap payloads q')
    ∙ sym (
        stream_lem h [] (payloads (m ∷ rest)) p (rw e refl) (ap payloads q)
        ∙ ap (λ o. payload o ++ payloads rest) mb)

is_over_open :
    (h : Host) (b : Bool) → h.ipc.port ≡ true → is_ended h.world.queue.uv_state ≡ b → is_over h ≡ b
unfolding is_over
is_over_open h b p e = rw (p, e) refl

refill_open :
    (h : Host)
    → h.ipc.port ≡ true
    → h.ipc.pending.base ≡ none
    → IsGood h
    → Given h.world (Ops.read false h.world)
    → Fills h (refill h)
refill_open h p e g (gives m rest q o q') =
    let (full, later) : AllFull (m ∷ rest) = rw q at g.full in
    let (b, is_block, size, some_len, small) = full in
    subst (λ r. Fills h r) (sym (refill_gives h m p e o))
      (at_hand b is_block
        (taken-IsGood h m (read-IsSound h.world g.sound) (rw q' later)
          (rw is_block (p, size, some_len, small)))
        (stream-taken h m b rest p e is_block q q'))
refill_open h p e g (finishes q ov o q') =
    subst (λ r. Fills h r) (sym (refill_gives h no_message p e o))
      (over refl (taken-IsGood h no_message (read-IsSound h.world g.sound) (rw q' tt) tt) refl
        (is_over_open h true p ov) (open_stream_empty h e q)
        (open_stream_empty (taken h no_message) refl q'))
refill_open h p e g (waits q ov o q') =
    subst (λ r. Fills h r) (sym (refill_waits h p e o))
      (dry e (taken-IsGood h h.ipc.pending (read-IsSound h.world g.sound) (rw q' tt) (rw e tt)) refl
        (is_over_open h false p ov) (open_stream_empty h e q)
        (open_stream_empty (taken h h.ipc.pending) e q'))

refill-Fills : (h : Host) → IsGood h → Fills h (refill h)
unfolding is_over
refill-Fills h g = elim (Option-cases h.ipc.pending.base) [
  | inr (b, e) ↦ subst (λ r. Fills h r) (sym (refill_held h b e)) (at_hand b e g refl)
  | inl e ↦ elim (Bool-cases h.ipc.port) [
    | inl p ↦ refill_open h p e g (read-Given h.world g.sound)
    | inr p ↦
        subst (λ r. Fills h r) (sym (refill_closed h p))
          (over e g refl (rw p refl) (closed_stream h p) (closed_stream h p))
  ]
]

-- The whole read, with the ipc fit for the next one.
pub record ReadsWell (len : ℕ) (h : Host) (r : ℤ × List ℕ × Host) : Type 0 where
  pub case : Reads len h r
  pub good : IsGood r.2

-- The second half of a read, and the unlock.
abbrev finish : Option Block → ℕ → ℤ × Host → ℤ × List ℕ × Host
finish o len r =
    let (n, bytes, served) = serve_if o r.0 (cap_int len) r.1 in (n, bytes, act Act.unlock served)

finish_served :
    (len : ℕ) (h : Host) (r : ℤ × Host) (b : Block)
    → r.1.ipc.pending.base ≡ some b
    → stream r.1 ≡ stream h
    → Serves b (cap_int len) r.1 (serve b (cap_int len) r.1)
    → ReadsWell len h (finish r.1.ipc.pending.base len r)
unfolding stream
finish_served len h r b e st s =
    subst (λ o. ReadsWell len h (finish o len r)) (sym e)
      (record {
        case =
            some_bytes s.room s.count s.some_room (omega (arith, s.in_room, cap_int_lem len))
              s.all_room (sym st ∙ s.rest);
        good = IsGood-of_parts {h = (serve b (cap_int len) r.1).2} refl s.good.left s.good;
      })

finish-ReadsWell :
    (len : ℕ) (h : Host) (r : ℤ × Host)
    → 0 < len
    → Fills (act Act.lock h) r
    → ReadsWell len h (finish r.1.ipc.pending.base len r)
unfolding stream is_over
finish-ReadsWell len h r n (at_hand b e g st) = finish_served len h r b e st (
    serve-Serves b (cap_int len) r.1 e (omega (arith, cap_int_lem len))
      (omega (arith, cap_int_lem len)) g)
finish-ReadsWell len h r n (over e g z o st st') =
    subst (λ o. ReadsWell len h (finish o len r)) (sym e)
      (record { case = at_end z refl st st' o; good = IsGood-of_parts {h = r.1} refl g.left g })
finish-ReadsWell len h r n (dry e g z o st st') =
    subst (λ o. ReadsWell len h (finish o len r)) (sym e)
      (record {
        case = would_block z refl st st' o;
        good = IsGood-of_parts {h = r.1} refl g.left g;
      })

lock-IsGood : (h : Host) → IsGood h → IsGood (act Act.lock h)
lock-IsGood h g = IsGood-of_parts refl g.left g

-- A read with room for at least one byte, at an ipc whose rings are valid, whose messages are whole
-- and whose offset is inside the message at hand, takes the first bytes of the stream, at least one
-- and at most what there is room for, or says that the stream is at its end or empty for now, never
-- the one for the other; and it leaves such an ipc.
pub read-ReadsWell : (len : ℕ) (h : Host) → 0 < len → IsGood h → ReadsWell len h (read len h)
unfolding read
read-ReadsWell len h n g =
    finish-ReadsWell len h (refill (act Act.lock h)) n
      (refill-Fills (act Act.lock h) (lock-IsGood h g))
