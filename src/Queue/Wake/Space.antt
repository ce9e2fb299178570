-- ===== src/Queue/Wake/Space.antt =====
-- What single calls of src/queue.c do for an end that waits for space: writes, reads, ends and closes.
use bare_kit.Prelude.{
  ℕ, zero, suc, ◌<◌, ◌≡◌, refl, sym, ◌∙◌, ◌⊎◌, inl, inr, List, [], ◌∷◌, Bool, true, false, not,
  ◌&&◌, ◌||◌, arith, ◌==◌, length, cap_int,
}
use bare_kit.Ring.{Message, Ring, ring_full, ring_shift}
use bare_kit.Ring.Inv.{IsValid}
use bare_kit.Ring.Refine.{contents, ring_full_lem, length-contents, Shift-cases, nothing, oldest}
use bare_kit.Queue.State.{PortState, World, is_ended, is_closed, inbox}
use bare_kit.Queue.Channel.{Channel, incoming, outgoing, own, peer, send, receive, receive_from}
use bare_kit.Queue.Ops.{write, read, advance}
use bare_kit.Queue.Calls.{Call, message_at}
use bare_kit.Queue.Inv.{IsSound}
use bare_kit.Queue.Refine.{view}
use bare_kit.Queue.Correct.{write_of_zero}
use bare_kit.Queue.Wake.{signals, heard, read-signals, advance-signals, has_message}
use bare_kit.Queue.Wake.Callback.{stays}
use bare_kit.Queue.Wake.Effects.{written, read-view, woken_lem}

-- Whether a write would go through or fail, rather than wait for space.
abbrev pub is_writable : Bool → Channel → Bool
is_writable b c = not (length (outgoing b c) == 1023) || is_ended (own b c) || is_closed (peer b c)

abbrev pub is_own_end : Bool → Call → Bool
is_own_end true (Call.ends true) = true
is_own_end false (Call.ends false) = true
is_own_end _ _ = false

-- A call that leaves the end open for writing.
abbrev pub writes_on : Bool → Call → Bool
writes_on b c = stays b c && not (is_own_end b c)

abbrev pub AllWriteOn : Bool → List Call → Type 0
AllWriteOn b [] = Unit {0}
AllWriteOn b (c ∷ cs) = (writes_on b c ≡ true) × AllWriteOn b cs

abbrev pub FreesUp : Bool → World → World → Type 0
FreesUp b w w' =
    is_writable b (view w'.queue) ≡ true
    → (is_writable b (view w.queue) ≡ true) ⊎ (signals b w.trace < signals b w'.trace)

send-writable_own :
    (b : Bool) (m : Message) (c : Channel)
    → is_writable b (send b m c).1 ≡ true
    → is_writable b c ≡ true
unfolding send
send-writable_own true m c h = ground arith
send-writable_own false m c h = ground arith

send-writable :
    (b : Bool) (m : Message) (c : Channel)
    → is_writable (not b) (send b m c).1 ≡ is_writable (not b) c
unfolding send
send-writable true m c = ground arith
send-writable false m c = ground arith

pub writes-FreesUp :
    (b p : Bool) (source : List ℕ) (len : ℕ) (w : World)
    → IsSound w.queue
    → FreesUp b w (write p source len w).1
writes-FreesUp b p source zero w v = rw (write_of_zero p source w) (λ h. inl h)
writes-FreesUp true true source (suc k) w v =
    λ h. inl (send-writable_own true _ (view w.queue) (rw (written true source k w v) at h))
writes-FreesUp false false source (suc k) w v =
    λ h. inl (send-writable_own false _ (view w.queue) (rw (written false source k w v) at h))
writes-FreesUp true false source (suc k) w v = λ h. inl (
    sym (send-writable false (message_at w.next source (cap_int (suc k))) (view w.queue))
    ∙ (rw (written false source k w v) at h))
writes-FreesUp false true source (suc k) w v = λ h. inl (
    sym (send-writable true (message_at w.next source (cap_int (suc k))) (view w.queue))
    ∙ (rw (written true source k w v) at h))

receive-writable_own :
    (b over : Bool) (l : List Message) (c : Channel)
    → is_writable b (receive_from l over b c).1 ≡ is_writable b c
receive-writable_own b true [] c = refl
receive-writable_own b false [] c = refl
receive-writable_own true over (m ∷ l) c = refl
receive-writable_own false over (m ∷ l) c = refl

-- A read by the other end frees space only when it takes a message from a full list.
receive-writable :
    (b over : Bool) (l : List Message) (c : Channel)
    → incoming b c ≡ l
    → is_writable (not b) (receive_from l over b c).1 ≡ true
    → (is_writable (not b) c ≡ true) ⊎ (length (incoming b c) ≡ 1023)
receive-writable b true [] c e h = inl h
receive-writable b false [] c e h = inl h
receive-writable true over (m ∷ l) c e h = ground arith
receive-writable false over (m ∷ l) c e h = ground arith

-- A read of a full ring finds a message.
pub takes_from_full :
    (r : Ring)
    → IsValid r
    → length (contents r) ≡ 1023
    → (has_message (ring_shift r).0 && ring_full r) ≡ true
takes_from_full r v h = elim (Shift-cases v) [
  | nothing e none_out rest ↦ ground arith
  | oldest m rest e out left ↦ rw (out, ring_full_lem r v) (ground (arith, length-contents r))
]

full_is_heard :
    (b : Bool) (w : World)
    → IsSound w.queue
    → length (incoming b (view w.queue)) ≡ 1023
    → (has_message (ring_shift (inbox b w.queue)).0 && ring_full (inbox b w.queue)) ≡ true
unfolding view
full_is_heard true w v h = takes_from_full w.queue.to_uv v.to_uv_valid h
full_is_heard false w v h = takes_from_full w.queue.to_thread v.to_thread_valid h

own_reads-FreesUp : (b : Bool) (w : World) → IsSound w.queue → FreesUp b w (read b w).2
unfolding receive
own_reads-FreesUp b w v h = inl (
    sym (receive-writable_own b _ (incoming b (view w.queue)) (view w.queue))
    ∙ (rw (read-view b w v) at h))

other_reads-FreesUp :
    (b : Bool) (w : World)
    → IsSound w.queue
    → heard (not b) w.queue ≡ true
    → FreesUp (not b) w (read b w).2
unfolding receive
other_reads-FreesUp b w v a h =
    elim (receive-writable b _ (incoming b (view w.queue)) (view w.queue) refl
      (rw (read-view b w v) at h)) [
        | inl before ↦ inl before
        | inr full ↦ inr (
            omega (arith, (read-signals b w).0, woken_lem _ (not b) w (full_is_heard b w v full) a))
      ]

pub reads-FreesUp :
    (b p : Bool) (w : World) → IsSound w.queue → heard b w.queue ≡ true → FreesUp b w (read p w).2
reads-FreesUp true true w v a = own_reads-FreesUp true w v
reads-FreesUp false false w v a = own_reads-FreesUp false w v
reads-FreesUp true false w v a = other_reads-FreesUp false w v a
reads-FreesUp false true w v a = other_reads-FreesUp true w v a

pub advance-FreesUp :
    (b : Bool) (s : PortState) (w : World)
    → IsSound w.queue
    → heard (not b) w.queue ≡ true
    → FreesUp (not b) w (advance b s w)
advance-FreesUp b s w v a h =
    inr (omega (arith, (advance-signals b s w v).0, woken_lem true (not b) w refl a))
