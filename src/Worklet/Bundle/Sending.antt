-- ===== src/Worklet/Bundle/Sending.antt =====
-- The writes of the stream of src/worklet.js: a chunk, or what is left of it, that waits for space.
use bare_kit.Prelude.{
  ℕ, ◌≡◌, refl, ap, sym, subst, ◌∙◌, ℤ, pos, negsuc, zero, suc, List, [], ◌∷◌, ◌++◌, append_assoc,
  append-nil, Bool, true, false, Option, none, some, arith, length, take, ltb, Bool-cases, inl, inr,
  take-append-drop, drop_all, ◌≤◌,
}
use bare_kit.Queue.State.{World}
use bare_kit.Queue.Ops
use bare_kit.Queue.Channel.{Channel, send, is_unowned}
use bare_kit.Queue.Wake.Effects.{moved}
use bare_kit.Queue.Calls.{Call, Reply, step, answer}
use bare_kit.Queue.Refine.{view}
use bare_kit.Queue.Payload.{payloads}
use bare_kit.Queue.Delivery.{taken, step-Delivers}
use bare_kit.Worklet.Native.{js_written, native_write}
use bare_kit.Worklet.Bundle.{Answer, completed, closed_error, IpcStream, sent_by, send_chunk}
use bare_kit.Worklet.Bundle.Ready.{IsReady, step-IsReady}

-- The bytes that wait for space.
abbrev pub waiting : Option (List ℕ × ℕ) → List ℕ
waiting none = []
waiting (some (c, cb)) = c

-- No write has been answered by an error.
unfoldable pub all_written : List Answer → Bool
all_written [] = true
all_written (completed cb ∷ l) = all_written l
all_written (closed_error cb ∷ l) = false

abbrev pub callback : Answer → ℕ
callback (completed cb) = cb
callback (closed_error cb) = cb

-- The callbacks that have been called, the oldest first.
unfoldable pub calls_made : List Answer → List ℕ
calls_made [] = []
calls_made (a ∷ l) = calls_made l ++ callback a ∷ []

abbrev pub still_due : Option (List ℕ × ℕ) → List ℕ
still_due none = []
still_due (some (c, cb)) = cb ∷ []

-- The callbacks in the order they fall due: those called, then that of the write that waits.
abbrev pub callbacks : IpcStream → List ℕ
callbacks s = calls_made s.answered ++ still_due s.pending

-- The bytes on their way to the host, those that wait for space last.
abbrev pub outbound : IpcStream → List ℕ
outbound s = payloads (view s.world.queue).to_thread ++ waiting s.pending

-- What a write of `c` does to the stream, from one in which nothing waits.
pub record Sends (c : List ℕ) (cb : ℕ) (s s' : IpcStream) : Type 0 where
  pub ready : IsReady s'.world
  pub grows : all_written s'.answered ≡ true → all_written s.answered ≡ true
  pub bytes :
      all_written s'.answered ≡ true → payloads (view s.world.queue).to_thread ++ c ≡ outbound s'
  pub due : calls_made s.answered ++ cb ∷ [] ≡ callbacks s'
  pub same_pushed : s'.pushed ≡ s.pushed
  pub same_in : (view s'.world.queue).to_uv ≡ (view s.world.queue).to_uv
  pub same_uv : (view s'.world.queue).uv_state ≡ (view s.world.queue).uv_state

-- What the answer to a write leaves to the stream, `t` the stream with nothing waiting.
record Answers (n : ℤ) (c : List ℕ) (cb : ℕ) (t s' : IpcStream) : Type 0 where
  world : s'.world ≡ t.world
  grows : all_written s'.answered ≡ true → all_written t.answered ≡ true
  bytes : all_written s'.answered ≡ true → taken (Reply.wrote n) c ++ waiting s'.pending ≡ c
  due : calls_made t.answered ++ cb ∷ [] ≡ callbacks s'
  pushed : s'.pushed ≡ t.pushed

take_all : (n : ℕ) (l : List ℕ) → length l ≤ n → take n l ≡ l
take_all n l h =
    sym (append-nil (take n l))
    ∙ ap (λ r. take n l ++ r) (sym (drop_all n l h))
    ∙ take-append-drop n l

part-Answers :
    (n : ℕ) (c : List ℕ) (cb : ℕ) (t : IpcStream)
    → ltb n (length c) ≡ true
    → Answers (pos n) c cb t (sent_by (js_written (pos n)) c cb t)
unfolding all_written calls_made
part-Answers n c cb t h = rw h (record {
  world = refl;
  grows = λ g. g;
  bytes = λ g. take-append-drop n c;
  due = refl;
  pushed = refl;
})

whole-Answers :
    (n : ℕ) (c : List ℕ) (cb : ℕ) (t : IpcStream)
    → t.pending ≡ none
    → ltb n (length c) ≡ false
    → Answers (pos n) c cb t (sent_by (js_written (pos n)) c cb t)
unfolding all_written calls_made
whole-Answers n c cb t e h = rw h (record {
  world = refl;
  grows = λ g. g;
  bytes = λ g. rw e (append-nil (take n c) ∙ take_all n c (ground (arith, h)));
  due = rw e (sym (append-nil (calls_made t.answered ++ cb ∷ [])));
  pushed = refl;
})

sent_by-Answers :
    (n : ℤ) (c : List ℕ) (cb : ℕ) (t : IpcStream)
    → t.pending ≡ none
    → Answers n c cb t (sent_by (js_written n) c cb t)
unfolding all_written calls_made
sent_by-Answers (negsuc zero) c cb t e = record {
  world = refl;
  grows = λ h. h;
  bytes = λ h. refl;
  due = refl;
  pushed = refl;
}
sent_by-Answers (negsuc (suc zero)) c cb t e = record {
  world = refl;
  grows = λ h. cc;
  bytes = λ h. cc;
  due = rw e (sym (append-nil _));
  pushed = refl;
}
sent_by-Answers (negsuc (suc (suc n))) c cb t e = record {
  world = refl;
  grows = λ h. h;
  bytes = λ h. refl;
  due = refl;
  pushed = refl;
}
sent_by-Answers (pos n) c cb t e = elim (Bool-cases (ltb n (length c))) [
  | inl h ↦ part-Answers n c cb t h
  | inr h ↦ whole-Answers n c cb t e h
]

-- The call of the queue that a write from JavaScript makes.
native_write-step :
    (c : List ℕ) (w : World)
    → (native_write c (length c) w ≡ (
      js_written (Ops.write true c (length c) w).0,
      (step (Call.writes true c (length c)) w).1,
    ))
unfolding native_write step
native_write-step c w = refl

writes-keeps :
    (source : List ℕ) (len : ℕ) (c : Channel) (n : ℕ)
    → let d = (answer (Call.writes true source len) (c, n)).1.0 in
      (d.to_uv ≡ c.to_uv) × (d.uv_state ≡ c.uv_state)
unfolding answer send
writes-keeps source len c n = (ground arith, ground arith)

-- What the call of a write does to the queue.
record Writes (c : List ℕ) (w w' : World) : Type 0 where
  ready : IsReady w'
  bytes :
      payloads (view w.queue).to_thread ++ taken (Reply.wrote (Ops.write true c (length c) w).0) c
      ≡ payloads (view w'.queue).to_thread
  same_in : (view w'.queue).to_uv ≡ (view w.queue).to_uv
  same_uv : (view w'.queue).uv_state ≡ (view w.queue).uv_state

pub kept-owned : (c : Channel) → c.destroyed ≡ false → is_unowned c ≡ false
unfolding is_unowned
kept-owned c h = ground arith

step-Writes :
    (c : List ℕ) (w : World) → IsReady w → Writes c w (step (Call.writes true c (length c)) w).1
unfolding step
step-Writes c w r =
    let k = Call.writes true c (length c) in
    let w' = (step k w).1 in
    let r' = step-IsReady k w refl (omega arith) r in
    record {
      ready = r';
      bytes = step-Delivers true k w r.sound (kept-owned (view w'.queue) r'.kept);
      same_in =
          ap (λ (x : Channel). x.to_uv) (moved k w r.sound)
          ∙ (writes-keeps c (length c) (view w.queue) w.next).0;
      same_uv =
          ap (λ (x : Channel). x.uv_state) (moved k w r.sound)
          ∙ (writes-keeps c (length c) (view w.queue) w.next).1;
    }

pub send_chunk-Sends :
    (c : List ℕ) (cb : ℕ) (s : IpcStream)
    → IsReady s.world
    → s.pending ≡ none
    → Sends c cb s (send_chunk c cb s)
unfolding send_chunk native_write step
send_chunk-Sends c cb s r e =
    let t = record s { world = (step (Call.writes true c (length c)) s.world).1 } in
    let n = (Ops.write true c (length c) s.world).0 in
    let a = sent_by-Answers n c cb t e in
    let w = step-Writes c s.world r in
    record {
      ready = subst IsReady (sym a.world) w.ready;
      grows = a.grows;
      bytes = λ h. rw (a.world) (
          ap (λ l. payloads (view s.world.queue).to_thread ++ l) (sym (a.bytes h))
          ∙ sym (
              append_assoc (payloads (view s.world.queue).to_thread) (taken (Reply.wrote n) c)
                (waiting (send_chunk c cb s).pending))
          ∙ ap (λ l. l ++ waiting (send_chunk c cb s).pending) w.bytes);
      due = a.due;
      same_pushed = a.pushed;
      same_in = ap (λ (x : World). (view x.queue).to_uv) a.world ∙ w.same_in;
      same_uv = ap (λ (x : World). (view x.queue).uv_state) a.world ∙ w.same_uv;
    }
