-- ===== src/Worklet/Bundle/Events/Carry.antt =====
-- The bytes and the callbacks through one event at the stream of src/worklet.js.
use bare_kit.Prelude.{
  ℕ, ◌≡◌, refl, ap, sym, ◌∙◌, List, [], ◌∷◌, ◌++◌, join_carried, join_added, append-nil, true,
  Option, none, some,
}
use bare_kit.Queue.Refine.{view}
use bare_kit.Queue.Payload.{payloads}
use bare_kit.Worklet.Bundle.{completed, IpcStream, send_chunk, retry, retry_of}
use bare_kit.Worklet.Bundle.Ready.{IsReady}
use bare_kit.Worklet.Bundle.Drain.{pushed_bytes, Drains}
use bare_kit.Worklet.Bundle.Sending.{
  send_chunk-Sends, waiting, still_due, calls_made, all_written, outbound, callbacks,
}

-- The bytes from the host that the stream has pushed and those on their way.
abbrev pub inbound : IpcStream → List ℕ
inbound s = pushed_bytes s.pushed ++ payloads (view s.world.queue).to_uv

-- What happens between two streams: `given`, `sends`, `reads` and `asked` as in a story. The bytes
-- to the host are kept as long as no write is answered by an error.
pub record Carries (given sends reads asked : List ℕ) (s s' : IpcStream) : Type 0 where
  pub ready : IsReady s'.world
  pub grows : all_written s'.answered ≡ true → all_written s.answered ≡ true
  pub out_bytes : all_written s'.answered ≡ true → outbound s ++ given ≡ reads ++ outbound s'
  pub in_bytes : inbound s ++ sends ≡ inbound s'
  pub due : callbacks s ++ asked ≡ callbacks s'

nothing_waits :
    (s : IpcStream) → s.pending ≡ none → outbound s ≡ payloads (view s.world.queue).to_thread
nothing_waits s e =
    ap (λ p. payloads (view s.world.queue).to_thread ++ waiting p) e
    ∙ append-nil (payloads (view s.world.queue).to_thread)

nothing_due : (s : IpcStream) → s.pending ≡ none → callbacks s ≡ calls_made s.answered
nothing_due s e =
    ap (λ p. calls_made s.answered ++ still_due p) e ∙ append-nil (calls_made s.answered)

same_inbound :
    (s s' : IpcStream)
    → s'.pushed ≡ s.pushed
    → (view s'.world.queue).to_uv ≡ (view s.world.queue).to_uv
    → inbound s ≡ inbound s'
same_inbound s s' p q =
    ap (λ l. pushed_bytes l ++ payloads (view s.world.queue).to_uv) (sym p)
    ∙ ap (λ l. pushed_bytes s'.pushed ++ payloads l) (sym q)

pub writes-Carries :
    (c : List ℕ) (cb : ℕ) (s : IpcStream)
    → IsReady s.world
    → s.pending ≡ none
    → Carries c [] [] (cb ∷ []) s (send_chunk c cb s)
writes-Carries c cb s r e =
    let k = send_chunk-Sends c cb s r e in
    record {
      ready = k.ready;
      grows = k.grows;
      out_bytes = λ h. ap (λ l. l ++ c) (nothing_waits s e) ∙ k.bytes h;
      in_bytes =
          append-nil (inbound s) ∙ same_inbound s (send_chunk c cb s) k.same_pushed k.same_in;
      due = ap (λ l. l ++ cb ∷ []) (nothing_due s e) ∙ k.due;
    }

pub Carries-same : (s : IpcStream) → IsReady s.world → Carries [] [] [] [] s s
Carries-same s r = record {
  ready = r;
  grows = λ h. h;
  out_bytes = λ h. append-nil (outbound s);
  in_bytes = append-nil (inbound s);
  due = append-nil (callbacks s);
}

pub Carries-Carries :
    {g x r a g' x' r' a' : List ℕ} (s t u : IpcStream)
    → Carries g x r a s t
    → Carries g' x' r' a' t u
    → Carries (g ++ g') (x ++ x') (r ++ r') (a ++ a') s u
Carries-Carries {g} {x} {r} {a} {g'} {x'} {r'} {a'} s t u k l = record {
  ready = l.ready;
  grows = λ h. k.grows (l.grows h);
  out_bytes = λ h.
      join_carried (outbound s) g r (outbound t) g' r' (outbound u) (k.out_bytes (l.grows h))
        (l.out_bytes h);
  in_bytes = join_added (inbound s) x (inbound t) x' (inbound u) k.in_bytes l.in_bytes;
  due = join_added (callbacks s) a (callbacks t) a' (callbacks u) k.due l.due;
}

retry_of-Carries :
    (p : Option (List ℕ × ℕ)) (s : IpcStream)
    → s.pending ≡ p
    → IsReady s.world
    → Carries [] [] [] [] s (retry_of p s)
retry_of-Carries none s e r = Carries-same s r
retry_of-Carries (some (c, cb)) s e r =
    let t = record s { pending = none } in
    let k = send_chunk-Sends c cb t r refl in
    record {
      ready = k.ready;
      grows = k.grows;
      out_bytes = λ h.
          append-nil (outbound s)
          ∙ ap (λ p. payloads (view s.world.queue).to_thread ++ waiting p) e
          ∙ k.bytes h;
      in_bytes =
          append-nil (inbound s) ∙ same_inbound t (send_chunk c cb t) k.same_pushed k.same_in;
      due = append-nil (callbacks s) ∙ ap (λ p. calls_made s.answered ++ still_due p) e ∙ k.due;
    }

pub retry-Carries : (s : IpcStream) → IsReady s.world → Carries [] [] [] [] s (retry s)
unfolding retry
retry-Carries s r = retry_of-Carries s.pending s refl r

-- A callback that is called with nothing waiting.
pub answers-Carries :
    (cb : ℕ) (s : IpcStream)
    → IsReady s.world
    → s.pending ≡ none
    → Carries [] [] [] (cb ∷ []) s (record s { answered = completed cb ∷ s.answered })
unfolding calls_made all_written
answers-Carries cb s r e = record {
  ready = r;
  grows = λ h. h;
  out_bytes = λ h. append-nil (outbound s);
  in_bytes = append-nil (inbound s);
  due =
      ap (λ l. l ++ cb ∷ []) (nothing_due s e)
      ∙ sym (nothing_due (record s { answered = completed cb ∷ s.answered }) e);
}

pub Drains-Carries : (s s' : IpcStream) → Drains s s' → Carries [] [] [] [] s s'
Drains-Carries s s' d = record {
  ready = d.leaves.ready;
  grows = λ h. ap all_written (sym d.same_answered) ∙ h;
  out_bytes = λ h.
      append-nil (outbound s)
      ∙ ap (λ l. payloads l ++ waiting s.pending) (sym d.leaves.same_out)
      ∙ ap (λ p. payloads (view s'.world.queue).to_thread ++ waiting p) (sym d.same_pending);
  in_bytes = append-nil (inbound s) ∙ d.order;
  due =
      append-nil (callbacks s)
      ∙ ap (λ l. calls_made l ++ still_due s.pending) (sym d.same_answered)
      ∙ ap (λ p. calls_made s'.answered ++ still_due p) (sym d.same_pending);
}
