-- ===== src/Worklet/Bundle/Events/Duplex.antt =====
-- Both directions of the stream of src/worklet.js, over any history of events.
use bare_kit.Prelude.{
  ℕ, ◌≡◌, refl, ap, sym, ◌∙◌, subst, List, [], ◌∷◌, ◌++◌, append_assoc, append-nil, Bool, true,
  false, none, some, arith,
}
use bare_kit.Queue.Calls.{Call, Reply, step}
use bare_kit.Queue.Refine.{view}
use bare_kit.Queue.Payload.{payloads}
use bare_kit.Queue.Delivery.{sent, delivered, step-Delivers}
use bare_kit.Queue.Whole.{IsSourced, IsWhole}
use bare_kit.Queue.State.{Queue}
use bare_kit.Queue.Inv.{IsSound}
use bare_kit.Worklet.Native.{native_end, native_ref, native_unref}
use bare_kit.Worklet.Bundle.{
  Push, IpcStream, send_chunk, retry, on_read, on_signal, on_final, ref, unref,
}
use bare_kit.Worklet.Bundle.Ready.{IsReady, step-IsReady, is_destroy}
use bare_kit.Worklet.Bundle.Drain.{pushed_bytes, drain_pushes}
use bare_kit.Worklet.Bundle.Sending.{outbound, callbacks, kept-owned, waiting}
use bare_kit.Worklet.Bundle.Events.{
  Event, writes, reads, signals, finals, refs, unrefs, others, take_event, given, host_sends,
  host_reads, asked, of_another, IsApt, AllApt, Story, story, told, and_then, HoldsBehind,
}
use bare_kit.Worklet.Bundle.Events.Carry.{
  Carries, inbound, writes-Carries, retry-Carries, Carries-Carries, Carries-same, answers-Carries,
  Drains-Carries,
}

another-keeps : (c : Call) → of_another c ≡ true → is_destroy c ≡ false
another-keeps Call.wakes h = refl
another-keeps Call.destroys h = cc
another-keeps (Call.opens_uv f user) h = refl
another-keeps c h = ground arith

another-sends : (c : Call) (r : Reply) → of_another c ≡ true → sent c true r ≡ []
another-sends (Call.writes true source len) r h = cc
another-sends (Call.writes false source len) r h = refl
another-sends Call.wakes r h = refl
another-sends c r h = refl

another-reads : (c : Call) (r : Reply) → of_another c ≡ true → delivered c false r ≡ []
another-reads (Call.reads true) r h = cc
another-reads (Call.reads false) r h = refl
another-reads Call.wakes r h = refl
another-reads c r h = refl

outbound_step :
    (p sent_bytes read p' left : List ℕ)
    → sent_bytes ≡ []
    → p ++ sent_bytes ≡ read ++ p'
    → (p ++ left) ++ [] ≡ read ++ (p' ++ left)
outbound_step p sent_bytes read p' left e d =
    append-nil (p ++ left)
    ∙ ap (λ l. l ++ left) (sym (ap (λ l. p ++ l) e ∙ append-nil p) ∙ d)
    ∙ append_assoc read p' left

step-Carries :
    (c : Call) (s : IpcStream)
    → of_another c ≡ true
    → IsSourced c
    → IsReady s.world
    → let (r, w) = step c s.world in
      Carries [] (sent c false r) (delivered c true r) [] s (record s { world = w })
step-Carries c s o f r =
    let w = (step c s.world).1 in
    let r' = step-IsReady c s.world (another-keeps c o) f r in
    let kept = kept-owned (view w.queue) r'.kept in
    let reply = (step c s.world).0 in
    record {
      ready = r';
      grows = λ h. h;
      out_bytes = λ h.
          outbound_step (payloads (view s.world.queue).to_thread) (sent c true reply)
            (delivered c true reply) (payloads (view w.queue).to_thread) (waiting s.pending)
            (another-sends c reply o) (step-Delivers true c s.world r.sound kept);
      in_bytes =
          append_assoc (pushed_bytes s.pushed) (payloads (view s.world.queue).to_uv)
            (sent c false reply)
          ∙ ap (λ l. pushed_bytes s.pushed ++ l)
              (step-Delivers false c s.world r.sound kept
                ∙ ap (λ l. l ++ payloads (view w.queue).to_uv) (another-reads c reply o));
      due = append-nil (callbacks s);
    }

-- What one event gives.
abbrev Leads : (List Push → Bool) → Event → IpcStream → Type 0
Leads wants_more e s =
    (s' : IpcStream) × (take_event wants_more e s ≡ some s')
    × Carries (given e) (host_sends e s) (host_reads e s) (asked e) s s'

-- An event that changes nothing of the queue, nor of what is pushed, waits or is answered.
Carries-alike :
    (s s' : IpcStream)
    → s'.world.queue ≡ s.world.queue
    → s'.pushed ≡ s.pushed
    → s'.pending ≡ s.pending
    → s'.answered ≡ s.answered
    → IsReady s.world
    → Carries [] [] [] [] s s'
Carries-alike s s' w p q a r = record {
  ready = record {
    sound = subst IsSound (sym w) r.sound;
    whole = subst (λ q. IsWhole (view q)) (sym w) r.whole;
    kept = ap (λ (q : Queue). (view q).destroyed) w ∙ r.kept;
  };
  grows = λ h. rw⁻¹ a h;
  out_bytes = λ h. rw (w, q) (append-nil (outbound s));
  in_bytes = rw (w, p) (append-nil (inbound s));
  due = rw (a, q) (append-nil (callbacks s));
}

reads-Leads :
    (wants_more : List Push → Bool) (s : IpcStream) → IsReady s.world → Leads wants_more reads s
unfolding take_event on_read
reads-Leads wants_more s r =
    let t = record s { reading = true } in
    let (s', e, d) = drain_pushes wants_more t r in
    (
      s',
      e,
      Carries-Carries s t s' (Carries-alike s t refl refl refl refl r) (Drains-Carries t s' d),
    )

signals-Leads :
    (wants_more : List Push → Bool) (s : IpcStream) → IsReady s.world → Leads wants_more signals s
unfolding take_event on_signal
signals-Leads wants_more s r =
    let k = retry-Carries s r in
    let (s', e, d) = drain_pushes wants_more (retry s) k.ready in
    (s', e, Carries-Carries s (retry s) s' k (Drains-Carries (retry s) s' d))

finals-Leads :
    (wants_more : List Push → Bool) (cb : ℕ) (s : IpcStream)
    → IsReady s.world
    → s.pending ≡ none
    → Leads wants_more (finals cb) s
unfolding take_event on_final native_end step
finals-Leads wants_more cb s r e =
    let t = record s { world = native_end s.world } in
    (
      on_final cb s,
      refl,
      Carries-Carries s t (on_final cb s) (step-Carries (Call.ends true) s refl tt r)
          (answers-Carries cb t (step-IsReady (Call.ends true) s.world refl tt r) e),
    )

refs-Leads :
    (wants_more : List Push → Bool) (s : IpcStream) → IsReady s.world → Leads wants_more refs s
unfolding take_event ref native_ref
refs-Leads wants_more s r = (
  ref s,
  refl,
  Carries-alike s (ref s) (ground arith) (ground arith) (ground arith) (ground arith) r,
)

event-Leads :
    (wants_more : List Push → Bool) (e : Event) (s : IpcStream)
    → IsReady s.world
    → IsApt e s
    → Leads wants_more e s
unfolding take_event unref native_unref
event-Leads wants_more (writes c cb) s r a = (send_chunk c cb s, refl, writes-Carries c cb s r a)
event-Leads wants_more reads s r a = reads-Leads wants_more s r
event-Leads wants_more signals s r a = signals-Leads wants_more s r
event-Leads wants_more (finals cb) s r a = finals-Leads wants_more cb s r a
event-Leads wants_more refs s r a = refs-Leads wants_more s r
event-Leads wants_more unrefs s r a =
    (unref s, refl, Carries-alike s (unref s) refl refl refl refl r)
event-Leads wants_more (others c) s r a =
    (record s { world = (step c s.world).1 }, refl, step-Carries c s a.0 a.1 r)

-- Over any history of events at the stream Bare.IPC, in which the streams library writes and
-- finishes only when nothing waits, and the others' calls on the queue neither destroy it nor read
-- or write at the worklet's end, and write no more bytes than they have, at a queue with valid
-- rings and whole messages that is not destroyed: the history comes to an end, and leaves such a
-- queue; if no write has been answered with an error, the bytes on their way to the host, waiting
-- or written by the program are those that the host reads and those on their way or waiting at the
-- end, in the same order; the bytes pushed or on their way from the host and those that it sends
-- are those pushed or on their way at the end, in the same order; and the callbacks called, that of
-- the write that waits and those asked for are those called and waiting at the end, each once and
-- in the same order.
pub story-Carries :
    (wants_more : List Push → Bool) (es : List Event) (s : IpcStream)
    → IsReady s.world
    → AllApt wants_more es s
    → (t : Story) × (story wants_more es s ≡ some t)
      × Carries t.given t.sends t.reads t.asked s t.after
unfolding story
story-Carries wants_more [] s r a =
    (record { given = []; sends = []; reads = []; asked = []; after = s }, refl, Carries-same s r)
story-Carries wants_more (e ∷ es) s r a =
    let (s', f, k) = event-Leads wants_more e s r a.0 in
    let (t, g, l) =
      story-Carries wants_more es s' k.ready
        (subst (λ o. HoldsBehind o (AllApt wants_more es)) f a.1) in
    (
      record {
        given = given e ++ t.given;
        sends = host_sends e s ++ t.sends;
        reads = host_reads e s ++ t.reads;
        asked = asked e ++ t.asked;
        after = t.after;
      },
      ap (λ o. told e s (and_then o (story wants_more es))) f ∙ ap (told e s) g,
      Carries-Carries s s' t.after k l,
    )
