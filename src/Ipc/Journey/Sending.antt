-- ===== src/Ipc/Journey/Sending.antt =====
-- What a worklet's calls on its queue do to the stream of bytes that the host reads.
use bare_kit.Prelude.{
  ℕ, ◌≡◌, refl, ap, sym, ◌∙◌, subst, List, [], ◌∷◌, ◌++◌, append_assoc, Bool, true, false, arith,
  zero, suc, ◌≤◌, length,
}
use bare_kit.Ring.{Message}
use bare_kit.Ring.Refine.{contents}
use bare_kit.Queue.State.{PortState, World, Queue, ended, closed, is_ended}
use bare_kit.Queue.Channel.{Channel, move_to, send, receive, receive_from, is_unowned}
use bare_kit.Queue.Calls.{Call, Reply, step, answer, release}
use bare_kit.Queue.Inv.{IsSound}
use bare_kit.Queue.Refine.{view}
use bare_kit.Queue.Correct.{step-Refines}
use bare_kit.Queue.Payload.{AllFull, AllFull-append, payloads}
use bare_kit.Queue.Whole.{IsSourced, message_at-IsFull}
use bare_kit.Queue.Delivery.{sent, delivered, step-Delivers}
use bare_kit.Ipc.State.{Host}
use bare_kit.Ipc.Stream.{stream, left_over}
use bare_kit.Ipc.Journey.{worklet, of_worklet, step_outcome, IsFit, is_held, IsOpen}
use bare_kit.Ipc.Journey.Reading.{Carries, moves}

-- What a call of the worklet leaves to the host.
record Reaches (c d : Channel) : Type 0 where
  thread : d.thread_state ≡ c.thread_state
  full : AllFull c.to_thread → AllFull d.to_thread

release-Reaches : (c d : Channel) → Reaches c d → Reaches c (release d)
release-Reaches c d r = record {
  thread = ground (arith, r.thread);
  full = λ f. ground (arith, r.full f);
}

move_to-Reaches : (s : PortState) (c : Channel) → Reaches c (move_to true s c)
unfolding move_to
move_to-Reaches s c = record { thread = ground arith; full = λ f. ground (arith, f) }

sends-Reaches :
    (source : List ℕ) (len : ℕ) (c : Channel) (n : ℕ)
    → len ≤ length source
    → Reaches c (answer (Call.writes true source len) (c, n)).1.0
unfolding answer send
sends-Reaches source zero c n e = record { thread = ground arith; full = λ f. ground (arith, f) }
sends-Reaches source (suc k) c n e =
    let m = message_at-IsFull n source (suc k) (omega arith) e in
    record { thread = ground arith; full = λ f. ground (arith, f, AllFull-append c.to_thread f m) }

receives-Reaches :
    (l : List Message) (over : Bool) (c : Channel) → Reaches c (receive_from l over true c).1
receives-Reaches [] true c = record { thread = refl; full = λ f. f }
receives-Reaches [] false c = record { thread = refl; full = λ f. f }
receives-Reaches (m ∷ l) over c = record { thread = refl; full = λ f. f }

answer-Reaches :
    (k : Call) (c : Channel) (n : ℕ)
    → of_worklet k ≡ true
    → IsSourced k
    → Reaches c (answer k (c, n)).1.0
unfolding answer receive
answer-Reaches Call.wakes c n o e = record { thread = refl; full = λ f. f }
answer-Reaches Call.shuts_down c n o e = record { thread = refl; full = λ f. f }
answer-Reaches Call.destroys c n o e =
    release-Reaches c (record c { destroyed = true }) (record { thread = refl; full = λ f. f })
answer-Reaches (Call.opens_uv f user) c n o e = record { thread = refl; full = λ f. f }
answer-Reaches (Call.opens_thread f user) c n o e = cc
answer-Reaches (Call.writes true source len) c n o e = sends-Reaches source len c n e
answer-Reaches (Call.writes false source len) c n o e = cc
answer-Reaches (Call.reads true) c n o e = receives-Reaches c.to_uv (is_ended c.thread_state) c
answer-Reaches (Call.reads false) c n o e = cc
answer-Reaches (Call.ends true) c n o e =
    release-Reaches c (move_to true ended c) (move_to-Reaches ended c)
answer-Reaches (Call.ends false) c n o e = cc
answer-Reaches (Call.closes true) c n o e =
    release-Reaches c (move_to true closed c) (move_to-Reaches closed c)
answer-Reaches (Call.closes false) c n o e = cc
answer-Reaches (Call.asks_readable b) c n o e = record { thread = refl; full = λ f. f }
answer-Reaches (Call.asks_writable b) c n o e = record { thread = refl; full = λ f. f }

-- The worklet reads nothing that is on its way to the host.
delivers_none : (c : Call) (r : Reply) → of_worklet c ≡ true → delivered c true r ≡ []
delivers_none Call.wakes r o = refl
delivers_none Call.shuts_down r o = refl
delivers_none Call.destroys r o = refl
delivers_none (Call.opens_uv f user) r o = refl
delivers_none (Call.opens_thread f user) r o = refl
delivers_none (Call.writes b source len) r o = refl
delivers_none (Call.reads true) r o = refl
delivers_none (Call.reads false) r o = cc
delivers_none (Call.ends b) r o = refl
delivers_none (Call.closes b) r o = refl
delivers_none (Call.asks_readable b) r o = refl
delivers_none (Call.asks_writable b) r o = refl

held-owned : (c : Channel) → is_held c.thread_state ≡ true → is_unowned c ≡ false
unfolding is_unowned
held-owned c h = ground arith

stream_open :
    (h : Host)
    → h.ipc.port ≡ true
    → stream h
      ≡ left_over h.ipc.pending.base h.ipc.offset ++ payloads (view h.world.queue).to_thread
unfolding stream view
stream_open h e = rw e refl

view-thread : (q : Queue) → (view q).thread_state ≡ q.thread_state
unfolding view
view-thread q = refl

view-messages : (q : Queue) → (view q).to_thread ≡ contents q.to_thread
unfolding view
view-messages q = refl

-- What a call of the worklet does at the host's end of the queue.
record Serves (c : Call) (w : World) : Type 0 where
  sound : IsSound (step c w).1.queue
  full : AllFull (contents (step c w).1.queue.to_thread)
  holds : is_held (step c w).1.queue.thread_state ≡ true
  bytes :
      payloads (view w.queue).to_thread ++ sent c true (step c w).0
      ≡ payloads (view (step c w).1.queue).to_thread

step-Serves : (c : Call) (h : Host) → IsFit (worklet c) → IsOpen h → Serves c h.world
step-Serves c h (f, e) o =
    let w = h.world in
    let w' = (step c w).1 in
    let m = moves c w o.good.sound in
    let r = answer-Reaches c (view w.queue) w.next f e in
    let thread : (view w'.queue).thread_state ≡ w.queue.thread_state =
      ap (λ (x : Channel). x.thread_state) m ∙ r.thread ∙ view-thread w.queue in
    let held : is_held (view w'.queue).thread_state ≡ true = ap is_held thread ∙ o.holds in
    let d = step-Delivers true c w o.good.sound (held-owned (view w'.queue) held) in
    record {
      sound = (step-Refines c w o.good.sound).sound;
      full =
          subst AllFull (sym (ap (λ (x : Channel). x.to_thread) m) ∙ view-messages w'.queue)
            (r.full (subst AllFull (sym (view-messages w.queue)) o.good.full));
      holds = ap is_held (sym (view-thread w'.queue)) ∙ held;
      bytes =
          d ∙ ap (λ l. l ++ payloads (view w'.queue).to_thread) (delivers_none c (step c w).0 f);
    }

pub worklet-Carries :
    (c : Call) (h : Host)
    → IsFit (worklet c)
    → IsOpen h
    → Carries h (step_outcome c h (step c h.world))
worklet-Carries c h f o =
    let s = step-Serves c h f o in
    let h' = record h { world = (step c h.world).1 } in
    let left = left_over h.ipc.pending.base h.ipc.offset in
    record {
      bytes =
          ap (λ l. l ++ sent c true (step c h.world).0) (stream_open h o.has_port)
          ∙ append_assoc left (payloads (view h.world.queue).to_thread)
              (sent c true (step c h.world).0)
          ∙ ap (λ l. left ++ l) s.bytes
          ∙ sym (stream_open h' o.has_port);
      still = record {
        good = record { sound = s.sound; full = s.full; left = o.good.left };
        has_port = o.has_port;
        holds = s.holds;
      };
    }
