-- ===== src/Ipc/Journey/Reading.antt =====
-- What the host's calls on an ipc of src/ipc.c do to the stream of bytes that it reads.
use bare_kit.Prelude.{
  ℕ, ◌≡◌, refl, ap, ◌∙◌, ℤ, List, [], ◌++◌, append-nil, true, false, arith, min, cap_int, Option,
  none, some,
}
use bare_kit.Ring.{Block}
use bare_kit.Ring.Refine.{contents}
use bare_kit.Queue.State.{World, Queue, ended}
use bare_kit.Queue.Ops
use bare_kit.Queue.Channel.{Channel, move_to, send, is_unowned}
use bare_kit.Queue.Calls.{Call, step, answer, Model, release}
use bare_kit.Queue.Inv.{IsSound}
use bare_kit.Queue.Refine.{view}
use bare_kit.Queue.Correct.{model, step-Refines}
use bare_kit.Ipc.State.{Act, Host, Ipc, act, sub_size}
use bare_kit.Ipc.Ops.{read, refill, serve, serve_if, consume, resignal, write, end}
use bare_kit.Ipc.Stream.{
  IsGood, stream, left_over, Reads, some_bytes, at_end, would_block, resignal-Untouched,
}
use bare_kit.Ipc.Read.{read-ReadsWell, read-queue}
use bare_kit.Ipc.Keep.{Use, has_room}
use bare_kit.Ipc.Journey.{Leg, read_outcome, is_held, IsOpen}

-- The port and the state of the host's end are as they were.
record Keeps (h h' : Host) : Type 0 where
  port : h'.ipc.port ≡ h.ipc.port
  thread : h'.world.queue.thread_state ≡ h.world.queue.thread_state

resignal-Keeps : (h : Host) → Keeps h (resignal h)
resignal-Keeps h =
    let u = resignal-Untouched h in
    record {
      port = ap (λ (i : Ipc). i.port) u.same_ipc;
      thread = ap (λ (q : Queue). q.thread_state) u.same_queue;
    }

read_queue-Keeps : (w : World) → (Ops.read false w).2.queue.thread_state ≡ w.queue.thread_state
read_queue-Keeps w = ap (λ (q : Queue). q.thread_state) (read-queue w)

refill-Keeps : (h : Host) → Keeps h (refill h).1
unfolding refill
refill-Keeps h = record { port = ground arith; thread = ground (arith, read_queue-Keeps h.world) }

consume-Keeps : (b : Block) (n : ℕ) (h : Host) → Keeps h (consume b n h)
unfolding consume
consume-Keeps b n h = record { port = ground arith; thread = ground arith }

serve_if-Keeps : (o : Option Block) (n : ℤ) (len : ℕ) (h : Host) → Keeps h (serve_if o n len h).2
unfolding serve
serve_if-Keeps none n len h = record { port = refl; thread = refl }
serve_if-Keeps (some b) n len h =
    let k = min len (sub_size h.ipc.pending.len h.ipc.offset) in
    let c = consume-Keeps b k h in
    let r = resignal-Keeps (consume b k h) in
    record { port = r.port ∙ c.port; thread = r.thread ∙ c.thread }

read-Keeps : (len : ℕ) (h : Host) → Keeps h (read len h).2
unfolding read
read-Keeps len h =
    let f = refill-Keeps (act Act.lock h) in
    let k = (refill (act Act.lock h)) in
    let s = serve_if-Keeps k.1.ipc.pending.base k.0 (cap_int len) k.1 in
    record { port = s.port ∙ f.port; thread = s.thread ∙ f.thread }

-- One turn: the bytes for the host, those that are sent among them, are those that it reads and
-- those still to come.
pub record Carries (h : Host) (o : Leg) : Type 0 where
  pub bytes : stream h ++ o.sends ≡ o.reads ++ stream o.after
  pub still : IsOpen o.after

Reads-bytes :
    (len : ℕ) (h : Host) (r : ℤ × List ℕ × Host) → Reads len h r → stream h ≡ r.1 ++ stream r.2
Reads-bytes len h r (some_bytes n e p l m s) = s
Reads-bytes len h r (at_end e n s s' o) = rw (n, s, s') refl
Reads-bytes len h r (would_block e n s s' o) = rw (n, s, s') refl

pub read-Carries :
    (len : ℕ) (h : Host)
    → has_room (Use.reads len) ≡ true
    → IsOpen h
    → Carries h (read_outcome (read len h))
read-Carries len h f o =
    let r = read-ReadsWell len h (ground arith) o.good in
    let k = read-Keeps len h in
    record {
      bytes = append-nil (stream h) ∙ Reads-bytes len h (read len h) r.case;
      still = record {
        good = r.good;
        has_port = k.port ∙ o.has_port;
        holds = ap is_held k.thread ∙ o.holds;
      };
    }

-- A call of the host that leaves what it has still to read.
pub record Spares (h h' : Host) : Type 0 where
  port : h'.ipc.port ≡ h.ipc.port
  pending : left_over h'.ipc.pending.base h'.ipc.offset ≡ left_over h.ipc.pending.base h.ipc.offset
  messages : contents h'.world.queue.to_thread ≡ contents h.world.queue.to_thread
  held : is_held h'.world.queue.thread_state ≡ true

pub Spares-Carries :
    (h h' : Host)
    → IsGood h'
    → IsOpen h
    → Spares h h'
    → Carries h (record { sends = []; reads = []; after = h' })
unfolding stream
Spares-Carries h h' g o s = record {
  bytes = append-nil (stream h) ∙ rw (s.port, s.pending, s.messages, o.has_port) refl;
  still = record { good = g; has_port = s.port ∙ o.has_port; holds = s.held };
}

writes-channel :
    (source : List ℕ) (len : ℕ) (m : Model)
    → let c = (answer (Call.writes false source len) m).1.0 in
      (c.to_thread ≡ m.0.to_thread) × (c.thread_state ≡ m.0.thread_state)
unfolding answer send
writes-channel source len (c, n) = (ground arith, ground arith)

ends-channel :
    (c : Channel)
    → is_held c.thread_state ≡ true
    → let c' = release (move_to false ended c) in
      (c'.to_thread ≡ c.to_thread) × (is_held c'.thread_state ≡ true)
unfolding move_to is_unowned
ends-channel c h = (ground arith, ground arith)

pub moves :
    (c : Call) (w : World) → IsSound w.queue → view (step c w).1.queue ≡ (answer c (model w)).1.0
moves c w v = ap (λ (m : Model). m.0) (step-Refines c w v).moves

pub writes-Spares :
    (source : List ℕ) (len : ℕ) (h : Host) → IsOpen h → Spares h (write source len h).1
unfolding write step view
writes-Spares source len h o =
    let m = moves (Call.writes false source len) h.world o.good.sound in
    let c = writes-channel source len (model h.world) in
    rw o.has_port (record {
      port = refl;
      pending = refl;
      messages = ap (λ (x : Channel). x.to_thread) m ∙ c.0;
      held = ap (λ (x : Channel). is_held x.thread_state) m ∙ ap is_held c.1 ∙ o.holds;
    })

pub ends-Spares : (h : Host) → IsOpen h → Spares h (end h)
unfolding end step view answer
ends-Spares h o =
    let m = moves (Call.ends false) h.world o.good.sound in
    let c = ends-channel (view h.world.queue) o.holds in
    rw o.has_port (record {
      port = refl;
      pending = refl;
      messages = ap (λ (x : Channel). x.to_thread) m ∙ c.0;
      held = ap (λ (x : Channel). is_held x.thread_state) m ∙ c.1;
    })
