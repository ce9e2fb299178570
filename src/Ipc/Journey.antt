-- ===== src/Ipc/Journey.antt =====
-- The bytes that a worklet sends and those that its host reads through an ipc of src/ipc.c, over any
-- history of calls of the two.
pub mod Reading
pub mod Sending
pub mod Order
use bare_kit.Prelude.{
  ℕ, ◌≡◌, refl, ap, sym, ◌∙◌, subst, ℤ, List, [], ◌∷◌, ◌++◌, append_assoc, append-nil, Bool, true,
  false, arith, min, cap_int, zero, suc, ◌≤◌, length, Option, none, some, if◌then◌else◌, not, ◌==◌,
  ◌&&◌,
}
use bare_kit.Ring.{Block, Message}
use bare_kit.Ring.Refine.{contents}
use bare_kit.Queue.State.{PortState, World, Queue, ended, closed, rank, is_closed, is_ended}
use bare_kit.Queue.Ops
use bare_kit.Queue.Channel.{Channel, move_to, send, receive, receive_from, outgoing, is_unowned}
use bare_kit.Queue.Calls.{Call, Reply, step, answer, Model, release, message_at}
use bare_kit.Queue.Inv.{IsSound, signal_peer-Keeps}
use bare_kit.Queue.Refine.{view}
use bare_kit.Queue.Correct.{model, step-Refines}
use bare_kit.Queue.Payload.{AllFull, AllFull-append, payloads}
use bare_kit.Queue.Whole.{IsSourced, message_at-IsFull}
use bare_kit.Queue.Delivery.{sent, delivered, step-Delivers}
use bare_kit.Ipc.State.{Act, Host, Ipc, act, sub_size}
use bare_kit.Ipc.Ops.{read, refill, serve, serve_if, consume, resignal, write, end}
use bare_kit.Ipc.Stream.{
  IsGood, stream, left_over, Reads, some_bytes, at_end, would_block, resignal-Untouched,
}
use bare_kit.Ipc.Read.{read-ReadsWell, read-queue}
use bare_kit.Ipc.Keep.{Use, use_one, has_room, use_one-IsGood}

pub data Turn : Type 0 where
  host : Use → Turn
  worklet : Call → Turn

-- The calls that a worklet makes on its queue.
abbrev pub of_worklet : Call → Bool
of_worklet (Call.writes b source len) = b
of_worklet (Call.reads b) = b
of_worklet (Call.ends b) = b
of_worklet (Call.closes b) = b
of_worklet (Call.asks_readable b) = b
of_worklet (Call.asks_writable b) = b
of_worklet (Call.opens_thread f user) = false
of_worklet _ = true

-- What a turn sends to the host, and what it reads there, with the ipc behind it.
pub record Leg : Type 0 where
  pub sends : List ℕ
  pub reads : List ℕ
  pub after : Host

abbrev pub read_outcome : ℤ × List ℕ × Host → Leg
read_outcome (n, bytes, h) = record { sends = []; reads = bytes; after = h }

abbrev pub step_outcome : Call → Host → Reply × World → Leg
step_outcome c h (r, w) = record {
  sends = sent c true r;
  reads = [];
  after = record h { world = w };
}

unfoldable pub take_turn : Turn → Host → Leg
take_turn (host (Use.reads len)) h = read_outcome (read len h)
take_turn (host u) h = record { sends = []; reads = []; after = use_one u h }
take_turn (worklet c) h = step_outcome c h (step c h.world)

unfoldable pub journey : List Turn → Host → Leg
journey [] h = record { sends = []; reads = []; after = h }
journey (t ∷ ts) h =
    let first = take_turn t h in
    let rest = journey ts first.after in
    record {
      sends = first.sends ++ rest.sends;
      reads = first.reads ++ rest.reads;
      after = rest.after;
    }

-- A read has room for a byte, a write of the worklet has the bytes it says, and the host does not
-- close.
abbrev pub IsFit : Turn → Type 0
IsFit (host (Use.reads len)) = has_room (Use.reads len) ≡ true
IsFit (host Use.closes) = ⊥
IsFit (host u) = Unit {0}
IsFit (worklet c) = (of_worklet c ≡ true) × IsSourced c

abbrev pub AllFit : List Turn → Type 0
AllFit [] = Unit {0}
AllFit (t ∷ ts) = IsFit t × AllFit ts

-- The host's end has been opened, and not closed.
abbrev pub is_held : PortState → Bool
is_held s = not (rank s == 0) && not (is_closed s)

pub record IsOpen (h : Host) : Type 0 where
  pub good : IsGood h
  pub has_port : h.ipc.port ≡ true
  pub holds : is_held h.world.queue.thread_state ≡ true
