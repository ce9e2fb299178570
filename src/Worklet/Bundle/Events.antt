-- ===== src/Worklet/Bundle/Events.antt =====
-- What happens to the stream of src/worklet.js: its callbacks, which the streams library and the queue
-- call, and between them the calls that the host and the loop of the worklet make on the queue.
pub mod Carry
pub mod Duplex
use bare_kit.Prelude.{ℕ, ◌≡◌, List, [], ◌∷◌, ◌++◌, Bool, true, false, Option, none, some}
use bare_kit.Queue.Calls.{Call, Reply, step}
use bare_kit.Queue.State.{World}
use bare_kit.Queue.Delivery.{sent, delivered}
use bare_kit.Queue.Whole.{IsSourced}
use bare_kit.Worklet.Bundle.{Push, IpcStream, send_chunk, on_read, on_signal, on_final, ref, unref}

-- `_write` of a chunk and `_final`, with their callbacks, `_read`, `_onsignal`, the two at a resume and
-- a suspend, and a call of another on the queue.
pub data Event : Type 0 where
  writes : List ℕ → ℕ → Event
  finals : ℕ → Event
  reads signals refs unrefs : Event
  others : Call → Event

unfoldable pub take_event : (List Push → Bool) → Event → IpcStream → Option IpcStream
take_event wants_more (writes c cb) s = some (send_chunk c cb s)
take_event wants_more reads s = on_read wants_more s
take_event wants_more signals s = on_signal wants_more s
take_event wants_more (finals cb) s = some (on_final cb s)
take_event wants_more refs s = some (ref s)
take_event wants_more unrefs s = some (unref s)
take_event wants_more (others c) s = some (record s { world = (step c s.world).1 })

-- The bytes that the worklet's program writes, those that the host sends and those that it reads,
-- and the callbacks that are asked for.
abbrev pub given : Event → List ℕ
given (writes c cb) = c
given _ = []

abbrev pub host_sends : Event → IpcStream → List ℕ
host_sends (others c) s = sent c false (step c s.world).0
host_sends _ s = []

abbrev pub host_reads : Event → IpcStream → List ℕ
host_reads (others c) s = delivered c true (step c s.world).0
host_reads _ s = []

abbrev pub asked : Event → List ℕ
asked (writes c cb) = cb ∷ []
asked (finals cb) = cb ∷ []
asked _ = []

pub record Story : Type 0 where
  pub given : List ℕ
  pub sends : List ℕ
  pub reads : List ℕ
  pub asked : List ℕ
  pub after : IpcStream

abbrev pub told : Event → IpcStream → Option Story → Option Story
told e s none = none
told e s (some rest) = some (record {
  given = given e ++ rest.given;
  sends = host_sends e s ++ rest.sends;
  reads = host_reads e s ++ rest.reads;
  asked = asked e ++ rest.asked;
  after = rest.after;
})

abbrev pub and_then : Option IpcStream → (IpcStream → Option Story) → Option Story
and_then none next = none
and_then (some s) next = next s

unfoldable pub story : (List Push → Bool) → List Event → IpcStream → Option Story
story wants_more [] s = some (record { given = []; sends = []; reads = []; asked = []; after = s })
story wants_more (e ∷ es) s = told e s (and_then (take_event wants_more e s) (story wants_more es))

-- Whether a call can come from another than the stream.
abbrev pub of_another : Call → Bool
of_another Call.destroys = false
of_another (Call.writes true source len) = false
of_another (Call.reads true) = false
of_another _ = true

-- The streams library makes a write only when the one before has been answered, and calls `_final`
-- only then; and a write of the host has the bytes that it says.
abbrev pub IsApt : Event → IpcStream → Type 0
IsApt (writes c cb) s = s.pending ≡ none
IsApt (finals cb) s = s.pending ≡ none
IsApt (others c) s = (of_another c ≡ true) × IsSourced c
IsApt e s = Unit {0}

abbrev pub HoldsBehind : Option IpcStream → (IpcStream → Type 0) → Type 0
HoldsBehind none P = Unit {0}
HoldsBehind (some s) P = P s

abbrev pub AllApt : (List Push → Bool) → List Event → IpcStream → Type 0
AllApt wants_more [] s = Unit {0}
AllApt wants_more (e ∷ es) s =
    IsApt e s × HoldsBehind (take_event wants_more e s) (AllApt wants_more es)
