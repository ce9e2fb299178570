-- ===== src/Queue/Channel.antt =====
-- What the queue promises: two bounded first-in first-out lists of messages and the state of each
-- end, with no rings, no lock and no memory.
use bare_kit.Prelude.{
  List, [], ◌∷◌, ◌++◌, Bool, true, false, ◌&&◌, ◌||◌, ◌==◌, ltb, if◌then◌else◌, length,
}
use bare_kit.Ring.{Message}
use bare_kit.Ring.Fifo.{room}
use bare_kit.Queue.State.{PortState, rank, is_ended, is_closed}

pub record Channel : Type 0 where
  pub to_uv : List Message
  pub to_thread : List Message
  pub uv_state : PortState
  pub thread_state : PortState
  pub destroyed : Bool

pub data Sent : Type 0 where
  accepted blocked refused : Sent

pub data Received : Type 0 where
  message : Message → Received
  end_of_stream nothing_yet : Received

abbrev pub incoming : Bool → Channel → List Message
incoming is_uv c = if is_uv then c.to_uv else c.to_thread

abbrev pub outgoing : Bool → Channel → List Message
outgoing is_uv c = if is_uv then c.to_thread else c.to_uv

abbrev pub own : Bool → Channel → PortState
own is_uv c = if is_uv then c.uv_state else c.thread_state

abbrev pub peer : Bool → Channel → PortState
peer is_uv c = if is_uv then c.thread_state else c.uv_state

abbrev pub set_incoming : Bool → List Message → Channel → Channel
set_incoming is_uv l c = if is_uv then record c { to_uv = l } else record c { to_thread = l }

abbrev pub set_outgoing : Bool → List Message → Channel → Channel
set_outgoing is_uv l c = if is_uv then record c { to_thread = l } else record c { to_uv = l }

-- An end that has ended sends no more, and none sends to an end that has closed.
unfoldable pub send : Bool → Message → Channel → Sent × Channel
send is_uv m c =
    if is_ended (own is_uv c) || is_closed (peer is_uv c)
    then (refused, c)
    else if length (outgoing is_uv c) == room
    then (blocked, c)
    else (accepted, set_outgoing is_uv (outgoing is_uv c ++ m ∷ []) c)

abbrev pub receive_from : List Message → Bool → Bool → Channel → Received × Channel
receive_from (m ∷ rest) over is_uv c = (message m, set_incoming is_uv rest c)
receive_from [] true is_uv c = (end_of_stream, c)
receive_from [] false is_uv c = (nothing_yet, c)

-- The end of the stream comes behind the last message.
unfoldable pub receive : Bool → Channel → Received × Channel
receive is_uv c = receive_from (incoming is_uv c) (is_ended (peer is_uv c)) is_uv c

-- The state of an end only moves forward.
unfoldable pub move_to : Bool → PortState → Channel → Channel
move_to true s c = if ltb (rank c.uv_state) (rank s) then record c { uv_state = s } else c
move_to false s c = if ltb (rank c.thread_state) (rank s) then record c { thread_state = s } else c

-- Nobody holds a share: the worklet's is given back, and the host end is not open.
unfoldable pub is_unowned : Channel → Bool
is_unowned c = c.destroyed && (is_closed c.thread_state || rank c.thread_state == 0)
