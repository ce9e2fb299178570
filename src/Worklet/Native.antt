-- ===== src/Worklet/Native.antt =====
-- The functions of src/worklet.c that the worklet's JavaScript calls on its end of the queue,
-- `bare_worklet__on_ipc_read`, `bare_worklet__on_ipc_write`, `bare_worklet__on_ipc_end`,
-- `bare_worklet__on_ipc_ref` and `bare_worklet__on_ipc_unref`, with the JavaScript values that the
-- first two give back.
use bare_kit.Prelude.{
  ℕ, zero, suc, ◌<◌, ◌≡◌, refl, ap, ◌∙◌, ℤ, pos, negsuc, List, [], ◌∷◌, Bool, true, false, Option,
  none, some, arith, ◌==◌, if◌then◌else◌, min, int_max,
}
use bare_kit.Ring.{Message}
use bare_kit.Ring.Refine.{contents}
use bare_kit.Queue.State.{Event, World, emit, is_ended, queue_ok}
use bare_kit.Queue.Ops
use bare_kit.Queue.Channel.{
  Channel, Sent, accepted, blocked, refused, Received, message, end_of_stream, nothing_yet, receive,
  receive_from, send,
}
use bare_kit.Queue.Calls.{
  Call, Reply, step, answer, Model, message_at, gave, wrote, gave_code, sent_code,
}
use bare_kit.Queue.Inv.{IsSound}
use bare_kit.Queue.Refine.{view}
use bare_kit.Queue.Correct.{model, step-Refines}
use bare_kit.Queue.Payload.{IsFull, AllFull}

pub data JsRead : Type 0 where
  undefined null : JsRead
  buffer : Message → JsRead

pub data JsWritten : Type 0 where
  null_written : JsWritten
  number : ℤ → JsWritten

-- A read that would block sets neither `data` nor `len`.
abbrev pub js_read : ℤ → Option Message → JsRead
js_read status none = undefined
js_read (negsuc zero) (some m) = undefined
js_read status (some m) = if m.len == 0 then null else buffer m

unfoldable pub native_read : World → JsRead × World
native_read w = let (status, out, w') = Ops.read true w in (js_read status out, w')

abbrev pub js_written : ℤ → JsWritten
js_written (negsuc (suc zero)) = null_written
js_written n = number n

unfoldable pub native_write : List ℕ → ℕ → World → JsWritten × World
native_write source len w = let (n, w') = Ops.write true source len w in (js_written n, w')

unfoldable pub native_end : World → World
native_end w = Ops.end true w

-- `bare_worklet__on_ipc_ref` and `bare_worklet__on_ipc_unref` reach the async handle of the queue.
unfoldable pub native_ref : World → World
native_ref w = emit Event.async_ref w

unfoldable pub native_unref : World → World
native_unref w = emit Event.async_unref w

-- What JavaScript is to see of the channel's answers.
abbrev pub shown : Received → JsRead
shown (message m) = buffer m
shown end_of_stream = null
shown nothing_yet = undefined

abbrev pub shown_sent : ℕ → Sent → JsWritten
shown_sent n accepted = number (pos n)
shown_sent n blocked = number (negsuc 0)
shown_sent n refused = null_written

abbrev read_of : Reply → JsRead
read_of (gave status out) = js_read status out
read_of _ = undefined

abbrev written_of : Reply → JsWritten
written_of (wrote n) = js_written n
written_of _ = null_written

full_read : (m : Message) → IsFull m → js_read queue_ok (some m) ≡ buffer m
full_read m (b, e, l, some_len, small) = ground arith

shown_from :
    (l : List Message) (over : Bool) (c : Channel)
    → AllFull l
    → read_of (gave_code (receive_from l over true c).0) ≡ shown (receive_from l over true c).0
shown_from [] true c f = refl
shown_from [] false c f = refl
shown_from (m ∷ l) over c f = full_read m f.0

-- At valid rings, with only messages of at least one byte on their way to the worklet, a read from
-- JavaScript gives the next message of the channel, null at the end of the stream and undefined
-- when there is nothing yet, and never one for the other; the queue moves on as the channel does.
pub native_read_lem :
    (w : World)
    → IsSound w.queue
    → AllFull (contents w.queue.to_uv)
    → ((native_read w).0 ≡ shown (receive true (view w.queue)).0)
      × (view (native_read w).1.queue ≡ (receive true (view w.queue)).1)
unfolding native_read receive step answer view
native_read_lem w v f =
    let r = step-Refines (Call.reads true) w v in
    (
      ap read_of r.reply
          ∙ shown_from (contents w.queue.to_uv) (is_ended w.queue.thread_state) (view w.queue) f,
      ap (λ (m : Model). m.0) r.moves,
    )

written_lem : (n : ℕ) (s : Sent) → js_written (sent_code n s) ≡ shown_sent n s
written_lem n accepted = refl
written_lem n blocked = refl
written_lem n refused = refl

answer-writes :
    (source : List ℕ) (len : ℕ) (m : Model)
    → 0 < len
    → let s = send true (message_at m.1 source (min len int_max)) m.0 in
      (written_of (answer (Call.writes true source len) m).0 ≡ shown_sent (min len int_max) s.0)
      × ((answer (Call.writes true source len) m).1.0 ≡ s.1)
unfolding answer
answer-writes source len (c, n) h =
    let s = send true (message_at n source (min len int_max)) c in
    ground (arith, written_lem (min len int_max) s.0)

-- At valid rings, a write from JavaScript of at least one byte gives the number of bytes that the
-- channel accepts, at most the largest `int`, -1 when there is no room, and null when this end has
-- ended or the host has closed; the queue moves on as the channel does.
pub native_write_lem :
    (source : List ℕ) (len : ℕ) (w : World)
    → 0 < len
    → IsSound w.queue
    → let s = send true (message_at w.next source (min len int_max)) (view w.queue) in
      ((native_write source len w).0 ≡ shown_sent (min len int_max) s.0)
      × (view (native_write source len w).1.queue ≡ s.1)
unfolding native_write step
native_write_lem source len w h v =
    let r = step-Refines (Call.writes true source len) w v in
    let a = answer-writes source len (model w) h in
    (ap written_of r.reply ∙ a.0, ap (λ (m : Model). m.0) r.moves ∙ a.1)
