-- ===== src/Worklet/Bundle.antt =====
-- The stream `Bare.IPC` of src/worklet.js, on the functions of `Worklet/Native.antt`: a pending write
-- that is retried when the queue signals, and a loop that pushes what there is to read. The streams
-- library is outside: whether a push wants more is a parameter.
pub mod Ready
pub mod Reading
pub mod Drain
pub mod Sending
pub mod Events
pub mod Settled
mod Tests
use bare_kit.Prelude.{
  ℕ, zero, suc, ℤ, pos, negsuc, List, [], ◌∷◌, Bool, true, false, not, Option, none, some,
  if◌then◌else◌, ltb, length, take, drop,
}
use bare_kit.Ring.{Message}
use bare_kit.Queue.State.{World}
use bare_kit.Queue.Payload.{payload}
use bare_kit.Worklet.Native.{
  JsRead, undefined, null, buffer, JsWritten, null_written, number, native_read, native_write,
  native_end, native_ref, native_unref,
}

-- What is handed to the reader of the stream: a chunk, or `null` at its end.
pub data Push : Type 0 where
  chunk : List ℕ → Push
  finish : Push

-- A call of a callback, with `null` or with the error that the stream is closed.
pub data Answer : Type 0 where
  completed closed_error : ℕ → Answer

-- `_reading`, `_pendingWrite` with its callback, and whether the handle of the queue keeps the
-- loop of the worklet open; the queue; and what has been pushed and answered, newest first.
pub record IpcStream : Type 0 where
  pub reading : Bool
  pub pending : Option (List ℕ × ℕ)
  pub destroying : Bool
  pub holds_loop : Bool
  pub world : World
  pub pushed : List Push
  pub answered : List Answer

abbrev pub push : Push → IpcStream → IpcStream
push p s = record s { pushed = p ∷ s.pushed }

-- What `_drain` does with the answer to a read; `loop` is the rest of the loop.
abbrev pub drain_turn :
    (List Push → Bool) → (IpcStream → Option IpcStream) → JsRead → IpcStream → Option IpcStream
drain_turn wants_more loop undefined s = some s
drain_turn wants_more loop null s = some (push finish (record s { reading = false }))
drain_turn wants_more loop (buffer m) s =
    let s' = push (chunk (payload m.base)) s in
    let rest = loop s' in
    if wants_more s'.pushed then rest else some (record s' { reading = false })

-- The loop of `_drain`, which ends without a result when the fuel does.
unfoldable pub drain_loop : (List Push → Bool) → ℕ → IpcStream → Option IpcStream
drain_loop wants_more zero s = none
drain_loop wants_more (suc n) s =
    let (r, w) = native_read s.world in
    drain_turn wants_more (drain_loop wants_more n) r (record s { world = w })

-- More than a queue can hold for the worklet.
abbrev pub drain_fuel : ℕ
drain_fuel = 1024

unfoldable pub drain : (List Push → Bool) → IpcStream → Option IpcStream
drain wants_more s =
    let rest = drain_loop wants_more drain_fuel s in if s.reading then rest else some s

-- `_read`
unfoldable pub on_read : (List Push → Bool) → IpcStream → Option IpcStream
on_read wants_more s = drain wants_more (record s { reading = true })

abbrev pub sent_by : JsWritten → List ℕ → ℕ → IpcStream → IpcStream
sent_by null_written c cb s = record s { answered = closed_error cb ∷ s.answered }
sent_by (number (negsuc n)) c cb s = record s { pending = some (c, cb) }
sent_by (number (pos n)) c cb s =
    if ltb n (length c)
    then record s { pending = some (drop n c, cb) }
    else record s { answered = completed cb ∷ s.answered }

-- `_send`, and `_write` of a chunk that is bytes already.
unfoldable pub send_chunk : List ℕ → ℕ → IpcStream → IpcStream
send_chunk c cb s =
    let (n, w) = native_write c (length c) s.world in sent_by n c cb (record s { world = w })

abbrev pub retry_of : Option (List ℕ × ℕ) → IpcStream → IpcStream
retry_of none s = s
retry_of (some (c, cb)) s = send_chunk c cb (record s { pending = none })

unfoldable pub retry : IpcStream → IpcStream
retry s = retry_of s.pending s

-- `_final` with its callback.
unfoldable pub on_final : ℕ → IpcStream → IpcStream
on_final cb s = record s { world = native_end s.world; answered = completed cb ∷ s.answered }

-- `_onsignal`
unfoldable pub on_signal : (List Push → Bool) → IpcStream → Option IpcStream
on_signal wants_more s = drain wants_more (retry s)

-- The methods `ref` and `unref`; the streams library sets `destroying`.
unfoldable pub ref : IpcStream → IpcStream
ref s = if not s.destroying then record s { holds_loop = true; world = native_ref s.world } else s

unfoldable pub unref : IpcStream → IpcStream
unref s = record s { holds_loop = false; world = native_unref s.world }

-- `_destroy` with its callback.
unfoldable pub on_destroy : ℕ → IpcStream → IpcStream
unfolding unref
on_destroy cb s = let t = unref s in record t { answered = completed cb ∷ t.answered }
