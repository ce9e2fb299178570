-- ===== src/Queue/Calls.antt =====
-- The calls that the two ends make on a queue, as the code answers them and as the channel does.
-- A history is a list of calls: each takes the lock, so calls of two threads come in some order.
use bare_kit.Prelude.{
  ℕ, ◌+◌, ℤ, pos, List, [], ◌∷◌, Bool, true, false, not, ◌||◌, Option, none, some, ◌==◌,
  if◌then◌else◌, int_max, take, length, min,
}
use bare_kit.Ring.{Message}
use bare_kit.Ring.Fifo.{room}
use bare_kit.Queue.State.{
  idle, opened, ended, closed, rank, is_ended, is_closed, queue_ok, queue_would_block, queue_closed,
  World,
}
use bare_kit.Queue.Ops.{
  on_wakeup_uv, open_uv, open_thread, write, read, end, close, readable, writable, destroy,
  shutdown_uv,
}
use bare_kit.Queue.Channel.{
  Channel, Sent, accepted, blocked, refused, Received, message, end_of_stream, nothing_yet,
  incoming, outgoing, own, peer, send, receive, move_to, is_unowned,
}

pub data Call : Type 0 where
  wakes shuts_down destroys : Call
  opens_uv : ℕ → ℕ → Call
  opens_thread : Option ℕ → ℕ → Call
  writes : Bool → List ℕ → ℕ → Call
  reads ends closes asks_readable asks_writable : Bool → Call

pub data Reply : Type 0 where
  done : Reply
  says : Bool → Reply
  wrote : ℤ → Reply
  gave : ℤ → Option Message → Reply

unfoldable pub step : Call → World → Reply × World
step Call.wakes w = (done, on_wakeup_uv w)
step Call.shuts_down w = (done, shutdown_uv w)
step Call.destroys w = (done, destroy w)
step (Call.opens_uv f user) w = (done, open_uv f user w)
step (Call.opens_thread f user) w = let (ok, w') = open_thread f user w in (says ok, w')
step (Call.writes b source len) w = let (n, w') = write b source len w in (wrote n, w')
step (Call.reads b) w = let (status, out, w') = read b w in (gave status out, w')
step (Call.ends b) w = (done, end b w)
step (Call.closes b) w = (done, close b w)
step (Call.asks_readable b) w = let (r, w') = readable b w in (says r, w')
step (Call.asks_writable b) w = let (r, w') = writable b w in (says r, w')

unfoldable pub run : List Call → World → List Reply × World
run [] w = ([], w)
run (c ∷ cs) w = let (r, w') = step c w in let (rs, w'') = run cs w' in (r ∷ rs, w'')

-- The channel with the address that the next message gets.
abbrev pub Model : Type 0
Model = Channel × ℕ

abbrev pub sent_code : ℕ → Sent → ℤ
sent_code n accepted = pos n
sent_code n blocked = queue_would_block
sent_code n refused = queue_closed

abbrev pub gave_code : Received → Reply
gave_code (message m) = gave queue_ok (some m)
gave_code end_of_stream = gave queue_ok (some (record { base = none; len = 0 }))
gave_code nothing_yet = gave queue_would_block none

-- The message that a write of `len` bytes sends.
abbrev pub message_at : ℕ → List ℕ → ℕ → Message
message_at address source n = record {
  base = some (record { address = address; bytes = take n source });
  len = n;
}

abbrev pub release : Channel → Channel
release c = if is_unowned c then record c { to_uv = []; to_thread = [] } else c

abbrev pub is_nil {ℓ} : {A : Type ℓ} → List A → Bool
is_nil [] = true
is_nil (x ∷ xs) = false

unfoldable pub answer : Call → Model → Reply × Model
answer Call.wakes c = (done, c)
answer Call.shuts_down c = (done, c)
answer Call.destroys (c, n) = (done, (release (record c { destroyed = true }), n))
answer (Call.opens_uv f user) (c, n) = (done, (record c { uv_state = opened }, n))
answer (Call.opens_thread f user) (c, n) =
    if rank c.thread_state == rank idle
    then (says true, (record c { thread_state = opened }, n))
    else (says false, (c, n))
answer (Call.writes b source len) (c, n) =
    let k = min len int_max in
    let (s, c') = send b (message_at n source k) c in
    if len == 0 then (wrote (pos 0), (c, n)) else (wrote (sent_code k s), (c', n + 1))
answer (Call.reads b) (c, n) = let (r, c') = receive b c in (gave_code r, (c', n))
answer (Call.ends b) (c, n) = (done, (release (move_to b ended c), n))
answer (Call.closes b) (c, n) = (done, (release (move_to b closed c), n))
answer (Call.asks_readable b) (c, n) =
    (says (not (is_nil (incoming b c)) || is_ended (peer b c)), (c, n))
answer (Call.asks_writable b) (c, n) = (
  says (not (length (outgoing b c) == room) || is_ended (own b c) || is_closed (peer b c)),
  (c, n),
)

unfoldable pub answers : List Call → Model → List Reply × Model
answers [] m = ([], m)
answers (c ∷ cs) m = let (r, m') = answer c m in let (rs, m'') = answers cs m' in (r ∷ rs, m'')
