-- ===== src/Queue/Whole.antt =====
-- The messages in a queue of src/queue.c are always whole: a block of as many bytes as the message says,
-- at least one, as long as every write is given a source of at least its length.
use bare_kit.Prelude.{
  ℕ, zero, suc, ◌≤◌, ◌<◌, ◌≡◌, refl, ap, sym, subst, List, [], ◌∷◌, Bool, true, false, arith,
  if◌then◌else◌, take, min, int_max, length, length-take, ltb,
}
use bare_kit.Ring.{Message}
use bare_kit.Queue.State.{PortState, ended, closed, World, is_ended, rank}
use bare_kit.Queue.Channel.{Channel, send, receive, receive_from, move_to, incoming, is_unowned}
use bare_kit.Queue.Payload.{IsFull, AllFull, AllFull-append}
use bare_kit.Queue.Calls.{Call, step, run, answer, Model, message_at, release}
use bare_kit.Queue.Inv.{IsSound}
use bare_kit.Queue.Refine.{view}
use bare_kit.Queue.Correct.{step-Refines}

abbrev pub IsSourced : Call → Type 0
IsSourced (Call.writes b source len) = len ≤ length source
IsSourced _ = Unit {0}

abbrev pub AllSourced : List Call → Type 0
AllSourced [] = Unit {0}
AllSourced (c ∷ cs) = IsSourced c × AllSourced cs

pub record IsWhole (c : Channel) : Type 0 where
  pub full_to_uv : AllFull c.to_uv
  pub full_to_thread : AllFull c.to_thread

pub message_at-IsFull :
    (address : ℕ) (source : List ℕ) (len : ℕ)
    → 0 < len
    → len ≤ length source
    → IsFull (message_at address source (min len int_max))
message_at-IsFull address source len h e = (
  record { address = address; bytes = take (min len int_max) source },
  refl,
  omega (arith, length-take (min len int_max) source),
  omega arith,
  omega arith,
)

one_of : (b : Bool) (x y : Channel) → IsWhole x → IsWhole y → IsWhole (if b then x else y)
one_of true x y v w = v
one_of false x y v w = w

send-IsWhole :
    (b : Bool) (m : Message) (c : Channel) → IsFull m → IsWhole c → IsWhole (send b m c).1
unfolding send
send-IsWhole true m c f w = ground (arith, AllFull-append c.to_thread w.full_to_thread f)
send-IsWhole false m c f w = ground (arith, AllFull-append c.to_uv w.full_to_uv f)

receive_from-IsWhole :
    (b over : Bool) (l : List Message) (c : Channel)
    → incoming b c ≡ l
    → IsWhole c
    → IsWhole (receive_from l over b c).1
receive_from-IsWhole b true [] c e w = w
receive_from-IsWhole b false [] c e w = w
receive_from-IsWhole true over (m ∷ l) c e w = record {
  full_to_uv = (subst AllFull e w.full_to_uv).1;
  full_to_thread = w.full_to_thread;
}
receive_from-IsWhole false over (m ∷ l) c e w = record {
  full_to_uv = w.full_to_uv;
  full_to_thread = (subst AllFull e w.full_to_thread).1;
}

release-IsWhole : (c : Channel) → IsWhole c → IsWhole (release c)
release-IsWhole c w = one_of (is_unowned c) _ c (record { full_to_uv = tt; full_to_thread = tt }) w

move_to-IsWhole : (b : Bool) (s : PortState) (c : Channel) → IsWhole c → IsWhole (move_to b s c)
unfolding move_to
move_to-IsWhole true s c w =
    one_of (ltb (rank c.uv_state) (rank s)) _ c
      (record { full_to_uv = w.full_to_uv; full_to_thread = w.full_to_thread }) w
move_to-IsWhole false s c w =
    one_of (ltb (rank c.thread_state) (rank s)) _ c
      (record { full_to_uv = w.full_to_uv; full_to_thread = w.full_to_thread }) w

long_write :
    (b : Bool) (source : List ℕ) (len : ℕ) (c : Channel) (n : ℕ)
    → 0 < len
    → (answer (Call.writes b source len) (c, n)).1.0
      ≡ (send b (message_at n source (min len int_max)) c).1
unfolding answer
long_write b source len c n h = ground arith

pub answer-IsWhole :
    (k : Call) (c : Channel) (n : ℕ) → IsSourced k → IsWhole c → IsWhole (answer k (c, n)).1.0
unfolding answer receive
answer-IsWhole Call.wakes c n f w = w
answer-IsWhole Call.shuts_down c n f w = w
answer-IsWhole Call.destroys c n f w =
    release-IsWhole (record c { destroyed = true })
      (record { full_to_uv = w.full_to_uv; full_to_thread = w.full_to_thread })
answer-IsWhole (Call.opens_uv g user) c n f w = record {
  full_to_uv = w.full_to_uv;
  full_to_thread = w.full_to_thread;
}
answer-IsWhole (Call.opens_thread g user) c n f w = record {
  full_to_uv = ground (arith, w.full_to_uv);
  full_to_thread = ground (arith, w.full_to_thread);
}
answer-IsWhole (Call.ends p) c n f w =
    release-IsWhole (move_to p ended c) (move_to-IsWhole p ended c w)
answer-IsWhole (Call.closes p) c n f w =
    release-IsWhole (move_to p closed c) (move_to-IsWhole p closed c w)
answer-IsWhole (Call.asks_readable p) c n f w = w
answer-IsWhole (Call.asks_writable p) c n f w = w
answer-IsWhole (Call.reads true) c n f w =
    receive_from-IsWhole true (is_ended c.thread_state) c.to_uv c refl w
answer-IsWhole (Call.reads false) c n f w =
    receive_from-IsWhole false (is_ended c.uv_state) c.to_thread c refl w
answer-IsWhole (Call.writes p source zero) c n f w = w
answer-IsWhole (Call.writes p source (suc len)) c n f w =
    subst IsWhole (sym (long_write p source (suc len) c n (omega arith))) (
      send-IsWhole p (message_at n source (min (suc len) int_max)) c
        (message_at-IsFull n source (suc len) (omega arith) f) w)

-- A history of calls in which each write has as many bytes as it says keeps a queue with valid
-- rings whose messages are all whole such a queue: each message has at least one byte, and the
-- bytes its length says.
pub run-IsWhole :
    (cs : List Call) (w : World)
    → IsSound w.queue
    → AllSourced cs
    → IsWhole (view w.queue)
    → IsWhole (view (run cs w).1.queue)
unfolding run
run-IsWhole [] w v f h = h
run-IsWhole (c ∷ cs) w v f h =
    let r = step-Refines c w v in
    run-IsWhole cs (step c w).1 r.sound f.1 (
      subst IsWhole (sym (ap (λ (m : Model). m.0) r.moves))
        (answer-IsWhole c (view w.queue) w.next f.0 h))
