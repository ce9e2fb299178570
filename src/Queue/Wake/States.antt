-- ===== src/Queue/Wake/States.antt =====
-- The states of the channel under its calls: what writes and reads leave alone, and how an end that
-- keeps its port goes on listening.
use bare_kit.Prelude.{ℕ, ◌≡◌, refl, List, [], ◌∷◌, Bool, true, false, arith, min, int_max}
use bare_kit.Ring.{Message}
use bare_kit.Queue.State.{PortState, ended, closed, listening}
use bare_kit.Queue.Channel.{Channel, incoming, own, send, receive, receive_from, move_to}
use bare_kit.Queue.Calls.{Call, answer, Model, release, message_at}
use bare_kit.Queue.Lifetime.{may}
use bare_kit.Queue.Wake.Callback.{stays}

pub record SameStates (c c' : Channel) : Type 0 where
  pub same_uv : c'.uv_state ≡ c.uv_state
  pub same_thread : c'.thread_state ≡ c.thread_state
  pub same_destroyed : c'.destroyed ≡ c.destroyed

send-SameStates : (b : Bool) (m : Message) (c : Channel) → SameStates c (send b m c).1
unfolding send
send-SameStates b m c = ground arith

receive_from-SameStates :
    (l : List Message) (over b : Bool) (c : Channel) → SameStates c (receive_from l over b c).1
receive_from-SameStates [] true b c = ground arith
receive_from-SameStates [] false b c = ground arith
receive_from-SameStates (m ∷ l) over true c = ground arith
receive_from-SameStates (m ∷ l) over false c = ground arith

pub receive-SameStates : (b : Bool) (c : Channel) → SameStates c (receive b c).1
unfolding receive
receive-SameStates b c = receive_from-SameStates (incoming b c) _ b c

pub writes-SameStates :
    (b : Bool) (source : List ℕ) (len : ℕ) (m : Model)
    → SameStates m.0 (answer (Call.writes b source len) m).1.0
unfolding answer
writes-SameStates b source len (c, n) =
    ground (arith, send-SameStates b (message_at n source (min len int_max)) c)

release-SameStates : (c : Channel) → SameStates c (release c)
release-SameStates c = ground arith

-- An end that listens and owns its share.
abbrev pub IsUp : Bool → Channel → Type 0
IsUp b c = (listening (own b c) ≡ true) × (may b c ≡ true)

SameStates-IsUp : (b : Bool) {c c' : Channel} → SameStates c c' → IsUp b c → IsUp b c'
SameStates-IsUp true s u = ground arith
SameStates-IsUp false s u = ground arith

move_to-IsUp :
    (b p : Bool) (s : PortState) (c : Channel)
    → (p ≡ b → listening s ≡ true)
    → IsUp b c
    → IsUp b (move_to p s c)
unfolding move_to
move_to-IsUp true true s c h u = ground (arith, h refl)
move_to-IsUp false false s c h u = ground (arith, h refl)
move_to-IsUp true false s c h u = ground arith
move_to-IsUp false true s c h u = ground arith

closing : (b p : Bool) → stays b (Call.closes p) ≡ true → p ≡ b → listening closed ≡ true
closing true true s e = cc
closing false false s e = cc
closing true false s e = cc
closing false true s e = cc

-- A call that leaves the port as it is leaves the end listening.
pub answer-IsUp :
    (b : Bool) (c : Call) (m : Model) → stays b c ≡ true → IsUp b m.0 → IsUp b (answer c m).1.0
unfolding answer
answer-IsUp b Call.wakes m s u = u
answer-IsUp b Call.shuts_down m s u = u
answer-IsUp true Call.destroys m s u = cc
answer-IsUp false Call.destroys (c, n) s u =
    SameStates-IsUp false (release-SameStates (record c { destroyed = true })) u
answer-IsUp true (Call.opens_uv f user) m s u = cc
answer-IsUp false (Call.opens_uv f user) m s u = u
answer-IsUp true (Call.opens_thread f user) m s u = ground arith
answer-IsUp false (Call.opens_thread f user) m s u = cc
answer-IsUp b (Call.writes p source len) m s u =
    SameStates-IsUp b (writes-SameStates p source len m) u
answer-IsUp b (Call.reads p) m s u = SameStates-IsUp b (receive-SameStates p m.0) u
answer-IsUp b (Call.ends p) m s u =
    SameStates-IsUp b (release-SameStates (move_to p ended m.0))
      (move_to-IsUp b p ended m.0 (λ e. refl) u)
answer-IsUp b (Call.closes p) m s u =
    SameStates-IsUp b (release-SameStates (move_to p closed m.0))
      (move_to-IsUp b p closed m.0 (closing b p s) u)
answer-IsUp b (Call.asks_readable p) m s u = u
answer-IsUp b (Call.asks_writable p) m s u = u
