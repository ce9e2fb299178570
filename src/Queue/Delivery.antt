-- ===== src/Queue/Delivery.antt =====
-- What comes out at the other end of a queue of src/queue.c, over a history of calls.
pub mod Order
use bare_kit.Prelude.{
  ℕ, ◌≡◌, refl, ap, sym, ◌∙◌, pos, List, [], ◌∷◌, ◌++◌, Bool, true, false, not, Option, some, arith,
  take, min, int_max, append_assoc, append-nil,
}
use bare_kit.Ring.{Message}
use bare_kit.Queue.State.{PortState, ended, closed, World, is_ended}
use bare_kit.Queue.Channel.{
  Channel, send, receive, receive_from, move_to, is_unowned, outgoing, accepted,
}
use bare_kit.Queue.Payload.{payload, payloads, payloads-append}
use bare_kit.Queue.Calls.{
  Call, Reply, wrote, gave, step, run, answer, Model, message_at, release, gave_code,
}
use bare_kit.Queue.Inv.{IsSound}
use bare_kit.Queue.Refine.{view}
use bare_kit.Queue.Correct.{step-Refines}
use bare_kit.Queue.Lifetime.{IsLegal, allowed-owned, release-is_unowned}

-- The bytes that a reply says were taken from the source, and those that it hands out.
abbrev pub taken : Reply → List ℕ → List ℕ
taken (wrote (pos n)) source = take n source
taken r source = []

abbrev pub handed : Reply → List ℕ
handed (gave status (some m)) = payload m.base
handed r = []

-- What a call puts on the way out of end `b`, and what the other end takes from it.
abbrev pub sent : Call → Bool → Reply → List ℕ
sent (Call.writes true source len) true r = taken r source
sent (Call.writes false source len) false r = taken r source
sent c b r = []

abbrev pub delivered : Call → Bool → Reply → List ℕ
delivered (Call.reads false) true r = handed r
delivered (Call.reads true) false r = handed r
delivered c b r = []

-- The same over a history and its replies.
unfoldable pub all_sent : Bool → List Call → List Reply → List ℕ
all_sent b (c ∷ cs) (r ∷ rs) = sent c b r ++ all_sent b cs rs
all_sent b cs rs = []

unfoldable pub all_delivered : Bool → List Call → List Reply → List ℕ
all_delivered b (c ∷ cs) (r ∷ rs) = delivered c b r ++ all_delivered b cs rs
all_delivered b cs rs = []

-- One call: what was in flight and what is sent is what is delivered and what is in flight then.
abbrev Delivers : Bool → Call → Channel → Reply × Model → Type 0
Delivers b k c out =
    payloads (outgoing b c) ++ sent k b out.0 ≡ delivered k b out.0 ++ payloads (outgoing b out.1.0)

send_delivers :
    (b : Bool) (m : Message) (c : Channel)
    → payloads (outgoing b (send b m c).1)
      ≡ payloads (outgoing b c) ++ (elim (send b m c).0 [ accepted ↦ payload m.base | _ ↦ [] ])
unfolding send
send_delivers true m c =
    ground (arith, append-nil (payloads c.to_thread), payloads-append c.to_thread m)
send_delivers false m c = ground (arith, append-nil (payloads c.to_uv), payloads-append c.to_uv m)

-- A call that moves no bytes of the end.
still :
    (b : Bool) (k : Call) (c : Channel) (n : ℕ)
    → sent k b (answer k (c, n)).0 ≡ []
    → delivered k b (answer k (c, n)).0 ≡ []
    → outgoing b (answer k (c, n)).1.0 ≡ outgoing b c
    → Delivers b k c (answer k (c, n))
still b k c n s d o = rw (s, d, o) (append-nil (payloads (outgoing b c)))

other_send : (b : Bool) (m : Message) (c : Channel) → outgoing b (send (not b) m c).1 ≡ outgoing b c
unfolding send
other_send true m c = ground arith
other_send false m c = ground arith

own_writes :
    (b : Bool) (source : List ℕ) (len : ℕ) (c : Channel) (n : ℕ)
    → Delivers b (Call.writes b source len) c (answer (Call.writes b source len) (c, n))
unfolding answer
own_writes true source len c n = ground (
  arith,
  append-nil (payloads c.to_thread),
  send_delivers true (message_at n source (min len int_max)) c,
)
own_writes false source len c n = ground (
  arith,
  append-nil (payloads c.to_uv),
  send_delivers false (message_at n source (min len int_max)) c,
)

other_writes :
    (b : Bool) (source : List ℕ) (len : ℕ) (c : Channel) (n : ℕ)
    → Delivers b (Call.writes (not b) source len) c (answer (Call.writes (not b) source len) (c, n))
unfolding answer
other_writes true source len c n = ground (
  arith,
  append-nil (payloads c.to_thread),
  other_send true (message_at n source (min len int_max)) c,
)
other_writes false source len c n = ground (
  arith,
  append-nil (payloads c.to_uv),
  other_send false (message_at n source (min len int_max)) c,
)

receive_delivers :
    (b over : Bool) (l : List Message) (c : Channel)
    → outgoing b c ≡ l
    → payloads l
      ≡ handed (gave_code (receive_from l over (not b) c).0)
        ++ payloads (outgoing b (receive_from l over (not b) c).1)
unfolding payloads
receive_delivers b true [] c e = rw e refl
receive_delivers b false [] c e = rw e refl
receive_delivers true over (m ∷ l) c e = refl
receive_delivers false over (m ∷ l) c e = refl

own_reads :
    (b : Bool) (c : Channel) (n : ℕ)
    → Delivers b (Call.reads (not b)) c (answer (Call.reads (not b)) (c, n))
unfolding answer receive
own_reads true c n =
    append-nil (payloads c.to_thread)
    ∙ receive_delivers true (is_ended c.uv_state) c.to_thread c refl
own_reads false c n =
    append-nil (payloads c.to_uv) ∙ receive_delivers false (is_ended c.thread_state) c.to_uv c refl

other_receive :
    (b over : Bool) (l : List Message) (c : Channel)
    → outgoing b (receive_from l over b c).1 ≡ outgoing b c
other_receive b true [] c = refl
other_receive b false [] c = refl
other_receive true over (m ∷ l) c = refl
other_receive false over (m ∷ l) c = refl

-- A call that does not give up the last share leaves the messages.
kept_release :
    (b : Bool) (c : Channel)
    → is_unowned (release c) ≡ false
    → outgoing b (release c) ≡ outgoing b c
kept_release b c h = let e : is_unowned c ≡ false = sym (release-is_unowned c) ∙ h in rw e refl

moved_out : (b p : Bool) (s : PortState) (c : Channel) → outgoing b (move_to p s c) ≡ outgoing b c
unfolding move_to
moved_out true true s c = ground arith
moved_out true false s c = ground arith
moved_out false true s c = ground arith
moved_out false false s c = ground arith

opened :
    (b : Bool) (f : Option ℕ) (user : ℕ) (c : Channel) (n : ℕ)
    → Delivers b (Call.opens_thread f user) c (answer (Call.opens_thread f user) (c, n))
unfolding answer
opened true f user c n = ground (arith, append-nil (payloads c.to_thread))
opened false f user c n = ground (arith, append-nil (payloads c.to_uv))

answer-Delivers :
    (b : Bool) (k : Call) (c : Channel) (n : ℕ)
    → is_unowned (answer k (c, n)).1.0 ≡ false
    → Delivers b k c (answer k (c, n))
unfolding answer receive
answer-Delivers b Call.wakes c n h = still b Call.wakes c n refl refl refl
answer-Delivers b Call.shuts_down c n h = still b Call.shuts_down c n refl refl refl
answer-Delivers b Call.destroys c n h =
    still b Call.destroys c n refl refl (kept_release b (record c { destroyed = true }) h)
answer-Delivers b (Call.opens_uv f user) c n h = still b (Call.opens_uv f user) c n refl refl refl
answer-Delivers b (Call.opens_thread f user) c n h = opened b f user c n
answer-Delivers b (Call.ends p) c n h =
    still b (Call.ends p) c n refl refl
      (kept_release b (move_to p ended c) h ∙ moved_out b p ended c)
answer-Delivers b (Call.closes p) c n h =
    still b (Call.closes p) c n refl refl
      (kept_release b (move_to p closed c) h ∙ moved_out b p closed c)
answer-Delivers b (Call.asks_readable p) c n h = still b (Call.asks_readable p) c n refl refl refl
answer-Delivers b (Call.asks_writable p) c n h = still b (Call.asks_writable p) c n refl refl refl
answer-Delivers true (Call.writes true source len) c n h = own_writes true source len c n
answer-Delivers false (Call.writes false source len) c n h = own_writes false source len c n
answer-Delivers true (Call.writes false source len) c n h = other_writes true source len c n
answer-Delivers false (Call.writes true source len) c n h = other_writes false source len c n
answer-Delivers true (Call.reads false) c n h = own_reads true c n
answer-Delivers false (Call.reads true) c n h = own_reads false c n
answer-Delivers true (Call.reads true) c n h =
    still true (Call.reads true) c n refl refl
      (other_receive true (is_ended c.thread_state) c.to_uv c)
answer-Delivers false (Call.reads false) c n h =
    still false (Call.reads false) c n refl refl
      (other_receive false (is_ended c.uv_state) c.to_thread c)

pub step-Delivers :
    (b : Bool) (k : Call) (w : World)
    → IsSound w.queue
    → is_unowned (view (step k w).1.queue) ≡ false
    → payloads (outgoing b (view w.queue)) ++ sent k b (step k w).0
      ≡ delivered k b (step k w).0 ++ payloads (outgoing b (view (step k w).1.queue))
step-Delivers b k w v h =
    let r = step-Refines k w v in
    let m = ap (λ (x : Model). x.0) r.moves in
    rw (r.reply, m) (answer-Delivers b k (view w.queue) w.next (sym (ap is_unowned m) ∙ h))
