-- ===== src/Worklet/Bundle/Ready.antt =====
-- The queue as the stream of src/worklet.js finds it, whatever call of src/queue.c comes before.
use bare_kit.Ring.{Message}
use bare_kit.Prelude.{List, [], ◌∷◌, ℕ, ◌≡◌, refl, ap, sym, ◌∙◌, subst, Bool, true, false, arith}
use bare_kit.Queue.State.{World, PortState, ended, closed, is_ended}
use bare_kit.Queue.Channel.{Channel, send, receive, receive_from, move_to}
use bare_kit.Queue.Calls.{Call, step, answer, release}
use bare_kit.Queue.Inv.{IsSound}
use bare_kit.Queue.Refine.{view}
use bare_kit.Queue.Correct.{step-Refines}
use bare_kit.Queue.Whole.{IsSourced, IsWhole, answer-IsWhole}
use bare_kit.Queue.Wake.Effects.{moved}

-- The rings are valid, their messages whole, and the worklet has not destroyed the queue.
pub record IsReady (w : World) : Type 0 where
  pub sound : IsSound w.queue
  pub whole : IsWhole (view w.queue)
  pub kept : (view w.queue).destroyed ≡ false

abbrev pub is_destroy : Call → Bool
is_destroy Call.destroys = true
is_destroy _ = false

receive_from-destroyed :
    (b : Bool) (l : List Message) (over : Bool) (c : Channel)
    → (receive_from l over b c).1.destroyed ≡ c.destroyed
receive_from-destroyed b [] true c = refl
receive_from-destroyed b [] false c = refl
receive_from-destroyed true (m ∷ l) over c = refl
receive_from-destroyed false (m ∷ l) over c = refl

moved-destroyed :
    (b : Bool) (s : PortState) (c : Channel) → (release (move_to b s c)).destroyed ≡ c.destroyed
unfolding move_to
moved-destroyed true s c = ground arith
moved-destroyed false s c = ground arith

writes-destroyed :
    (b : Bool) (source : List ℕ) (len : ℕ) (c : Channel) (n : ℕ)
    → (answer (Call.writes b source len) (c, n)).1.0.destroyed ≡ c.destroyed
unfolding answer send
writes-destroyed true source len c n = ground arith
writes-destroyed false source len c n = ground arith

answer-destroyed :
    (k : Call) (c : Channel) (n : ℕ)
    → is_destroy k ≡ false
    → (answer k (c, n)).1.0.destroyed ≡ c.destroyed
unfolding answer receive
answer-destroyed Call.wakes c n h = refl
answer-destroyed Call.shuts_down c n h = refl
answer-destroyed Call.destroys c n h = cc
answer-destroyed (Call.opens_uv f user) c n h = refl
answer-destroyed (Call.opens_thread f user) c n h = ground arith
answer-destroyed (Call.writes b source len) c n h = writes-destroyed b source len c n
answer-destroyed (Call.reads true) c n h =
    receive_from-destroyed true c.to_uv (is_ended c.thread_state) c
answer-destroyed (Call.reads false) c n h =
    receive_from-destroyed false c.to_thread (is_ended c.uv_state) c
answer-destroyed (Call.ends b) c n h = moved-destroyed b ended c
answer-destroyed (Call.closes b) c n h = moved-destroyed b closed c
answer-destroyed (Call.asks_readable b) c n h = refl
answer-destroyed (Call.asks_writable b) c n h = refl

pub step-IsReady :
    (k : Call) (w : World) → is_destroy k ≡ false → IsSourced k → IsReady w → IsReady (step k w).1
step-IsReady k w d f r =
    let e = moved k w r.sound in
    record {
      sound = (step-Refines k w r.sound).sound;
      whole = subst IsWhole (sym e) (answer-IsWhole k (view w.queue) w.next f r.whole);
      kept =
          ap (λ (c : Channel). c.destroyed) e ∙ answer-destroyed k (view w.queue) w.next d ∙ r.kept;
    }
