-- ===== src/Worklet/Bundle/Reading.antt =====
-- What a read from src/worklet.js finds, and what it leaves of the queue.
use bare_kit.Prelude.{◌≡◌, refl, ap, ◌∙◌, List, [], ◌∷◌, Bool, true, false}
use bare_kit.Ring.{Message}
use bare_kit.Ring.Refine.{contents}
use bare_kit.Queue.State.{World, is_ended}
use bare_kit.Queue.Channel.{Channel, receive, receive_from}
use bare_kit.Queue.Calls.{Call, step}
use bare_kit.Queue.Refine.{view}
use bare_kit.Queue.Payload.{AllFull}
use bare_kit.Queue.Wake.Effects.{is_readable}
use bare_kit.Worklet.Native.{JsRead, undefined, null, buffer, native_read, native_read_lem, shown}
use bare_kit.Worklet.Bundle.Ready.{IsReady, step-IsReady}

-- What reading does to the rest of the queue.
pub record Leaves (w w' : World) : Type 0 where
  pub ready : IsReady w'
  pub same_out : (view w'.queue).to_thread ≡ (view w.queue).to_thread
  pub same_uv : (view w'.queue).uv_state ≡ (view w.queue).uv_state
  pub same_thread : (view w'.queue).thread_state ≡ (view w.queue).thread_state

-- The three answers to a read.
pub data Given (w : World) (r : JsRead × World) : Type 0 where
  gives :
      (m : Message) (rest : List Message)
      → r.0 ≡ buffer m
      → (view w.queue).to_uv ≡ m ∷ rest
      → (view r.1.queue).to_uv ≡ rest
      → Given w r
  finishes : r.0 ≡ null → (view w.queue).to_uv ≡ [] → (view r.1.queue).to_uv ≡ [] → Given w r
  waits :
      r.0 ≡ undefined
      → (view w.queue).to_uv ≡ []
      → is_readable true (view r.1.queue) ≡ false
      → (view r.1.queue).to_uv ≡ []
      → Given w r

Given-of_channel :
    (l : List Message) (over : Bool) (w : World) (r : JsRead × World)
    → (view w.queue).to_uv ≡ l
    → is_ended (view w.queue).thread_state ≡ over
    → r.0 ≡ shown (receive_from l over true (view w.queue)).0
    → view r.1.queue ≡ (receive_from l over true (view w.queue)).1
    → Given w r
Given-of_channel (m ∷ rest) over w r e o n v = gives m rest n e (ap (λ (c : Channel). c.to_uv) v)
Given-of_channel [] true w r e o n v = finishes n e (ap (λ (c : Channel). c.to_uv) v ∙ e)
Given-of_channel [] false w r e o n v =
    waits n e (ap (is_readable true) v ∙ rw (e, o) refl) (ap (λ (c : Channel). c.to_uv) v ∙ e)

full_contents : (w : World) → IsReady w → AllFull (contents w.queue.to_uv)
unfolding view
full_contents w r = r.whole.full_to_uv

pub native_read-Given : (w : World) → IsReady w → Given w (native_read w)
unfolding receive
native_read-Given w r =
    let e = native_read_lem w r.sound (full_contents w r) in
    Given-of_channel (view w.queue).to_uv (is_ended (view w.queue).thread_state) w (native_read w)
      refl refl e.0 e.1

receive_from-keeps :
    (l : List Message) (over : Bool) (c : Channel)
    → let d = (receive_from l over true c).1 in
      (d.to_thread ≡ c.to_thread) × (d.uv_state ≡ c.uv_state) × (d.thread_state ≡ c.thread_state)
receive_from-keeps [] true c = (refl, refl, refl)
receive_from-keeps [] false c = (refl, refl, refl)
receive_from-keeps (m ∷ l) over c = (refl, refl, refl)

native_read-IsReady : (w : World) → IsReady w → IsReady (native_read w).1
unfolding native_read step
native_read-IsReady w r = step-IsReady (Call.reads true) w refl tt r

pub native_read-Leaves : (w : World) → IsReady w → Leaves w (native_read w).1
unfolding receive
native_read-Leaves w r =
    let e = (native_read_lem w r.sound (full_contents w r)).1 in
    let l = (view w.queue).to_uv in
    let over = is_ended (view w.queue).thread_state in
    let k = receive_from-keeps l over (view w.queue) in
    record {
      ready = native_read-IsReady w r;
      same_out = ap (λ (c : Channel). c.to_thread) e ∙ k.0;
      same_uv = ap (λ (c : Channel). c.uv_state) e ∙ k.1;
      same_thread = ap (λ (c : Channel). c.thread_state) e ∙ k.2;
    }

pub Leaves-Leaves : {a b c : World} → Leaves a b → Leaves b c → Leaves a c
Leaves-Leaves k l = record {
  ready = l.ready;
  same_out = l.same_out ∙ k.same_out;
  same_uv = l.same_uv ∙ k.same_uv;
  same_thread = l.same_thread ∙ k.same_thread;
}
