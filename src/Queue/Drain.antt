-- ===== src/Queue/Drain.antt =====
-- The loop of `bare_queue__free` in src/queue.c, and what `bare_queue__free` does as a whole.
use bare_kit.Prelude.{
  ℕ, zero, suc, ◌≡◌, ◌<◌, refl, ap, List, [], ◌∷◌, Option, none, some, arith, length, ◌∙◌,
}
use bare_kit.Ring.{Ring, Message, Block, capacity, ring_shift}
use bare_kit.Ring.Inv.{IsValid, ring_shift-IsValid}
use bare_kit.Ring.Refine.{contents, length-contents, Shift, nothing, oldest, Shift-cases}
use bare_kit.Queue.State.{Event, World}
use bare_kit.Queue.Ops.{drain, free, free_base}
use bare_kit.Queue.Inv.{IsSound}
use bare_kit.Queue.Refine.{view}

abbrev pub freeing : Option Block → List Event → List Event
freeing none t = t
freeing (some b) t = Event.free_block b.address ∷ t

-- The trace with one `free` for each message, in order.
unfoldable pub frees : List Message → List Event → List Event
frees [] t = t
frees (m ∷ ms) t = frees ms (freeing m.base t)

free_base_lem :
    (b : Option Block) (w : World) → free_base b w ≡ record w { trace = freeing b w.trace }
free_base_lem none w = refl
free_base_lem (some b) w = refl

-- What the loop leaves: no message, and one free for each message that there was.
pub record Drains (r : Ring) (w : World) (out : Ring × World) : Type 0 where
  pub emptied : contents out.0 ≡ []
  pub valid : IsValid out.0
  pub freed : out.1 ≡ record w { trace = frees (contents r) w.trace }

drain-Drains_step :
    (fuel : ℕ) (r : Ring) (w : World)
    → IsValid r
    → ((w' : World)
        → length (contents (ring_shift r).1) < fuel
        → Drains (ring_shift r).1 w' (drain fuel (ring_shift r).1 w'))
    → length (contents r) < suc fuel
    → Shift r
    → Drains r w (drain (suc fuel) r w)
unfolding drain frees
drain-Drains_step fuel r w v ih h (nothing e n rest) = record {
  emptied = rw (n, drain) rest;
  valid = rw (n, drain) (ring_shift-IsValid v);
  freed = rw (n, drain, e) refl;
}
drain-Drains_step fuel r w v ih h (oldest m rest e n e') =
    let d = ih (free_base m.base w) (rw e' (omega (arith, ap length e))) in
    record {
      emptied = rw (n, drain) d.emptied;
      valid = rw (n, drain) d.valid;
      freed = rw (n, drain, e) (d.freed ∙ rw (e', free_base_lem m.base w) refl);
    }

-- With more fuel than the ring has messages, the loop of the free on a valid ring frees each
-- message once, oldest first, and leaves the ring valid and empty.
pub drain-Drains :
    (fuel : ℕ) (r : Ring) (w : World)
    → IsValid r
    → length (contents r) < fuel
    → Drains r w (drain fuel r w)
drain-Drains zero r w v h = absurd (omega arith)
drain-Drains (suc fuel) r w v h =
    drain-Drains_step fuel r w v
      (λ w' h'. drain-Drains fuel (ring_shift r).1 w' (ring_shift-IsValid v) h') h (Shift-cases v)

-- The fuel of `free` is enough for any valid ring.
pub drain-capacity : {r : Ring} (w : World) → IsValid r → Drains r w (drain capacity r w)
drain-capacity {r} w v = drain-Drains capacity r w v (omega (arith, length-contents r))

-- The queue behind a free, with both rings empty.
pub record Frees (w w' : World) : Type 0 where
  pub trace_lem :
      w'.trace
      ≡ Event.free_queue
        ∷ Event.mutex_destroy
        ∷ frees (contents w.queue.to_thread) (frees (contents w.queue.to_uv) w.trace)
  pub next_lem : w'.next ≡ w.next
  pub view_lem : view w'.queue ≡ record (view w.queue) { to_uv = []; to_thread = [] }
  pub sound : IsSound w'.queue

pub free-Frees : (w : World) → IsSound w.queue → Frees w (free w)
unfolding free view
free-Frees w v =
    let d1 = drain-capacity w v.to_uv_valid in
    let d2 =
      drain-capacity {r = w.queue.to_thread} (drain capacity w.queue.to_uv w).1 v.to_thread_valid in
    record {
      trace_lem = ground (arith, d1.freed);
      next_lem = ground (arith, d1.freed);
      view_lem = ground (arith, d1.freed);
      sound = ground (arith, d1.freed);
    }
