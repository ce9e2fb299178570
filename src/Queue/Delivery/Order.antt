-- ===== src/Queue/Delivery/Order.antt =====
-- The bytes sent and delivered over a history of calls on a queue of src/queue.c.
use bare_kit.Prelude.{
  ℕ, ◌≡◌, ap, sym, ◌∙◌, List, [], ◌∷◌, ◌++◌, Bool, false, append_assoc, append-nil,
}
use bare_kit.Queue.State.{World}
use bare_kit.Queue.Channel.{is_unowned, outgoing}
use bare_kit.Queue.Payload.{payloads}
use bare_kit.Queue.Calls.{Call, step, run}
use bare_kit.Queue.Inv.{IsSound}
use bare_kit.Queue.Refine.{view}
use bare_kit.Queue.Correct.{step-Refines}
use bare_kit.Queue.Lifetime.{IsLegal, allowed-owned}
use bare_kit.Queue.Delivery.{sent, delivered, all_sent, all_delivered, step-Delivers}

-- A history that goes on, or ends owned, is owned at its start.
owned_start :
    (cs : List Call) (w : World)
    → IsLegal cs w
    → is_unowned (view (run cs w).1.queue) ≡ false
    → is_unowned (view w.queue) ≡ false
unfolding run
owned_start [] w l h = h
owned_start (c ∷ cs) w l h = allowed-owned c (view w.queue) l.0

-- Joining what one call and the rest of a history deliver.
join_delivered :
    (x s d y t e z : List ℕ) → x ++ s ≡ d ++ y → y ++ t ≡ e ++ z → x ++ (s ++ t) ≡ (d ++ e) ++ z
join_delivered x s d y t e z p q =
    sym (append_assoc x s t)
    ∙ ap (λ l. l ++ t) p
    ∙ append_assoc d y t
    ∙ ap (λ l. d ++ l) q
    ∙ sym (append_assoc d e z)

-- Over any history from a queue with valid rings in which no end uses a share it has let go, and
-- behind which somebody still holds a share, the bytes on their way from an end and those it sends
-- in accepted writes are the bytes that the other end is handed by its reads and those still on
-- their way, in the same order.
pub in_order :
    (b : Bool) (cs : List Call) (w : World)
    → IsSound w.queue
    → IsLegal cs w
    → is_unowned (view (run cs w).1.queue) ≡ false
    → payloads (outgoing b (view w.queue)) ++ all_sent b cs (run cs w).0
      ≡ all_delivered b cs (run cs w).0 ++ payloads (outgoing b (view (run cs w).1.queue))
unfolding run all_sent all_delivered
in_order b [] w v l h = append-nil (payloads (outgoing b (view w.queue)))
in_order b (c ∷ cs) w v l h =
    let s = (step-Refines c w v).sound in
    join_delivered _ (sent c b (step c w).0) (delivered c b (step c w).0) _
      (all_sent b cs (run cs (step c w).1).0) (all_delivered b cs (run cs (step c w).1).0) _
      (step-Delivers b c w v (owned_start cs (step c w).1 l.1 h))
      (in_order b cs (step c w).1 s l.1 h)
