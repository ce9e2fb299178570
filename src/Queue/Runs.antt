-- ===== src/Queue/Runs.antt =====
-- More runs of the queue's code (src/queue.c) at concrete inputs: what is delivered, what is freed,
-- and what makes space.
use bare_kit.Prelude.{
  ◌+◌, ◌≡◌, ◌<◌, refl, List, [], ◌∷◌, ◌++◌, true, false, some, arith, cap_int, to_int,
}
use bare_kit.Ring.{ring_shift, ring_empty, ring_push, ring_full}
use bare_kit.Ring.Refine.{contents, window, length-contents}
use bare_kit.Queue.State.{Queue, World, signal_peer, unowned}
use bare_kit.Queue.Ops
use bare_kit.Queue.Channel.{outgoing, is_unowned}
use bare_kit.Queue.Calls.{Call, step, run}
use bare_kit.Queue.Refine.{view}
use bare_kit.Queue.Lifetime.{started, IsLegal}
use bare_kit.Queue.Payload.{payloads}
use bare_kit.Queue.Delivery.{all_sent, all_delivered}
use bare_kit.Queue.Delivery.Order.{in_order}
use bare_kit.Queue.Whole.{IsWhole, run-IsWhole}
use bare_kit.Queue.Blocks.{freed_count, in_rings}
use bare_kit.Queue.Blocks.Conserve.{all_given, born, blocks_conserved}
use bare_kit.Queue.Wake.{signals}
use bare_kit.Queue.Wake.Reader.{IsAwake}
use bare_kit.Queue.Wake.Space.{is_writable}
use bare_kit.Queue.Wake.Writer.{no_lost_space}
use bare_kit.Queue.Tests.{
  blank, fresh_ring, fresh_queue, fresh_lem, fresh-IsSound, story, open_queue,
}

blocks_conserved_example :
    let out = run story (started fresh_queue) in
    freed_count 0 out.1.trace + in_rings 0 (view out.1.queue) + all_given 0 out.0
    ≡ born 0 out.1.next
blocks_conserved_example = blocks_conserved (λ i. blank) (λ i. blank) story 0 fresh_lem

fresh-IsWhole : IsWhole (view fresh_queue)
unfolding view contents window
fresh-IsWhole = record { full_to_uv = tt; full_to_thread = tt }

run-IsWhole_example : IsWhole (view (run story (started fresh_queue)).1.queue)
run-IsWhole_example =
    run-IsWhole story (started fresh_queue) fresh-IsSound
      (tt, (tt, (omega arith, (tt, (tt, (tt, (tt, tt))))))) fresh-IsWhole

-- Both ends open, and three bytes to the worklet that reads them.
abbrev visit : List Call
visit =
    Call.opens_thread (some 7) 1
    ∷ Call.opens_uv 8 2
    ∷ Call.writes false (1 ∷ 2 ∷ 3 ∷ []) 3
    ∷ Call.reads true
    ∷ []

visit-IsLegal : IsLegal visit (started fresh_queue)
unfolding step view Ops.open_thread Ops.open_uv Ops.write Ops.write_locked Ops.read Ops.read_locked
    ring_empty ring_push ring_shift to_int cap_int signal_peer unowned
visit-IsLegal = (refl, (refl, (refl, (refl, tt))))

visit-owned : is_unowned (view (run visit (started fresh_queue)).1.queue) ≡ false
unfolding is_unowned run step view Ops.open_thread Ops.open_uv Ops.write Ops.write_locked Ops.read
    Ops.read_locked ring_empty ring_push ring_shift to_int cap_int signal_peer unowned
visit-owned = refl

in_order_example :
    let out = run visit (started fresh_queue) in
    payloads (outgoing false (view fresh_queue)) ++ all_sent false visit out.0
    ≡ all_delivered false visit out.0 ++ payloads (outgoing false (view out.1.queue))
in_order_example =
    in_order false visit (started fresh_queue) fresh-IsSound visit-IsLegal visit-owned

-- The host's ring to the worklet is full.
abbrev full_queue : Queue
full_queue = record open_queue { to_uv = record fresh_ring { head = 1023 } }

abbrev full_world : World
full_world = started full_queue

full-IsAwake : IsAwake false full_world
unfolding view
full-IsAwake = record {
  sound = record {
    to_uv_valid = record { head_in = omega arith; tail_in = omega arith };
    to_thread_valid = fresh-IsSound.to_thread_valid;
  };
  hears = refl;
  owns = refl;
}

full-unwritable : is_writable false (view full_queue) ≡ false
unfolding view
full-unwritable = ground (arith, length-contents (record fresh_ring { head = 1023 }))

read-writable : is_writable false (view (run (Call.reads true ∷ []) full_world).1.queue) ≡ true
unfolding run step view Ops.read Ops.read_locked ring_shift ring_full signal_peer
read-writable = ground (arith, length-contents (record fresh_ring { head = 1023; tail = 1 }))

no_lost_space_example :
    signals false full_world.trace < signals false (run (Call.reads true ∷ []) full_world).1.trace
no_lost_space_example =
    no_lost_space false (Call.reads true ∷ []) full_world full-IsAwake (refl, tt) full-unwritable
      read-writable
