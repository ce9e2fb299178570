-- ===== src/Ring/Tests.antt =====
-- Runs of the ring (src/queue.c) at a concrete ring.
use bare_kit.Ring.History.{
  RingCall, pushes, shifts, asks_empty, asks_full, ring_calls, fifo_calls, seen, ring_calls_refine,
}
use bare_kit.Prelude.{List, [], ◌∷◌, ℕ, ◌≡◌, none, arith}
use bare_kit.Ring.{Ring, Message}
use bare_kit.Ring.Inv.{IsValid}
use bare_kit.Ring.Refine.{contents}

abbrev nth : ℕ → Message
nth i = record { base = none; len = i }

-- Two messages, one at the end of the array and one at its start.
abbrev two : Ring
two = record { slots = nth; head = 1; tail = 1023 }

two-IsValid : IsValid two
two-IsValid = record { head_in = omega arith; tail_in = omega arith }

-- A message more, the three that there are in their order, and one too many.
abbrev calls : List RingCall
calls = pushes none 5 ∷ shifts ∷ shifts ∷ asks_empty ∷ shifts ∷ shifts ∷ asks_full ∷ []

ring_calls_refine_example : seen (ring_calls calls two) ≡ fifo_calls calls (contents two)
ring_calls_refine_example = ring_calls_refine calls two two-IsValid
