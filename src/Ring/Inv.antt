-- ===== src/Ring/Inv.antt =====
-- Both indices of a ring stay inside its array.
use bare_kit.Prelude.{ℕ, ◌+◌, ◌<◌, ◌%◌, ◌≡◌, Option, bit_and, bit_and-1023, arith}
use bare_kit.Ring.{Ring, Block, capacity, mask, ring_push, ring_shift}

pub record IsValid (r : Ring) : Type 0 where
  pub head_in : r.head < capacity
  pub tail_in : r.tail < capacity

-- The mask takes an index one step round the ring.
pub step_round : (i : ℕ) → i < capacity → bit_and (i + 1) mask ≡ (i + 1) % capacity
step_round i h = bit_and-1023 (i + 1) (omega arith)

pub ring_push-IsValid :
    {r : Ring} (base : Option Block) (len : ℕ) → IsValid r → IsValid (ring_push r base len).1
unfolding ring_push
ring_push-IsValid {r} base len v = ground (arith, step_round r.head)

pub ring_shift-IsValid : {r : Ring} → IsValid r → IsValid (ring_shift r).1
unfolding ring_shift
ring_shift-IsValid {r} v = ground (arith, step_round r.tail)
