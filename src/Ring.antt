-- ===== src/Ring.antt =====
-- The bounded ring of owned messages of src/queue.h and src/queue.c: `bare_queue_ring_t` and the
-- four `bare_queue__ring_*` functions. A ring is an array of `capacity` slots, here a function of
-- the index, with the index that the producer writes and the one that the consumer reads.
pub mod Inv
pub mod Fifo
pub mod Refine
pub mod History
mod Tests
use bare_kit.Prelude.{
  ℕ, ◌+◌, ◌-◌, ◌<◌, List, Bool, true, false, Option, none, some, bit_and, ◌==◌, if◌then◌else◌,
}

-- A block of memory that `malloc` gave: its address, and the bytes that were copied into it.
pub record Block : Type 0 where
  pub address : ℕ
  pub bytes : List ℕ

-- `base` is `none` for a null pointer.
pub record Message : Type 0 where
  pub base : Option Block
  pub len : ℕ

pub record Ring : Type 0 where
  pub slots : ℕ → Message
  pub head : ℕ
  pub tail : ℕ

abbrev pub capacity : ℕ
capacity = 1024

abbrev pub mask : ℕ
mask = capacity - 1

abbrev pub update {ℓ} : {A : Type ℓ} → (ℕ → A) → ℕ → A → ℕ → A
update f i v j = if i == j then v else f j

unfoldable pub ring_empty : Ring → Bool
ring_empty r = r.head == r.tail

unfoldable pub ring_full : Ring → Bool
ring_full r = bit_and (r.head + 1) mask == r.tail

unfoldable pub ring_push : Ring → Option Block → ℕ → Bool × Ring
unfolding ring_full
ring_push r base len = if ring_full r then (false, r) else (
  true,
  record r {
    slots = update r.slots r.head (record { base = base; len = len });
    head = bit_and (r.head + 1) mask;
  },
)

-- The option is what goes through `message`, and the result is whether there is one.
unfoldable pub ring_shift : Ring → Option Message × Ring
unfolding ring_empty
ring_shift r =
    if ring_empty r
    then (none, r)
    else (some (r.slots r.tail), record r { tail = bit_and (r.tail + 1) mask })
