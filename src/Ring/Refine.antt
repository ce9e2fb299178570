-- ===== src/Ring/Refine.antt =====
-- A valid ring behaves as the bounded first-in first-out queue of the messages in it.
use bare_kit.Prelude.{
  ℕ, zero, suc, ◌+◌, ◌-◌, ◌%◌, ◌<◌, ◌≡◌, ◌≢◌, refl, ap, ap₂, List, [], ◌∷◌, ◌++◌, Option, none,
  some, ◌==◌, length, arith, bit_and,
}
use native.Mathlib.Decide.{ℕ_discrete}
use bare_kit.Ring.{
  Ring, Message, Block, capacity, mask, update, ring_empty, ring_full, ring_push, ring_shift,
}
use bare_kit.Ring.Inv.{IsValid, step_round}
use bare_kit.Ring.Fifo

-- The `n` messages from index `i` on, going round at `capacity`.
unfoldable pub window : (ℕ → Message) → ℕ → ℕ → List Message
window slots i zero = []
window slots i (suc n) = slots i ∷ window slots ((i + 1) % capacity) n

-- How many messages there are between the two indices.
abbrev pub count : Ring → ℕ
count r = (r.head + capacity - r.tail) % capacity

-- The messages in a ring, oldest first.
unfoldable pub contents : Ring → List Message
contents r = window r.slots r.tail (count r)

length-window : (slots : ℕ → Message) (i n : ℕ) → length (window slots i n) ≡ n
unfolding window
length-window slots i zero = refl
length-window slots i (suc n) = ap suc (length-window slots ((i + 1) % capacity) n)

pub length-contents : (r : Ring) → length (contents r) ≡ count r
unfolding contents
length-contents r = length-window r.slots r.tail (count r)

-- Writing just past a window extends it by what is written.
window-update :
    (slots : ℕ → Message) (m : Message) (n i j : ℕ)
    → i < capacity
    → n < 1023
    → j ≡ (i + n) % capacity
    → window (update slots j m) i (suc n) ≡ window slots i n ++ m ∷ []
unfolding window
window-update slots m zero i j hi hn e = ground arith
window-update slots m (suc n) i j hi hn e =
    ap₂ ◌∷◌ (ground arith)
      (window-update slots m n ((i + 1) % capacity) j (omega arith) (omega arith) (omega arith))

window_of_pos :
    (slots : ℕ → Message) (i n : ℕ)
    → 0 < n
    → window slots i n ≡ slots i ∷ window slots ((i + 1) % capacity) (n - 1)
unfolding window
window_of_pos slots i zero h = absurd (omega arith)
window_of_pos slots i (suc n) h =
    ap (λ k. slots i ∷ window slots ((i + 1) % capacity) k) (omega arith)

-- The test for an empty ring holds of a valid ring exactly if it has no message.
pub ring_empty_lem : (r : Ring) → IsValid r → ring_empty r ≡ (count r == 0)
unfolding ring_empty
ring_empty_lem r v = ground arith

-- The test for a full ring holds of a valid ring exactly if it has 1023 messages.
pub ring_full_lem : (r : Ring) → IsValid r → ring_full r ≡ (count r == 1023)
unfolding ring_full
ring_full_lem r v = ground (arith, step_round r.head)

-- On a valid ring, the test for an empty one holds exactly if it has no message, and the test for a
-- full one exactly if it has 1023.
pub ring_counts :
    (r : Ring) → IsValid r → (ring_empty r ≡ (count r == 0)) × (ring_full r ≡ (count r == 1023))
ring_counts r v = (ring_empty_lem r v, ring_full_lem r v)

-- A push on a valid ring appends the message to those in the ring, or fails and changes nothing
-- when 1023 messages are held.
pub ring_push_refines :
    {r : Ring} (base : Option Block) (len : ℕ)
    → IsValid r
    → let (done, r') = ring_push r base len in
      (done, contents r') ≡ Fifo.push (contents r) (record { base = base; len = len })
unfolding ring_push Fifo.push contents
ring_push_refines {r} base len v = ground (
  arith,
  step_round r.head,
  length-window r.slots r.tail (count r),
  window-update r.slots (record { base = base; len = len }) (count r) r.tail r.head,
)

-- An empty ring holds no message.
pub contents_of_empty : (r : Ring) → count r ≡ 0 → contents r ≡ []
unfolding contents window
contents_of_empty r e = rw e

pub contents_of_nonempty :
    (r : Ring)
    → 0 < count r
    → contents r ≡ r.slots r.tail ∷ window r.slots ((r.tail + 1) % capacity) (count r - 1)
unfolding contents
contents_of_nonempty r h = window_of_pos r.slots r.tail (count r) h

shift_of_empty : (r : Ring) → r.head ≡ r.tail → ring_shift r ≡ (none, r)
unfolding ring_shift
shift_of_empty r e = ground arith

shift_of_nonempty :
    (r : Ring)
    → r.head ≢ r.tail
    → ring_shift r ≡ (some (r.slots r.tail), record r { tail = bit_and (r.tail + 1) mask })
unfolding ring_shift
shift_of_nonempty r e = ground arith

contents_shifted :
    {r : Ring}
    → IsValid r
    → r.head ≢ r.tail
    → contents (record r { tail = (r.tail + 1) % capacity })
      ≡ window r.slots ((r.tail + 1) % capacity) (count r - 1)
unfolding contents
contents_shifted {r} v ne = ap (window r.slots ((r.tail + 1) % capacity)) (omega arith)

-- A shift of a valid ring hands out the oldest message and leaves the others, or fails on a ring
-- with no message.
pub ring_shift_refines :
    {r : Ring}
    → IsValid r
    → let (m, r') = ring_shift r in (m, contents r') ≡ Fifo.shift (contents r)
unfolding Fifo.shift
ring_shift_refines {r} v = elim (ℕ_discrete r.head r.tail) [
  | yes e ↦ rw (shift_of_empty r e, contents_of_empty r (omega arith)) refl
  | no ne ↦
      rw (shift_of_nonempty r ne, contents_of_nonempty r (omega arith), step_round r.tail v.tail_in)
        (ap (λ q. (some (r.slots r.tail), q)) (contents_shifted v ne))
]

-- The two cases of a shift, with what is left.
pub data Shift (r : Ring) : Type 0 where
  nothing : contents r ≡ [] → (ring_shift r).0 ≡ none → contents (ring_shift r).1 ≡ [] → Shift r
  oldest :
      (m : Message) (rest : List Message)
      → contents r ≡ m ∷ rest
      → (ring_shift r).0 ≡ some m
      → contents (ring_shift r).1 ≡ rest
      → Shift r

Shift-of_contents : {r : Ring} (l : List Message) → IsValid r → contents r ≡ l → Shift r
unfolding Fifo.shift
Shift-of_contents {r} [] v e =
    nothing e (ground (arith, ring_shift_refines v)) (ground (arith, ring_shift_refines v))
Shift-of_contents {r} (m ∷ rest) v e =
    oldest m rest e (ground (arith, ring_shift_refines v)) (ground (arith, ring_shift_refines v))

pub Shift-cases : {r : Ring} → IsValid r → Shift r
Shift-cases {r} v = Shift-of_contents (contents r) v refl
