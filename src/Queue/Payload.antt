-- ===== src/Queue/Payload.antt =====
-- The bytes in the messages of a queue of src/queue.c.
use bare_kit.Prelude.{
  ℕ, ◌≤◌, ◌<◌, ◌≡◌, ap, sym, ◌∙◌, List, [], ◌∷◌, ◌++◌, Option, none, some, int_max, length,
  append_assoc, append-nil,
}
use bare_kit.Ring.{Block, Message}

-- A message as a write makes it: a block of as many bytes as it says, at least one.
abbrev pub IsFull : Message → Type 0
IsFull m =
    (b : Block) × (m.base ≡ some b) × (length b.bytes ≡ m.len) × (0 < m.len) × (m.len ≤ int_max)

abbrev pub AllFull : List Message → Type 0
AllFull [] = Unit {0}
AllFull (m ∷ ms) = IsFull m × AllFull ms

pub AllFull-append : (l : List Message) {m : Message} → AllFull l → IsFull m → AllFull (l ++ m ∷ [])
AllFull-append [] f g = (g, tt)
AllFull-append (x ∷ l) f g = (f.0, AllFull-append l f.1 g)

abbrev pub payload : Option Block → List ℕ
payload none = []
payload (some b) = b.bytes

unfoldable pub payloads : List Message → List ℕ
payloads [] = []
payloads (m ∷ ms) = payload m.base ++ payloads ms

pub payloads-append :
    (l : List Message) (m : Message) → payloads (l ++ m ∷ []) ≡ payloads l ++ payload m.base
unfolding payloads
payloads-append [] m = append-nil (payload m.base)
payloads-append (x ∷ l) m =
    ap (λ r. payload x.base ++ r) (payloads-append l m)
    ∙ sym (append_assoc (payload x.base) (payloads l) (payload m.base))
