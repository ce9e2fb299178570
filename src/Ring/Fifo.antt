-- ===== src/Ring/Fifo.antt =====
-- What a ring promises: a first-in first-out queue of at most `room` messages, oldest first.
use bare_kit.Prelude.{
  ℕ, List, [], ◌∷◌, ◌++◌, Bool, true, false, Option, none, some, length, ◌==◌, if◌then◌else◌,
}
use bare_kit.Ring.{Message}

-- One slot of the array stays free, to tell a full ring from an empty one.
abbrev pub room : ℕ
room = 1023

unfoldable pub push : List Message → Message → Bool × List Message
push q m = if length q == room then (false, q) else (true, q ++ m ∷ [])

unfoldable pub shift : List Message → Option Message × List Message
shift [] = (none, [])
shift (m ∷ q) = (some m, q)
