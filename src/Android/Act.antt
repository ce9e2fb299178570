-- ===== src/Android/Act.antt =====
-- Code that aborts on a failed assertion, as a monad over its state, and its total correctness.
use bare_kit.Prelude.{◌≡◌, ap, ◌∙◌, Bool, true, false, Option, none, some}

-- `none` is an abort, by an assertion that does not hold.
abbrev pub Act : Type 0 → Type 0 → Type 0
Act W A = W → Option (A × W)

abbrev pub pure : {W A : Type 0} → A → Act W A
pure a w = some (a, w)

abbrev pub follow : {W A B : Type 0} → Option (A × W) → (A → Act W B) → Option (B × W)
follow none f = none
follow (some (a, w)) f = f a w

infixl 5 ◌>>=◌ ◌>>◌
unfoldable pub ◌>>=◌ : {W A B : Type 0} → Act W A → (A → Act W B) → Act W B
◌>>=◌ m f w = follow (m w) f

abbrev pub ◌>>◌ : {W B : Type 0} → Act W (Unit {0}) → Act W B → Act W B
m >> k = m >>= λ _. k

-- `assert(b)`
abbrev pub assert : {W : Type 0} → Bool → Act W (Unit {0})
assert true w = some (tt, w)
assert false w = none

-- `assert(p != NULL)`
abbrev pub non_null : {W A : Type 0} → Option A → Act W A
non_null (some a) w = some (a, w)
non_null none w = none

-- The code returns, with a result and a state as `Q` says.
pub record Returns {W A : Type 0} (m : Act W A) (w : W) (Q : A → W → Type 0) : Type 0 where
  pub value : A
  pub after : W
  pub returned : m w ≡ some (value, after)
  pub holds : Q value after

abbrev pub returns :
    {W A : Type 0} {m : Act W A} {w : W} {Q : A → W → Type 0} (a : A) (w' : W)
    → m w ≡ some (a, w')
    → Q a w'
    → Returns m w Q
returns a w' e q = record { value = a; after = w'; returned = e; holds = q }

-- A sequence returns if its first part does and the rest does from there.
pub and_then :
    {W A B : Type 0} (m : Act W A) (f : A → Act W B) {w : W} {Q : A → W → Type 0}
    {R : B → W → Type 0}
    → Returns m w Q
    → ((a : A) (w' : W) → Q a w' → Returns (f a) w' R)
    → Returns (m >>= f) w R
unfolding ◌>>=◌
and_then m f r k =
    let r' = k r.value r.after r.holds in
    returns r'.value r'.after (ap (λ x. follow x f) r.returned ∙ r'.returned) r'.holds

pub weaken :
    {W A : Type 0} {m : Act W A} {w : W} {Q R : A → W → Type 0}
    → Returns m w Q
    → ((a : A) (w' : W) → Q a w' → R a w')
    → Returns m w R
weaken r k = returns r.value r.after r.returned (k r.value r.after r.holds)
