-- ===== src/Worklet/Process/Count.antt =====
-- The steps of the worklets of a process (src/worklet.c), in any order, and what the count of running
-- worklets says of them.
use bare_kit.Prelude.{
  ltb, if◌then◌else◌, ℕ, zero, suc, ◌+◌, ◌≤◌, ◌<◌, ◌≡◌, refl, Bool, true, false, arith,
}
use bare_kit.Ring.{update}
use bare_kit.Worklet.Process.{
  Process, Life, unstarted, starting, alive, stopped, admit, on_stopped, begin_teardown, may_finish,
}

-- `n` worklets; an index from `n` on names none.
pub record System : Type 0 where
  pub process : Process
  pub life : ℕ → Life

abbrev pub weight : Life → ℕ
weight starting = 1
weight alive = 1
weight _ = 0

pub total : ℕ → (ℕ → Life) → ℕ
total zero f = 0
total (suc n) f = total n f + weight (f n)

abbrev pub admitted : Bool → Life
admitted true = starting
admitted false = unstarted

-- A worklet is admitted to start or refused, its thread is made or fails to be, its thread stops, or
-- the host begins to tear the process down.
pub data Step (n : ℕ) (s : System) : System → Type 0 where
  admits :
      (i : ℕ)
      → i < n
      → s.life i ≡ unstarted
      → Step n s (record {
        process = (admit s.process).1;
        life = update s.life i (admitted (admit s.process).0);
      })
  creates :
      (i : ℕ) → i < n → s.life i ≡ starting → Step n s (record s { life = update s.life i alive })
  fails :
      (i : ℕ)
      → i < n
      → s.life i ≡ starting
      → Step n s (record { process = (on_stopped s.process).1; life = update s.life i unstarted })
  stops :
      (i : ℕ)
      → i < n
      → s.life i ≡ alive
      → Step n s (record { process = (on_stopped s.process).1; life = update s.life i stopped })
  tears_down : Step n s (record s { process = begin_teardown s.process })

abbrev pub fresh : System
fresh = record { process = record { running = 0; torn_down = false }; life = λ i. unstarted }

pub data Reach (n : ℕ) : System → Type 0 where
  begin : Reach n fresh
  later : {s t : System} → Reach n s → Step n s t → Reach n t

abbrev only_if : Bool → ℕ → ℕ
only_if b k = if b then k else 0

-- A change of one worklet, whether or not it is one of the first `n`.
total-change :
    (f : ℕ → Life) (a : Life) (i n : ℕ)
    → total n (update f i a) + only_if (ltb i n) (weight (f i))
      ≡ only_if (ltb i n) (weight a) + total n f
unfolding total
total-change f a i zero = ground arith
total-change f a i (suc n) = ground (arith, total-change f a i n)

abbrev IsCounted : ℕ → System → Type 0
IsCounted n s = s.process.running ≡ total n s.life

Step-IsCounted : {n : ℕ} {s t : System} → Step n s t → IsCounted n s → IsCounted n t
unfolding admit on_stopped begin_teardown
Step-IsCounted {n} {s} (admits i h l) c =
    ground (arith, total-change s.life starting i n, total-change s.life unstarted i n)
Step-IsCounted {n} {s} (creates i h l) c = ground (arith, total-change s.life alive i n)
Step-IsCounted {n} {s} (fails i h l) c = ground (arith, total-change s.life unstarted i n)
Step-IsCounted {n} {s} (stops i h l) c = ground (arith, total-change s.life stopped i n)
Step-IsCounted tears_down c = c

total-fresh : (n : ℕ) → total n (λ i. unstarted) ≡ 0
unfolding total
total-fresh zero = refl
total-fresh (suc n) = omega (arith, total-fresh n)

-- In every state that the worklets of a process reach, the count of running worklets is the number
-- of those that have been admitted to start and have neither failed to get a thread nor stopped.
pub Reach-IsCounted : {n : ℕ} {s : System} → Reach n s → s.process.running ≡ total n s.life
Reach-IsCounted {n} begin = omega (arith, total-fresh n)
Reach-IsCounted (later r st) = Step-IsCounted st (Reach-IsCounted r)

own_share : (f : ℕ → Life) (i n : ℕ) → only_if (ltb i n) (weight (f i)) ≤ total n f
unfolding total
own_share f i zero = ground arith
own_share f i (suc n) = ground (arith, own_share f i n)

weight-le-total : (f : ℕ → Life) (i n : ℕ) → i < n → weight (f i) ≤ total n f
weight-le-total f i n h = ground (arith, own_share f i n)

pub data Steps (n : ℕ) (s : System) : System → Type 0 where
  here : Steps n s s
  next : {t u : System} → Steps n s t → Step n t u → Steps n s u

pub record IsOver (n : ℕ) (s : System) : Type 0 where
  pub marked : s.process.torn_down ≡ true
  pub quiet : (i : ℕ) → i < n → weight (s.life i) ≡ 0

pub Step-IsOver : {n : ℕ} {s t : System} → Step n s t → IsOver n s → IsOver n t
unfolding admit on_stopped begin_teardown
Step-IsOver (admits i h l) o = record {
  marked = ground (arith, o.marked);
  quiet = λ j k. ground (arith, o.marked, o.quiet j k);
}
Step-IsOver (creates i h l) o = absurd (ground (arith, o.quiet i h))
Step-IsOver (fails i h l) o = absurd (ground (arith, o.quiet i h))
Step-IsOver (stops i h l) o = absurd (ground (arith, o.quiet i h))
Step-IsOver tears_down o = record { marked = refl; quiet = o.quiet }

Steps-IsOver : {n : ℕ} {s t : System} → IsOver n s → Steps n s t → IsOver n t
Steps-IsOver o here = o
Steps-IsOver o (next r st) = Step-IsOver st (Steps-IsOver o r)

-- Once the worklets of a process have reached a state in which a teardown has begun and its wait is
-- over, no worklet is starting or running in that state or in any later one.
pub teardown_final :
    {n : ℕ} {s t : System}
    → Reach n s
    → s.process.torn_down ≡ true
    → may_finish s.process ≡ true
    → Steps n s t
    → (i : ℕ) → i < n
    → weight (t.life i) ≡ 0
unfolding may_finish
teardown_final {n} {s} r d f st i h =
    (Steps-IsOver
        (record {
          marked = d;
          quiet = λ j k. ground (arith, Reach-IsCounted r, weight-le-total s.life j n k);
        })
        st).quiet
      i h
