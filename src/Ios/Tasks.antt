-- ===== src/Ios/Tasks.antt =====
-- The tasks of src/ios/suspension.m, in any order of the calls and of the expiration handlers.
use bare_kit.Prelude.{
  pos, negsuc, ℕ, ◌+◌, ◌≤◌, ◌≡◌, ◌≢◌, refl, true, false, Option, none, some, if◌then◌else◌, arith,
}
use bare_kit.Ios.{
  Caller, resting, begun, took, Handler, armed, marked, ran, Device, is_task, suspension_init,
  start_begin, start_exchange, end_previous, end_exchange, expire, end_expired, time_of, limit,
}

-- The application gives each task an identifier of its own, and runs the handler of a task that has been
-- begun and not ended, once.
pub data Move (d : Device) : Device → Type 0 where
  begins_task :
      (k : ℕ) → d.caller ≡ resting → d.has_begun k ≡ false → Move d (start_begin (some k) d)
  begins_none : d.caller ≡ resting → Move d (start_begin none d)
  exchanges : (next : Option ℕ) → d.caller ≡ begun next → Move d (start_exchange next d)
  takes : d.caller ≡ resting → Move d (end_exchange d)
  ends : (prev : Option ℕ) → d.caller ≡ took prev → Move d (end_previous prev d)
  expires :
      (k : ℕ) → d.has_begun k ≡ true → d.handler k ≡ armed → d.ended k ≡ 0 → Move d (expire k d)
  finishes : (k : ℕ) → d.handler k ≡ marked → Move d (end_expired k d)

pub data Reached : Device → Type 0 where
  starts : Reached suspension_init
  moves : {d e : Device} → Reached d → Move d e → Reached e

abbrev pub in_task : Option ℕ → ℕ → ℕ
in_task o k = if is_task o k then 1 else 0

abbrev pub in_caller : Caller → ℕ → ℕ
in_caller resting k = 0
in_caller (begun o) k = in_task o k
in_caller (took o) k = in_task o k

abbrev pub is_marked : Handler → ℕ
is_marked marked = 1
is_marked _ = 0

abbrev pub has_run : Handler → ℕ
has_run ran = 1
has_run _ = 0

-- In how many places the identifier of a task is held, to be ended.
abbrev pub held : Device → ℕ → ℕ
held d k = in_task d.identifier k + in_caller d.caller k

pub record IsKept (d : Device) (k : ℕ) : Type 0 where
  pub lost_none : d.has_begun k ≡ true → 1 ≤ d.ended k + held d k + is_marked (d.handler k)
  pub ended_once : d.ended k + held d k ≤ 1 + has_run (d.handler k)
  pub fresh : d.has_begun k ≡ false → (held d k ≡ 0) × (d.ended k ≡ 0) × (d.handler k ≡ armed)

Move-IsKept : {d e : Device} (k : ℕ) → Move d e → IsKept d k → IsKept e k
unfolding start_begin start_exchange end_previous end_exchange expire end_expired
Move-IsKept {d} k (begins_task j c f) i = record {
  lost_none = λ h. ground (arith, c, f, h, i.lost_none);
  ended_once = ground (arith, c, f, i.ended_once, i.fresh);
  fresh = λ h. ground (arith, c, f, h, i.fresh);
}
Move-IsKept {d} k (begins_none c) i = record {
  lost_none = λ h. ground (arith, c, h, i.lost_none);
  ended_once = ground (arith, c, i.ended_once);
  fresh = λ h. ground (arith, c, h, i.fresh);
}
Move-IsKept {d} k (exchanges next c) i = record {
  lost_none = λ h. ground (arith, c, h, i.lost_none h);
  ended_once = ground (arith, c, i.ended_once);
  fresh = λ h. ground (arith, c, h, i.fresh h);
}
Move-IsKept {d} k (takes c) i = record {
  lost_none = λ h. ground (arith, c, h, i.lost_none h);
  ended_once = ground (arith, c, i.ended_once);
  fresh = λ h. ground (arith, c, h, i.fresh h);
}
Move-IsKept {d} k (ends none c) i = record {
  lost_none = λ h. ground (arith, c, h, i.lost_none h);
  ended_once = ground (arith, c, i.ended_once);
  fresh = λ h. ground (arith, c, h, i.fresh h);
}
Move-IsKept {d} k (ends (some j) c) i = record {
  lost_none = λ h. ground (arith, c, h, i.lost_none h);
  ended_once = ground (arith, c, i.ended_once);
  fresh = λ h. ground (arith, c, h, i.fresh h);
}
Move-IsKept {d} k (expires j b a z) i = record {
  lost_none = λ h. ground (arith, a, z, h, i.lost_none h);
  ended_once = ground (arith, a, z, i.ended_once);
  fresh = λ h. ground (arith, a, b, z, h, i.fresh h);
}
Move-IsKept {d} k (finishes j m) i = record {
  lost_none = λ h. ground (arith, m, h, i.lost_none h);
  ended_once = ground (arith, m, i.ended_once);
  fresh = λ h. ground (arith, m, h, i.fresh h);
}

Reached-IsKept : {d : Device} (k : ℕ) → Reached d → IsKept d k
Reached-IsKept k starts = record {
  lost_none = λ h. cc;
  ended_once = omega arith;
  fresh = λ h. (refl, refl, refl);
}
Reached-IsKept k (moves r m) = Move-IsKept k m (Reached-IsKept k r)

-- In every order of the calls of the suspension, which come one at a time, and of the expiration
-- handlers of its background tasks, where the application gives each task an identifier of its own
-- and runs a handler once, for a task that is not ended: when no call is under way, no task is held
-- and the handler of a task is not under way, that task, if it was begun, has been ended; and it
-- has been ended once, or at most twice if its handler has run.
pub tasks_ended :
    {d : Device} (k : ℕ)
    → Reached d
    → d.caller ≡ resting
    → d.identifier ≡ none
    → d.handler k ≢ marked
    → d.has_begun k ≡ true
    → (1 ≤ d.ended k) × (d.ended k ≤ 1 + has_run (d.handler k))
tasks_ended {d} k r c e h b =
    let i = Reached-IsKept k r in
    (ground (arith, i.lost_none b, c, e, h), ground (arith, i.ended_once))

-- The time that a suspension gets is never more than the application has left, and what was asked for
-- if that is no more.
pub time_of-bounded :
    (remaining : Option ℕ) (n : ℕ)
    → (time_of remaining (pos n) ≤ limit remaining)
      × (time_of remaining (negsuc n) ≡ limit remaining)
      × (n ≤ limit remaining → time_of remaining (pos n) ≡ n)
unfolding time_of
time_of-bounded remaining n = (ground arith, refl, λ h. ground (arith, h))
