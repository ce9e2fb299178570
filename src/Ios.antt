-- ===== src/Ios.antt =====
-- The suspension of src/ios/suspension.m: a background task of the application for as long as a worklet
-- suspends. A task is named by its identifier, none being `UIBackgroundTaskInvalid`. The worklet's lock
-- lets one call in at a time; the expiration handlers run on a thread of the system.
pub mod Tasks
mod Tests
use bare_kit.Prelude.{
  ℕ, zero, suc, ◌+◌, ℤ, pos, negsuc, Bool, true, false, Option, none, some, ◌==◌, ltb,
  if◌then◌else◌,
}
use bare_kit.Ring.{update}

-- Where the call under the lock is: in none, behind `beginBackgroundTaskWithName:`, or behind the
-- exchange with what it took out of the task.
pub data Caller : Type 0 where
  resting : Caller
  begun took : Option ℕ → Caller

-- Where the expiration handler of a task is: not run, behind its compare and exchange, or run.
pub data Handler : Type 0 where
  armed marked ran : Handler

-- `identifier` of the task; and which tasks the application has begun, and how often each was ended.
pub record Device : Type 0 where
  pub identifier : Option ℕ
  pub caller : Caller
  pub handler : ℕ → Handler
  pub has_begun : ℕ → Bool
  pub ended : ℕ → ℕ

abbrev pub is_task : Option ℕ → ℕ → Bool
is_task none k = false
is_task (some j) k = j == k

-- `bare_suspension_init`
abbrev pub suspension_init : Device
suspension_init = record {
  identifier = none;
  caller = resting;
  handler = λ k. armed;
  has_begun = λ k. false;
  ended = λ k. 0;
}

-- `[app endBackgroundTask:prev]`, unless it is invalid.
abbrev pub end_task : Option ℕ → Device → Device
end_task none d = d
end_task (some k) d = record d { ended = update d.ended k (d.ended k + 1) }

-- `bare_suspension_start`, in three: the application begins a task or cannot, the atomic exchange, and
-- the end of the task before.
unfoldable pub start_begin : Option ℕ → Device → Device
start_begin next d = record d {
  caller = begun next;
  has_begun = λ k. if is_task next k then true else d.has_begun k;
}

unfoldable pub start_exchange : Option ℕ → Device → Device
start_exchange next d = record d { identifier = next; caller = took d.identifier }

unfoldable pub end_previous : Option ℕ → Device → Device
end_previous prev d = record (end_task prev d) { caller = resting }

-- The atomic exchange of `bare_suspension_end`, which ends the task that it takes out likewise.
unfoldable pub end_exchange : Device → Device
end_exchange d = record d { identifier = none; caller = took d.identifier }

-- The expiration handler: its compare and exchange, and its end of the task.
unfoldable pub expire : ℕ → Device → Device
expire k d = record d {
  identifier = if is_task d.identifier k then none else d.identifier;
  handler = update d.handler k marked;
}

unfoldable pub end_expired : ℕ → Device → Device
end_expired k d = record (end_task (some k) d) { handler = update d.handler k ran }

-- What `bare_suspension_start` returns, in milliseconds: with no application, and with one that has
-- `remaining` left, or no limit.
unfoldable pub time_alone : ℤ → ℤ
time_alone (negsuc n) = pos 30000
time_alone (pos n) = pos n

abbrev pub limit : Option ℕ → ℕ
limit none = 30000
limit (some remaining) = remaining

unfoldable pub time_of : Option ℕ → ℤ → ℕ
time_of remaining (negsuc n) = limit remaining
time_of remaining (pos n) = if ltb (limit remaining) n then limit remaining else n
