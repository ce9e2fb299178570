-- ===== src/Worklet/State.antt =====
-- `bare_worklet_state_t` of src/worklet.c: what the host and the worklet's thread share. Bare itself
-- and the platform's suspension are outside: the calls of them are recorded in a log, newest first,
-- with the lock and the host's lifecycle callbacks. `src/suspension.c` is the suspension of every
-- platform but iOS.
use bare_kit.Prelude.{ℕ, ℤ, pos, negsuc, List, ◌∷◌, Bool, Option}

-- A function pointer of the host with its data pointer.
pub record Hook : Type 0 where
  pub fn : Option ℕ
  pub user : ℕ

pub record Callbacks : Type 0 where
  pub suspend : Hook
  pub wakeup : Hook
  pub idle : Hook
  pub resume : Hook
  pub exit : Hook

-- `bare` is whether the pointer to the runtime is set.
pub record State : Type 0 where
  pub finished : Bool
  pub bare : Bool
  pub suspended : Bool
  pub resuming : Bool
  pub callbacks : Callbacks

pub data Note : Type 0 where
  lock unlock : Note
  suspension_start : ℤ → Note
  suspension_end : Note
  bare_suspend bare_wakeup : ℤ → Note
  bare_resume bare_terminate : Note
  calls_suspend calls_wakeup : ℕ → ℤ → ℕ → Note
  calls_idle calls_resume : ℕ → ℕ → Note
  calls_exit : ℕ → ℤ → ℕ → Note

pub record Shared : Type 0 where
  pub state : State
  pub log : List Note

abbrev pub note : Note → Shared → Shared
note n s = record s { log = n ∷ s.log }

-- `bare_suspension_start`: the time that a suspension lingers for.
unfoldable pub linger_time : ℤ → ℤ
linger_time (pos n) = pos n
linger_time (negsuc n) = pos 30000
