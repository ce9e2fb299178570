-- ===== src/Worklet/Platform/Steps.antt =====
-- The threads that share the platform of src/worklet.c, in any order of their actions.
use bare_kit.Prelude.{◌+◌, ℕ, ◌≤◌, ◌<◌, ◌≡◌, ◌⊎◌, Bool, true, false, ◌&&◌, some, leb, if◌then◌else◌}
use bare_kit.Worklet.Process.{Life, alive, stopped}
use bare_kit.Worklet.Process.Count.{System, Step, Reach, fresh, IsOver}
use bare_kit.Worklet.Platform.{
  begun, barrier_made, thread_made, at_barrier, Once, unused, done, busy, Stage, unborn, started,
  listening, created, arrived, serving, closing, destroyed, ended, Async, uninitialised,
  open_handle, sent, closed_handle, Use, before, past, using, left, Teardown, idle, waits, waited,
  joins, returned, Platform, thread_step, worklet_step, teardown_step,
}

-- A worklet is admitted, gets its thread or stops, which it does only when it is done with the platform;
-- or one of the threads acts.
pub data Act (n : ℕ) (s : Platform) : Platform → Type 0 where
  lives :
      {c : System}
      → Step n s.core c
      → ((i : ℕ) → c.life i ≡ stopped → s.uses i ≡ left)
      → Act n s (record s { core = c })
  owns : {t : Platform} → thread_step s ≡ some t → Act n s t
  runs :
      {t : Platform} (i : ℕ) → i < n → s.core.life i ≡ alive → worklet_step i s ≡ some t → Act n s t
  tears : {t : Platform} → teardown_step s ≡ some t → Act n s t

abbrev pub no_platform : Platform
no_platform = record {
  core = fresh;
  once = unused;
  thread = unborn;
  at_ready = 0;
  async = uninitialised;
  has_platform = false;
  live = false;
  uses = λ i. before;
  teardown = idle;
}

pub data Reached (n : ℕ) : Platform → Type 0 where
  starts : Reached n no_platform
  acts : {s t : Platform} → Reached n s → Act n s t → Reached n t

abbrev pub stage_rank : Stage → ℕ
stage_rank unborn = 0
stage_rank started = 1
stage_rank listening = 2
stage_rank created = 3
stage_rank arrived = 4
stage_rank serving = 5
stage_rank closing = 6
stage_rank destroyed = 7
stage_rank ended = 8

abbrev pub teardown_rank : Teardown → ℕ
teardown_rank idle = 0
teardown_rank waits = 1
teardown_rank waited = 2
teardown_rank joins = 3
teardown_rank returned = 4

-- Past the guard, and not done with the platform.
abbrev pub is_inside : Use → Bool
is_inside past = true
is_inside using = true
is_inside _ = false

abbrev pub arrivals : Stage → ℕ
arrivals r = if leb 4 (stage_rank r) then 1 else 0

abbrev pub IsBefore : ℕ → ℕ → (ℕ → Life) → (ℕ → Use) → Type 0
IsBefore n i life uses = (i < n) × (life i ≡ alive) × (uses i ≡ before)

-- What the guard says of the thread of the platform and of the barrier.
abbrev pub Guards : ℕ → Once → (ℕ → Life) → (ℕ → Use) → Stage → ℕ → Type 0
Guards n unused life uses g k = g ≡ unborn
Guards n done life uses g k = 4 ≤ stage_rank g
Guards n (busy i begun) life uses g k = IsBefore n i life uses × (g ≡ unborn)
Guards n (busy i barrier_made) life uses g k = IsBefore n i life uses × (g ≡ unborn) × (k ≡ 0)
Guards n (busy i thread_made) life uses g k =
    IsBefore n i life uses × (1 ≤ stage_rank g) × (stage_rank g ≤ 4) × (k ≡ arrivals g)
Guards n (busy i at_barrier) life uses g k =
    IsBefore n i life uses × (1 ≤ stage_rank g) × (k ≡ 1 + arrivals g)

-- What the stage of the thread says of its handle.
abbrev pub AsyncOf : Stage → Async → Type 0
AsyncOf unborn a = a ≡ uninitialised
AsyncOf started a = a ≡ uninitialised
AsyncOf closing a = a ≡ closed_handle
AsyncOf destroyed a = a ≡ closed_handle
AsyncOf ended a = a ≡ closed_handle
AsyncOf _ a = (a ≡ open_handle) ⊎ (a ≡ sent)

pub record IsOrderly (n : ℕ) (s : Platform) : Type 0 where
  pub reached : Reach n s.core
  pub over : 2 ≤ teardown_rank s.teardown → IsOver n s.core
  pub marked : 1 ≤ teardown_rank s.teardown → s.core.process.torn_down ≡ true
  pub inside :
      (i : ℕ) → is_inside (s.uses i) ≡ true → (i < n) × (s.core.life i ≡ alive) × (s.once ≡ done)
  pub guards : Guards n s.once s.core.life s.uses s.thread s.at_ready
  pub pointer : s.has_platform ≡ leb 3 (stage_rank s.thread)
  pub alive_platform : s.live ≡ (leb 3 (stage_rank s.thread) && leb (stage_rank s.thread) 6)
  pub handle : AsyncOf s.thread s.async
  pub sends : s.async ≡ sent → 3 ≤ teardown_rank s.teardown
  pub closes : 6 ≤ stage_rank s.thread → 3 ≤ teardown_rank s.teardown
  pub returns : s.teardown ≡ returned → (s.thread ≡ ended) ⊎ (s.thread ≡ unborn)
