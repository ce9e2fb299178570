-- ===== src/Ios/Tests.antt =====
-- A run of the suspension of src/ios/suspension.m: a task that expires, and another that is ended.
use bare_kit.Prelude.{◌+◌, ◌≡◌, ◌≤◌, refl, none, some, pos}
use bare_kit.Ios.{
  Device, suspension_init, start_begin, start_exchange, end_previous, end_exchange, expire,
  end_expired, time_of,
}
use bare_kit.Ios.Tasks.{Move, Reached, starts, moves, has_run, tasks_ended}

abbrev suspended : Device
suspended = end_previous none (start_exchange (some 5) (start_begin (some 5) suspension_init))

suspended-Reached : Reached suspended
unfolding start_begin start_exchange
suspended-Reached =
    moves (moves (moves starts (Move.begins_task 5 refl refl)) (Move.exchanges (some 5) refl))
      (Move.ends none refl)

abbrev resumed : Device
resumed = end_previous none (end_exchange (end_expired 5 (expire 5 suspended)))

resumed-Reached : Reached resumed
unfolding start_begin start_exchange end_previous end_exchange expire end_expired
resumed-Reached =
    moves
      (moves
        (moves (moves suspended-Reached (Move.expires 5 refl refl refl)) (Move.finishes 5 refl))
        (Move.takes refl))
      (Move.ends none refl)

tasks_ended_example : (1 ≤ resumed.ended 5) × (resumed.ended 5 ≤ 1 + has_run (resumed.handler 5))
unfolding start_begin start_exchange end_previous end_exchange expire end_expired
tasks_ended_example = tasks_ended 5 resumed-Reached refl refl (λ h. cc) refl

capped : time_of (some 4000) (pos 9000) ≡ 4000
unfolding time_of
capped = refl
