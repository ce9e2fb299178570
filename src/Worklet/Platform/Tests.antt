-- ===== src/Worklet/Platform/Tests.antt =====
-- A run of the threads that share the platform of src/worklet.c: one worklet, and a teardown.
use bare_kit.Prelude.{◌≡◌, ◌≤◌, ◌⊎◌, refl, true, false, Option, none, some, arith}
use bare_kit.Ring.{update}
use bare_kit.Worklet.Process.{
  unstarted, starting, alive, stopped, admit, on_stopped, begin_teardown, may_finish,
}
use bare_kit.Worklet.Process.Count.{System, admits, creates, stops}
use bare_kit.Worklet.Platform.{Platform, ended, unborn, thread_step, worklet_step, teardown_step}
use bare_kit.Worklet.Platform.Steps.{
  lives, owns, runs, tears, Reached, starts, acts, no_platform, is_inside, teardown_rank,
}
use bare_kit.Worklet.Platform.Order.{used_while_there, returned_clean}

abbrev behind : Option Platform → Platform → Platform
behind none s = s
behind (some t) s = t

abbrev owner : Platform → Platform
owner s = behind (thread_step s) s

abbrev user : Platform → Platform
user s = behind (worklet_step 0 s) s

abbrev ender : Platform → Platform
ender s = behind (teardown_step s) s

-- The worklet has been admitted and got its thread.
abbrev living : Platform
living = record no_platform {
  core = record {
    process = record { running = 1; torn_down = false };
    life = update (update (λ i. unstarted) 0 starting) 0 alive;
  };
}

living-Reached : Reached 1 living
unfolding admit
living-Reached =
    acts (acts starts (lives (admits 0 (omega arith) refl) (λ i h. ground (arith, h))))
      (lives (creates 0 (omega arith) refl) (λ i h. ground (arith, h)))

-- It has come to the barrier, and the thread of the platform too.
abbrev met : Platform
met = owner (owner (owner (user (user (user (user living))))))

abbrev used : Platform
used = user (user (owner met))

met-Reached : Reached 1 met
unfolding thread_step worklet_step
met-Reached =
    acts
      (acts
        (acts
          (acts
            (acts
              (acts (acts living-Reached (runs 0 (omega arith) refl refl))
                (runs 0 (omega arith) refl refl))
              (runs 0 (omega arith) refl refl))
            (runs 0 (omega arith) refl refl))
          (owns refl))
        (owns refl))
      (owns refl)

used-Reached : Reached 1 used
unfolding thread_step worklet_step
used-Reached =
    acts (acts (acts met-Reached (owns refl)) (runs 0 (omega arith) refl refl))
      (runs 0 (omega arith) refl refl)

used_while_there_example :
    (used.has_platform ≡ true) × (used.live ≡ true) × (teardown_rank used.teardown ≤ 1)
unfolding thread_step worklet_step
used_while_there_example = used_while_there 0 used-Reached refl

-- The worklet stops, and the teardown runs to its end.
abbrev stopped_system : System
stopped_system = record {
  process = (on_stopped (user used).core.process).1;
  life = update (user used).core.life 0 stopped;
}

abbrev over : Platform
over = record (user used) { core = stopped_system }

over-Reached : Reached 1 over
unfolding thread_step worklet_step
over-Reached =
    acts (acts used-Reached (runs 0 (omega arith) refl refl))
      (lives (stops 0 (omega arith) refl) (λ i h. ground (arith, h)))

abbrev torn_down : Platform
torn_down = ender (owner (owner (owner (ender (ender (ender over))))))

torn_down-Reached : Reached 1 torn_down
unfolding thread_step worklet_step teardown_step on_stopped may_finish begin_teardown
torn_down-Reached =
    acts
      (acts
        (acts
          (acts (acts (acts (acts over-Reached (tears refl)) (tears refl)) (tears refl))
            (owns refl))
          (owns refl))
        (owns refl))
      (tears refl)

returned_clean_example :
    ((torn_down.thread ≡ ended) ⊎ (torn_down.thread ≡ unborn))
    × (torn_down.live ≡ false)
    × (is_inside (torn_down.uses 0) ≡ false)
unfolding thread_step worklet_step teardown_step on_stopped may_finish begin_teardown
returned_clean_example = returned_clean 0 torn_down-Reached refl
