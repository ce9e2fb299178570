-- ===== src/Ipc/Tests.antt =====
-- A run of an ipc (src/ipc.c) at a concrete host.
use bare_kit.Prelude.{◌++◌, inl, List, ◌≡◌, refl, true, false, none, some, [], ◌∷◌, arith}
use mathlib.Core.Bool.{false≢true}
use bare_kit.Ring.{Message}
use bare_kit.Ring.Refine.{contents, window}
use bare_kit.Queue.State.{opened, Queue}
use bare_kit.Ipc.State.{Host, Poll}
use bare_kit.Ipc.Ops.{read}
use bare_kit.Ipc.Stream.{IsGood}
use bare_kit.Ipc.Stream.{stream}
use bare_kit.Queue.Calls.{Call}
use bare_kit.Ipc.Journey.{Turn, journey, IsOpen}
use bare_kit.Ipc.Journey.Order.{journey-stream}
use bare_kit.Ipc.Ops.{dispatch}
use bare_kit.Ipc.Ready.{ready_events, dispatched, dispatch_lem}
use bare_kit.Ipc.Keep.{Use, uses, uses-IsGood}
use bare_kit.Ipc.Signal.{
  Signal, signal_init, on_wake, on_close, signal_destroy, signal_thread_end, SignalReach,
  SignalStep, signal_frees_lem, signal_set_poll, is_outdated, signal_safe_lem,
}
use bare_kit.Ipc.Read.{ReadsWell, read-ReadsWell}

abbrev sent : Message
sent = record { base = some (record { address = 0; bytes = 1 ∷ 2 ∷ 3 ∷ [] }); len = 3 }

-- The worklet has sent three bytes, of which the host has not read any.
abbrev queue : Queue
queue = record {
  to_uv = record { slots = λ i. sent; head = 0; tail = 0 };
  to_thread = record { slots = λ i. sent; head = 1; tail = 0 };
  uv_state = opened;
  thread_state = opened;
  destroyed = false;
  on_signal_thread = some 7;
  on_recv_uv = some 8;
  uv_port = record { is_uv = true; user = 2 };
  thread_port = record { is_uv = false; user = 1 };
}

abbrev host : Host
host = record {
  ipc = record { port = true; pending = record { base = none; len = 0 }; offset = 0; poll = none };
  world = record { queue = queue; next = 1; trace = [] };
  log = [];
}

host-IsGood : IsGood host
unfolding contents window
host-IsGood = record {
  sound = record {
    to_uv_valid = record { head_in = omega arith; tail_in = omega arith };
    to_thread_valid = record { head_in = omega arith; tail_in = omega arith };
  };
  full =
      ((record { address = 0; bytes = 1 ∷ 2 ∷ 3 ∷ [] }, refl, refl, omega arith, omega arith), tt);
  left = tt;
}

read-ReadsWell_example : ReadsWell 2 host (read 2 host)
read-ReadsWell_example = read-ReadsWell 2 host (omega arith) host-IsGood

-- A poll that asks for both.
abbrev both : Poll
both = record { events = 3; cb = some 6; user = 0 }

abbrev polled : Host
polled = record host { ipc = record host.ipc { poll = some both } }

dispatch_lem_example : (dispatch polled).log ≡ dispatched 6 (ready_events polled 3) []
dispatch_lem_example =
    dispatch_lem polled both 6 refl refl (omega arith)
      (record { sound = host-IsGood.sound; full = host-IsGood.full; left = tt })

-- Two reads of a message in parts, a write, an end, and a read behind the close.
abbrev habits : List Use
habits =
    Use.reads 2 ∷ Use.reads 2 ∷ Use.writes (5 ∷ 6 ∷ []) 2 ∷ Use.ends ∷ Use.closes ∷ Use.reads 1 ∷ []

uses-IsGood_example : IsGood (uses habits host)
uses-IsGood_example =
    uses-IsGood habits host (refl, (refl, (refl, (refl, (refl, (refl, tt)))))) host-IsGood

host-IsOpen : IsOpen host
host-IsOpen = record { good = host-IsGood; has_port = refl; holds = refl }

-- A read in the middle of a message, another message from the worklet, and two reads behind it.
abbrev turns : List Turn
turns =
    Turn.host (Use.reads 2)
    ∷ Turn.worklet (Call.writes true (7 ∷ 8 ∷ []) 2)
    ∷ Turn.host (Use.reads 4)
    ∷ Turn.host (Use.writes (5 ∷ []) 1)
    ∷ Turn.worklet (Call.ends true)
    ∷ Turn.host (Use.reads 4)
    ∷ []

journey-stream_example :
    let out = journey turns host in stream host ++ out.sends ≡ out.reads ++ stream out.after
journey-stream_example =
    journey-stream turns host host-IsOpen
      (refl, ((refl, omega arith), (refl, (tt, ((refl, tt), (refl, tt))))))

-- A signal whose ipc is destroyed from within a callback, which returns.
abbrev left_signal : Signal
left_signal = record (signal_destroy true (on_wake signal_init)) { in_callback = false }

awake-SignalReach : SignalReach (on_wake signal_init)
awake-SignalReach = SignalReach.moves SignalReach.begins (SignalStep.wakes refl refl)

left-SignalReach : SignalReach left_signal
unfolding on_wake signal_destroy
left-SignalReach =
    SignalReach.moves (SignalReach.moves awake-SignalReach (SignalStep.destroys true refl refl))
      (SignalStep.returns refl)

signal_frees_lem_example : (signal_thread_end (on_close left_signal)).frees ≡ 1
unfolding on_wake signal_destroy on_close signal_thread_end
signal_frees_lem_example = signal_frees_lem (
    SignalReach.moves (SignalReach.moves left-SignalReach (SignalStep.closes refl refl refl))
      (SignalStep.finishes refl refl))

-- A poll is set, and a callback runs it.
abbrev polling : Signal
polling = record signal_init { poll = some 7 }

polling-SignalReach : SignalReach polling
unfolding signal_set_poll
polling-SignalReach =
    SignalReach.moves SignalReach.begins
      (SignalStep.sets false (some 7) (λ e. absurd (false≢true e)) refl refl)

abbrev woken : Signal
woken = on_wake polling

woken-SignalReach : SignalReach woken
woken-SignalReach = SignalReach.moves polling-SignalReach (SignalStep.wakes refl refl)

signal_safe_lem_example : (woken.frees ≡ 0) × (is_outdated woken ≡ false)
unfolding on_wake
signal_safe_lem_example = signal_safe_lem woken-SignalReach (inl refl)

-- While a callback runs, a poll set on another thread waits for it.
set_waits : signal_set_poll false (some 8) woken ≡ none
unfolding on_wake signal_set_poll
set_waits = refl
