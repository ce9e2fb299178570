-- ===== src/Worklet/Bundle/Tests.antt =====
-- Runs of the stream of src/worklet.js at a concrete queue.
use bare_kit.Prelude.{
  ◌≡◌, ◌<◌, ◌⊎◌, refl, List, [], ◌∷◌, Bool, true, false, Option, none, some, arith, ltb, length,
}
use bare_kit.Ring.{Message}
use bare_kit.Ring.Refine.{contents, window}
use bare_kit.Queue.State.{opened, Queue}
use bare_kit.Queue.Calls.{Call, run}
use bare_kit.Queue.Refine.{view}
use bare_kit.Queue.Wake.{signals}
use bare_kit.Worklet.Bundle.{Push, IpcStream, on_signal}
use bare_kit.Worklet.Bundle.Ready.{IsReady}
use bare_kit.Worklet.Bundle.Settled.{could_go_on, on_signal-wakes}
use bare_kit.Worklet.Bundle.Events.{
  Event, writes, others, Story, story, AllApt, IsApt, take_event, HoldsBehind,
}
use bare_kit.Worklet.Bundle.Events.Carry.{Carries}
use bare_kit.Worklet.Bundle.Events.Duplex.{story-Carries}

abbrev lone : Message
lone = record { base = some (record { address = 0; bytes = 6 ∷ [] }); len = 1 }

abbrev queue : Queue
queue = record {
  to_uv = record { slots = λ i. lone; head = 1; tail = 0 };
  to_thread = record { slots = λ i. lone; head = 0; tail = 0 };
  uv_state = opened;
  thread_state = opened;
  destroyed = false;
  on_signal_thread = some 7;
  on_recv_uv = some 8;
  uv_port = record { is_uv = true; user = 2 };
  thread_port = record { is_uv = false; user = 1 };
}

-- The host has sent a byte, a write of two bytes waits, and the stream is being read.
abbrev stream : IpcStream
stream = record {
  reading = true;
  pending = some (8 ∷ 9 ∷ [], 3);
  destroying = false;
  holds_loop = true;
  world = record { queue = queue; next = 1; trace = [] };
  pushed = [];
  answered = [];
}

stream-IsReady : IsReady stream.world
unfolding view contents window
stream-IsReady = record {
  sound = record {
    to_uv_valid = record { head_in = omega arith; tail_in = omega arith };
    to_thread_valid = record { head_in = omega arith; tail_in = omega arith };
  };
  whole = record {
    full_to_uv =
        ((record { address = 0; bytes = 6 ∷ [] }, refl, refl, omega arith, omega arith), tt);
    full_to_thread = tt;
  };
  kept = refl;
}

-- The reader takes two chunks.
abbrev few : List Push → Bool
few l = ltb (length l) 2

abbrev behind : List Call
behind = Call.writes false (4 ∷ []) 1 ∷ Call.reads false ∷ []

on_signal-wakes_example :
    (s' : IpcStream) × (on_signal few stream ≡ some s')
    × ((could_go_on s' (view (run behind s'.world).1.queue) ≡ false)
        ⊎ (signals true s'.world.trace < signals true (run behind s'.world).1.trace))
unfolding view
on_signal-wakes_example =
    on_signal-wakes few behind stream stream-IsReady refl (omega arith) (refl, (refl, tt))

-- Nothing waits: a write, a byte from the host, a read there, and a signal.
abbrev free_stream : IpcStream
free_stream = record stream { pending = none }

abbrev sends_byte : Event
sends_byte = others (Call.writes false (4 ∷ []) 1)

abbrev host_reads : Event
host_reads = others (Call.reads false)

abbrev later_events : List Event
later_events = host_reads ∷ Event.signals ∷ []

abbrev events : List Event
events = writes (8 ∷ 9 ∷ []) 3 ∷ sends_byte ∷ later_events

holds_everywhere :
    (o : Option IpcStream) (P : IpcStream → Type 0) → ((s : IpcStream) → P s) → HoldsBehind o P
holds_everywhere none P h = tt
holds_everywhere (some s) P h = h s

-- What needs nothing of the stream is apt at every stream, if what comes behind is.
apt_behind :
    (e : Event) (es : List Event) (s : IpcStream)
    → IsApt e s
    → ((t : IpcStream) → AllApt few es t)
    → AllApt few (e ∷ es) s
apt_behind e es s a h = (a, holds_everywhere (take_event few e s) (AllApt few es) h)

events-AllApt : AllApt few events free_stream
events-AllApt =
    apt_behind (writes (8 ∷ 9 ∷ []) 3) (sends_byte ∷ later_events) free_stream refl (λ s.
      apt_behind sends_byte later_events s (refl, omega arith)
        (λ t.
          apt_behind host_reads (Event.signals ∷ []) t (refl, tt)
            (λ u. apt_behind Event.signals [] u tt (λ v. tt))))

story-Carries_example :
    (t : Story) × (story few events free_stream ≡ some t)
    × Carries t.given t.sends t.reads t.asked free_stream t.after
story-Carries_example = story-Carries few events free_stream stream-IsReady events-AllApt
