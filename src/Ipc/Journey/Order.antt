-- ===== src/Ipc/Journey/Order.antt =====
-- The bytes read are the bytes sent, over any history of an ipc of src/ipc.c.
use bare_kit.Prelude.{◌≡◌, refl, List, [], ◌∷◌, ◌++◌, append-nil, join_carried}
use bare_kit.Ipc.State.{Host}
use bare_kit.Ipc.Ops.{write, end}
use bare_kit.Ipc.Stream.{stream}
use bare_kit.Ipc.Keep.{Use, use_one, use_one-IsGood}
use bare_kit.Ipc.Journey.{Turn, host, worklet, take_turn, journey, IsFit, AllFit, IsOpen}
use bare_kit.Ipc.Journey.Reading.{Carries, Spares-Carries, read-Carries, writes-Spares, ends-Spares}
use bare_kit.Ipc.Journey.Sending.{worklet-Carries}

take_turn-Carries : (t : Turn) (h : Host) → IsFit t → IsOpen h → Carries h (take_turn t h)
unfolding take_turn use_one
take_turn-Carries (host (Use.reads len)) h f o = read-Carries len h f o
take_turn-Carries (host (Use.writes source len)) h f o =
    Spares-Carries h (write source len h).1 (use_one-IsGood (Use.writes source len) h refl o.good) o
      (writes-Spares source len h o)
take_turn-Carries (host Use.ends) h f o =
    Spares-Carries h (end h) (use_one-IsGood Use.ends h refl o.good) o (ends-Spares h o)
take_turn-Carries (host Use.closes) h f o = absurd f
take_turn-Carries (worklet c) h f o = worklet-Carries c h f o

-- Over any history of the host's calls but close, each read with room for a byte, and of the
-- worklet's calls, each write with the bytes it says, at an ipc that has its port, with the host's
-- end opened and not closed, valid rings, whole messages and an offset inside the message at hand,
-- the bytes still to be read there at the start and those that the worklet sends in accepted writes
-- are the bytes that the reads give and those still to be read at the end, in the same order.
pub journey-stream :
    (ts : List Turn) (h : Host)
    → IsOpen h
    → AllFit ts
    → let out = journey ts h in stream h ++ out.sends ≡ out.reads ++ stream out.after
unfolding journey
journey-stream [] h o f = append-nil (stream h)
journey-stream (t ∷ ts) h o f =
    let c = take_turn-Carries t h f.0 o in
    let first = take_turn t h in
    join_carried (stream h) first.sends first.reads (stream first.after)
      (journey ts first.after).sends (journey ts first.after).reads
      (stream (journey ts first.after).after) c.bytes (journey-stream ts first.after c.still f.1)
