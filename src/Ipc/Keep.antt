-- ===== src/Ipc/Keep.antt =====
-- What the calls on an ipc of src/ipc.c keep, over any history of them.
use bare_kit.Prelude.{
  ℕ, ◌≡◌, ap, sym, ◌∙◌, subst, ℤ, List, [], ◌∷◌, Bool, true, false, arith, if◌then◌else◌, not, ◌==◌,
}
use bare_kit.Ring.Refine.{contents}
use bare_kit.Queue.State.{World, ended, closed, queue_closed}
use bare_kit.Queue.Ops
use bare_kit.Queue.Channel.{Channel, move_to, send}
use bare_kit.Queue.Calls.{Call, step, answer, Model, release}
use bare_kit.Queue.Inv.{IsSound}
use bare_kit.Queue.Refine.{view}
use bare_kit.Queue.Correct.{model, step-Refines}
use bare_kit.Ipc.State.{Act, Host, act}
use bare_kit.Ipc.Ops.{read, write, end, close}
use bare_kit.Queue.Payload.{AllFull}
use bare_kit.Ipc.Stream.{IsGood}
use bare_kit.Ipc.Read.{read-ReadsWell}

-- The messages on their way to the host, behind a call of the host's end.
record Holds (w w' : World) : Type 0 where
  sound : IsSound w'.queue
  full : AllFull (contents w.queue.to_thread) → AllFull (contents w'.queue.to_thread)

writes-full :
    (source : List ℕ) (len : ℕ) (m : Model)
    → (answer (Call.writes false source len) m).1.0.to_thread ≡ m.0.to_thread
unfolding answer send
writes-full source len (c, n) = ground arith

release-full : (c : Channel) → AllFull c.to_thread → AllFull (release c).to_thread
release-full c f = ground (arith, f)

end_full : (c : Channel) → AllFull c.to_thread → AllFull (release (move_to false ended c)).to_thread
unfolding move_to
end_full c f = release-full (move_to false ended c) (ground (arith, f))

close_full :
    (c : Channel) → AllFull c.to_thread → AllFull (release (move_to false closed c)).to_thread
unfolding move_to
close_full c f = release-full (move_to false closed c) (ground (arith, f))

step-to_thread :
    (c : Call) (w : World)
    → IsSound w.queue
    → contents (step c w).1.queue.to_thread ≡ (answer c (model w)).1.0.to_thread
unfolding view
step-to_thread c w v = ap (λ (m : Model). m.0.to_thread) (step-Refines c w v).moves

writes-Holds :
    (source : List ℕ) (len : ℕ) (w : World)
    → IsSound w.queue
    → Holds w (Ops.write false source len w).1
unfolding step view
writes-Holds source len w v = record {
  sound = (step-Refines (Call.writes false source len) w v).sound;
  full = λ f.
      subst AllFull
        (sym (step-to_thread (Call.writes false source len) w v ∙ writes-full source len (model w)))
        f;
}

ends-Holds : (w : World) → IsSound w.queue → Holds w (Ops.end false w)
unfolding step view answer
ends-Holds w v = record {
  sound = (step-Refines (Call.ends false) w v).sound;
  full =
      λ f. subst AllFull (sym (step-to_thread (Call.ends false) w v)) (end_full (view w.queue) f);
}

closes-Holds : (w : World) → IsSound w.queue → Holds w (Ops.close false w)
unfolding step view answer
closes-Holds w v = record {
  sound = (step-Refines (Call.closes false) w v).sound;
  full = λ f.
      subst AllFull (sym (step-to_thread (Call.closes false) w v)) (close_full (view w.queue) f);
}

-- A call on the port of an ipc, if that is there, and the unlock.
ported :
    (b : Bool) (k h : Host) → IsGood k → IsGood h → IsGood (act Act.unlock (if b then k else h))
ported true k h g g' = record { sound = g.sound; full = g.full; left = g.left }
ported false k h g g' = record { sound = g'.sound; full = g'.full; left = g'.left }

written_world :
    (b : Bool) (n m : ℤ) (k w : World)
    → Holds w k
    → IsSound w.queue
    → let r : ℤ × World = if b then (n, k) else (m, w) in Holds w r.1
written_world true n m k w h v = h
written_world false n m k w h v = record { sound = v; full = λ f. f }

lock-IsGood : (h : Host) → IsGood h → IsGood (act Act.lock h)
lock-IsGood h g = record { sound = g.sound; full = g.full; left = g.left }

write-IsGood : (source : List ℕ) (len : ℕ) (h : Host) → IsGood h → IsGood (write source len h).1
unfolding write
write-IsGood source len h g =
    let out = Ops.write false source len h.world in
    let k =
      written_world h.ipc.port out.0 queue_closed out.1 h.world
        (writes-Holds source len h.world g.sound) g.sound in
    record { sound = k.sound; full = k.full g.full; left = g.left }

end-IsGood : (h : Host) → IsGood h → IsGood (end h)
unfolding end
end-IsGood h g =
    let k = ends-Holds h.world g.sound in
    ported h.ipc.port _ (act Act.lock h)
      (record { sound = k.sound; full = k.full g.full; left = g.left }) (lock-IsGood h g)

close-IsGood : (h : Host) → IsGood h → IsGood (close h)
unfolding close
close-IsGood h g =
    let k = closes-Holds h.world g.sound in
    ported h.ipc.port _ (act Act.lock h)
      (record { sound = k.sound; full = k.full g.full; left = tt }) (lock-IsGood h g)

pub data Use : Type 0 where
  reads : ℕ → Use
  writes : List ℕ → ℕ → Use
  ends closes : Use

-- A read must have room for a byte.
abbrev pub has_room : Use → Bool
has_room (reads len) = not (len == 0)
has_room _ = true

unfoldable pub use_one : Use → Host → Host
use_one (reads len) h = (read len h).2
use_one (writes source len) h = (write source len h).1
use_one ends h = end h
use_one closes h = close h

unfoldable pub uses : List Use → Host → Host
uses [] h = h
uses (u ∷ us) h = uses us (use_one u h)

abbrev pub AllRoom : List Use → Type 0
AllRoom [] = Unit {0}
AllRoom (u ∷ us) = (has_room u ≡ true) × AllRoom us

pub use_one-IsGood : (u : Use) (h : Host) → has_room u ≡ true → IsGood h → IsGood (use_one u h)
unfolding use_one
use_one-IsGood (reads len) h r g = (read-ReadsWell len h (ground arith) g).good
use_one-IsGood (writes source len) h r g = write-IsGood source len h g
use_one-IsGood ends h r g = end-IsGood h g
use_one-IsGood closes h r g = close-IsGood h g

-- Any history of reads with room for at least one byte, writes, ends and closes keeps an ipc whose
-- rings are valid, whose messages are whole and whose offset is inside the message at hand such an
-- ipc.
pub uses-IsGood : (us : List Use) (h : Host) → AllRoom us → IsGood h → IsGood (uses us h)
unfolding uses
uses-IsGood [] h r g = g
uses-IsGood (u ∷ us) h r g = uses-IsGood us (use_one u h) r.1 (use_one-IsGood u h r.0 g)
