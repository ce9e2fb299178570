-- ===== src/Queue/Wake/Steps.antt =====
-- Which calls of src/queue.c signal which end.
use bare_kit.Prelude.{
  ℕ, zero, suc, ◌+◌, ◌≡◌, ap, sym, ◌∙◌, List, Bool, true, false, not, ◌&&◌, Option, none, some,
  arith, ◌==◌, if◌then◌else◌, length, cap_int, Bool-cases, inl, inr,
}
use bare_kit.Ring.{Ring, ring_full, ring_shift}
use bare_kit.Ring.Inv.{IsValid}
use bare_kit.Ring.Refine.{contents, ring_full_lem, length-contents}
use bare_kit.Queue.State.{idle, ended, closed, rank, World}
use bare_kit.Queue.Channel.{Channel, incoming}
use bare_kit.Queue.Calls.{Call, step, is_nil}
use bare_kit.Queue.Ops.{end, close, open_thread, on_wakeup_uv, shutdown_uv, readable, writable}
use bare_kit.Queue.Inv.{IsSound}
use bare_kit.Queue.Refine.{view}
use bare_kit.Queue.Correct.{fresh_block, ring_empty-is_nil, write_of_zero, published}
use bare_kit.Queue.Wake.{
  signals, heard, woken, write-signals, read-signals, advance-signals, has_message,
  signal_thread-signals,
}
use bare_kit.Queue.Wake.Effects.{sends_first, starts_lem}
use bare_kit.Queue.Wake.Space.{takes_from_full}
use bare_kit.Queue.Wake.Reader.{destroy-signals}
use bare_kit.Queue.Wake.Open.{open_uv-signals}

abbrev pub is_same : Bool → Bool → Bool
is_same true b = b
is_same false b = not b

-- Whether a call changes what the end `b` waits for.
abbrev pub stirs : Bool → Call → Channel → Bool
stirs b (Call.writes p source zero) c = false
stirs b (Call.writes p source (suc k)) c = not (is_same b p) && sends_first p c
stirs b (Call.reads p) c = not (is_same b p) && (length (incoming p c) == 1023)
stirs b (Call.ends p) c = not (is_same b p)
stirs b (Call.closes p) c = not (is_same b p)
stirs true (Call.opens_uv f user) c = not (is_nil c.to_uv)
stirs false (Call.opens_thread (some f) user) c =
    (rank c.thread_state == rank idle) && not (is_nil c.to_thread)
stirs _ _ c = false

-- Whether the end hears of it: opening an end lets it hear.
abbrev pub hears_of : Bool → Call → World → Bool
hears_of true (Call.opens_uv f user) w = true
hears_of false (Call.opens_thread f user) w = true
hears_of b c w = heard b w.queue

abbrev pub one_if : Bool → ℕ
one_if b = if b then 1 else 0

-- One more signal to `b` if the call stirs it and it hears of that.
abbrev Counts : Bool → Call → World → Type 0
Counts b c w =
    signals b (step c w).1.trace
    ≡ signals b w.trace + one_if (stirs b c (view w.queue) && hears_of b c w)

woken-one_if :
    (go b : Bool) (w : World) → woken go b w ≡ signals b w.trace + one_if (go && heard b w.queue)
woken-one_if go b w = ground arith

none_more : (n : ℕ) → n ≡ n + 0
none_more n = omega arith

writes-Counts :
    (b p : Bool) (source : List ℕ) (len : ℕ) (w : World)
    → IsSound w.queue
    → Counts b (Call.writes p source len) w
unfolding step
writes-Counts true p source zero w v = rw (write_of_zero p source w) (none_more _)
writes-Counts false p source zero w v = rw (write_of_zero p source w) (none_more _)
writes-Counts true true source (suc k) w v =
    (write-signals true source (suc k) w (omega arith)).1 ∙ none_more _
writes-Counts false false source (suc k) w v =
    (write-signals false source (suc k) w (omega arith)).1 ∙ none_more _
writes-Counts true false source (suc k) w v =
    (write-signals false source (suc k) w (omega arith)).0
    ∙ ap (λ g. woken g true w)
        (starts_lem false (fresh_block w source (cap_int (suc k))) (cap_int (suc k)) w v)
    ∙ woken-one_if (sends_first false (view w.queue)) true w
writes-Counts false true source (suc k) w v =
    (write-signals true source (suc k) w (omega arith)).0
    ∙ ap (λ g. woken g false w)
        (starts_lem true (fresh_block w source (cap_int (suc k))) (cap_int (suc k)) w v)
    ∙ woken-one_if (sends_first true (view w.queue)) false w

takes_full :
    (r : Ring)
    → IsValid r
    → (has_message (ring_shift r).0 && ring_full r) ≡ (length (contents r) == 1023)
takes_full r v = elim (Bool-cases (length (contents r) == 1023)) [
  | inl e ↦ takes_from_full r v (ground (arith, e)) ∙ sym e
  | inr e ↦ ground (arith, e, ring_full_lem r v, length-contents r)
]

reads-Counts : (b p : Bool) (w : World) → IsSound w.queue → Counts b (Call.reads p) w
unfolding step view
reads-Counts true true w v = (read-signals true w).1 ∙ none_more _
reads-Counts false false w v = (read-signals false w).1 ∙ none_more _
reads-Counts true false w v =
    (read-signals false w).0
    ∙ ap (λ g. woken g true w) (takes_full w.queue.to_thread v.to_thread_valid)
    ∙ woken-one_if (length (contents w.queue.to_thread) == 1023) true w
reads-Counts false true w v =
    (read-signals true w).0
    ∙ ap (λ g. woken g false w) (takes_full w.queue.to_uv v.to_uv_valid)
    ∙ woken-one_if (length (contents w.queue.to_uv) == 1023) false w

opens_uv-Counts :
    (b : Bool) (f user : ℕ) (w : World) → IsSound w.queue → Counts b (Call.opens_uv f user) w
unfolding step view
opens_uv-Counts true f user w v =
    (open_uv-signals f user w).0 ∙ ground (arith, ring_empty-is_nil w.queue.to_uv v.to_uv_valid)
opens_uv-Counts false f user w v = (open_uv-signals f user w).1 ∙ none_more _

opens_thread-Counts :
    (b : Bool) (f : Option ℕ) (user : ℕ) (w : World)
    → IsSound w.queue
    → Counts b (Call.opens_thread f user) w
unfolding step view open_thread signals
opens_thread-Counts true f user w v = ground (arith, signal_thread-signals (published f user w))
opens_thread-Counts false none user w v =
    ground (arith, signal_thread-signals (published none user w))
opens_thread-Counts false (some f) user w v = ground (
  arith,
  ring_empty-is_nil w.queue.to_thread v.to_thread_valid,
  signal_thread-signals (published (some f) user w),
)

ends-Counts : (b p : Bool) (w : World) → IsSound w.queue → Counts b (Call.ends p) w
unfolding step end
ends-Counts true true w v = (advance-signals true ended w v).1 ∙ none_more _
ends-Counts false false w v = (advance-signals false ended w v).1 ∙ none_more _
ends-Counts true false w v = (advance-signals false ended w v).0 ∙ woken-one_if true true w
ends-Counts false true w v = (advance-signals true ended w v).0 ∙ woken-one_if true false w

closes-Counts : (b p : Bool) (w : World) → IsSound w.queue → Counts b (Call.closes p) w
unfolding step close
closes-Counts true true w v = (advance-signals true closed w v).1 ∙ none_more _
closes-Counts false false w v = (advance-signals false closed w v).1 ∙ none_more _
closes-Counts true false w v = (advance-signals false closed w v).0 ∙ woken-one_if true true w
closes-Counts false true w v = (advance-signals true closed w v).0 ∙ woken-one_if true false w

wakes-Counts : (b : Bool) (w : World) → Counts b Call.wakes w
unfolding step on_wakeup_uv signals
wakes-Counts true w = ground arith
wakes-Counts false w = ground arith

shuts_down-Counts : (b : Bool) (w : World) → Counts b Call.shuts_down w
unfolding step shutdown_uv signals
shuts_down-Counts true w = none_more _
shuts_down-Counts false w = none_more _

asks_readable-Counts : (b p : Bool) (w : World) → Counts b (Call.asks_readable p) w
unfolding step readable signals
asks_readable-Counts true p w = none_more _
asks_readable-Counts false p w = none_more _

asks_writable-Counts : (b p : Bool) (w : World) → Counts b (Call.asks_writable p) w
unfolding step writable signals
asks_writable-Counts true p w = none_more _
asks_writable-Counts false p w = none_more _

destroys-Counts : (b : Bool) (w : World) → IsSound w.queue → Counts b Call.destroys w
unfolding step
destroys-Counts b w v = destroy-signals b w v ∙ none_more _

-- At valid rings, a call signals an end, once, exactly if that end hears it and the call is of the
-- other end and puts a message on an empty list, takes one from a full list, or ends or closes, or
-- opens the end, the first time for the host's and with a callback, where messages are waiting; and
-- no other call signals it.
pub step-signals :
    (b : Bool) (c : Call) (w : World)
    → IsSound w.queue
    → signals b (step c w).1.trace
      ≡ signals b w.trace + one_if (stirs b c (view w.queue) && hears_of b c w)
step-signals b Call.wakes w v = wakes-Counts b w
step-signals b Call.shuts_down w v = shuts_down-Counts b w
step-signals b Call.destroys w v = destroys-Counts b w v
step-signals b (Call.opens_uv f user) w v = opens_uv-Counts b f user w v
step-signals b (Call.opens_thread f user) w v = opens_thread-Counts b f user w v
step-signals b (Call.writes p source len) w v = writes-Counts b p source len w v
step-signals b (Call.reads p) w v = reads-Counts b p w v
step-signals b (Call.ends p) w v = ends-Counts b p w v
step-signals b (Call.closes p) w v = closes-Counts b p w v
step-signals b (Call.asks_readable p) w v = asks_readable-Counts b p w
step-signals b (Call.asks_writable p) w v = asks_writable-Counts b p w
