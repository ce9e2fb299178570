-- ===== src/Ipc/Ops.antt =====
-- The functions of src/ipc.c.
use bare_kit.Prelude.{
  ℕ, zero, suc, ◌+◌, ℤ, pos, negsuc, List, [], ◌∷◌, Bool, true, false, not, ◌&&◌, Option, none,
  some, ◌==◌, if◌then◌else◌, cap_int, to_int, take, drop, min,
}
use mathlib.Core.Option
use bare_kit.Ring.{Block, Message}
use bare_kit.Queue.State.{World, queue_closed}
use bare_kit.Queue.Ops
use bare_kit.Ipc.State.{
  ipc_would_block, ipc_error, ipc_readable, ipc_writable, Poll, Ipc, Act, Host, act, sub_size,
  clear, free_message,
}

abbrev pub no_message : Message
no_message = record { base = none; len = 0 }

-- `bare_ipc_create` on the queue of a worklet. `allocated` is whether `malloc` gives memory,
-- `err` what `bare_ipc__signal_init` returns, and `on_signal` the function `bare_ipc__on_signal`.
unfoldable pub create : Bool → ℤ → ℕ → World → ℤ × Option Ipc × World × List Act
create false err on_signal w = (negsuc 0, none, w, [])
create true (negsuc e) on_signal w = (negsuc e, none, w, Act.free_ipc ∷ Act.signal_init ∷ [])
create true (pos e) on_signal w =
    let (opened, w') = Ops.open_thread (some on_signal) 1 w in
    if opened
    then (
      pos 0,
      some (record { port = true; pending = no_message; offset = 0; poll = none }),
      w',
      Act.signal_init ∷ [],
    )
    else (negsuc 0, none, w', Act.free_ipc ∷ Act.signal_destroy ∷ Act.signal_init ∷ [])

abbrev close_port : Host → Host
close_port h =
    let freed = free_message h.ipc.pending.base h in
    act Act.signal (record freed {
      world = Ops.close false h.world;
      ipc = record h.ipc { port = false; pending = record h.ipc.pending { base = none } };
    })

unfoldable pub close : Host → Host
close h =
    let locked = act Act.lock h in act Act.unlock (if h.ipc.port then close_port locked else locked)

unfoldable pub end : Host → Host
end h =
    let locked = act Act.lock h in
    act Act.unlock (
      if h.ipc.port
      then act Act.signal (record locked { world = Ops.end false h.world })
      else locked)

unfoldable pub destroy : Host → Host
unfolding close
destroy h = act Act.free_ipc (act Act.mutex_destroy (act Act.signal_destroy (close h)))

abbrev pub is_some : Option Block → Bool
is_some none = false
is_some (some b) = true

-- The readiness of an open port: a message left over is readable without asking the queue.
unfoldable pub ready_open : Host → ℕ → ℕ × World
ready_open h events =
    let (readable, w1) =
      if is_some h.ipc.pending.base then (true, h.world) else Ops.readable false h.world in
    let (writable, w2) = Ops.writable false w1 in
    let ready = if readable then events else clear events ipc_readable in
    (if writable then ready else clear ready ipc_writable, w2)

-- The part of `bare_ipc__dispatch` for a poll with a callback.
unfoldable pub dispatch_poll : Host → Poll → ℕ → Host
dispatch_poll h poll cb =
    let locked = act Act.lock h in
    let (ready, w) = if h.ipc.port then ready_open h poll.events else (poll.events, h.world) in
    let unlocked = act Act.unlock (record locked { world = w }) in
    if ready == 0 then unlocked else act (Act.call_poll cb ready) unlocked

abbrev pub dispatch_cb : Host → Poll → Option ℕ → Host
dispatch_cb h poll none = h
dispatch_cb h poll (some cb) = dispatch_poll h poll cb

abbrev pub dispatch_of : Host → Option Poll → Host
dispatch_of h none = h
dispatch_of h (some poll) = dispatch_cb h poll poll.cb

-- `bare_ipc__dispatch`, which the platform calls on each wake.
unfoldable pub dispatch : Host → Host
dispatch h = dispatch_of h h.ipc.poll

-- The first half of `bare_ipc_read`: with nothing left over, take the next message of the queue.
-- The result is what the function would return if there is none.
unfoldable pub refill : Host → ℤ × Host
refill h =
    let (status, out, w) = Ops.read false h.world in
    let fresh = record h { world = w; ipc = record h.ipc { offset = 0 } } in
    if h.ipc.port && not (is_some h.ipc.pending.base)
    then elim out [
      | none ↦ (ipc_would_block, fresh)
      | some m ↦ (pos 0, record fresh { ipc = record fresh.ipc { pending = m } })
    ]
    else (pos 0, h)

-- `pending->base != NULL || bare_queue_readable(ipc->port)`, and the signal that it guards.
unfoldable pub resignal : Host → Host
resignal h =
    if is_some h.ipc.pending.base
    then act Act.signal h
    else if h.ipc.port
    then (let (readable, w) = Ops.readable false h.world in
        let asked = record h { world = w } in if readable then act Act.signal asked else asked)
    else act Act.null_port h

-- Moving `n` bytes on in the message at hand, which is freed at its end.
unfoldable pub consume : Block → ℕ → Host → Host
consume b n h =
    let advanced = record h { ipc = record h.ipc { offset = h.ipc.offset + n } } in
    if h.ipc.offset + n == h.ipc.pending.len
    then act (Act.free_pending b.address) (record advanced {
      ipc = record advanced.ipc { pending = record h.ipc.pending { base = none } };
    })
    else advanced

-- The second half of `bare_ipc_read`: hand out up to `len` bytes of the message at hand.
unfoldable pub serve : Block → ℕ → Host → ℤ × List ℕ × Host
serve b len h =
    let n = min len (sub_size h.ipc.pending.len h.ipc.offset) in
    (to_int n, take n (drop h.ipc.offset b.bytes), resignal (consume b n h))

abbrev pub serve_if : Option Block → ℤ → ℕ → Host → ℤ × List ℕ × Host
serve_if none result len h = (result, [], h)
serve_if (some b) result len h = serve b len h

-- `bare_ipc_read` with room for `len` bytes: the result, the bytes copied out, and the ipc.
unfoldable pub read : ℕ → Host → ℤ × List ℕ × Host
read len h =
    let (result, filled) = refill (act Act.lock h) in
    let (n, bytes, served) = serve_if filled.ipc.pending.base result (cap_int len) filled in
    (n, bytes, act Act.unlock served)

abbrev pub ipc_status : ℤ → ℤ
ipc_status (pos n) = pos n
ipc_status (negsuc zero) = ipc_would_block
ipc_status (negsuc (suc zero)) = ipc_error
ipc_status (negsuc (suc (suc n))) = negsuc (suc (suc n))

-- `bare_ipc_write`.
unfoldable pub write : List ℕ → ℕ → Host → ℤ × Host
write source len h =
    let locked = act Act.lock h in
    let (n, w) =
      if h.ipc.port then Ops.write false source len h.world else (queue_closed, h.world) in
    (ipc_status n, act Act.unlock (record locked { world = w }))

-- `bare_ipc_poll_create`: `bare_ipc__set_poll` stores the poll in the ipc.
unfoldable pub poll_create : Bool → Host → ℤ × Host
poll_create allocated h =
    if allocated
    then (
      pos 0,
      record h { ipc = record h.ipc { poll = some (record { events = 0; cb = none; user = 0 }) } },
    )
    else (negsuc 0, h)

unfoldable pub poll_stop : Host → ℤ × Host
poll_stop h = (
  pos 0,
  record h {
    ipc = record h.ipc {
      poll = Option.map (λ (p : Poll). record p { events = 0; cb = none }) h.ipc.poll;
    };
  },
)

unfoldable pub poll_start : ℕ → Option ℕ → Host → ℤ × Host
unfolding poll_stop
poll_start events cb h = if events == 0 then poll_stop h else (
  pos 0,
  act Act.signal (record h {
    ipc = record h.ipc {
      poll = Option.map (λ (p : Poll). record p { events = events; cb = cb }) h.ipc.poll;
    };
  }),
)

unfoldable pub poll_destroy : Host → Host
unfolding poll_stop
poll_destroy h =
    let stopped = (poll_stop h).1 in
    act Act.free_poll (record stopped { ipc = record stopped.ipc { poll = none } })

unfoldable pub poll_set_data : ℕ → Host → Host
poll_set_data user h = record h {
  ipc = record h.ipc { poll = Option.map (λ (p : Poll). record p { user = user }) h.ipc.poll };
}

unfoldable pub poll_get_data : Host → Option ℕ
poll_get_data h = Option.map (λ (p : Poll). p.user) h.ipc.poll
