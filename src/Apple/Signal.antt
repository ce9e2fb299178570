-- ===== src/Apple/Signal.antt =====
-- The signal of an ipc on Apple's platforms (src/apple/ipc.m): a dispatch source on a serial queue, which
-- runs one block at a time. Behind a cancel no event handler begins, and the cancel handler runs on the
-- queue, so when no event handler is running.
use bare_kit.Ipc.Signal.{is_same_poll, same_poll}
use bare_kit.Prelude.{
  ℕ, ◌+◌, ◌≡◌, refl, Bool, true, false, not, ◌&&◌, ◌||◌, Option, none, some, if◌then◌else◌, arith,
}

-- `pending` is whether the source has data, `in_handler` whether its event handler is running, `running`
-- the poll that the handler found, `changed` whether the handler has set another since, `waiting` whether
-- a destroy waits for the cancel handler, and `ipc` whether the ipc is there. `frees` counts the frees of
-- the signal, `misused` is set by a handler that begins without an ipc, and `inside` by one that has
-- destroyed its ipc itself.
pub record DispatchSignal : Type 0 where
  pub pending : Bool
  pub in_handler : Bool
  pub running : Option ℕ
  pub changed : Bool
  pub cancelled : Bool
  pub cancel_handled : Bool
  pub waiting : Bool
  pub ipc : Bool
  pub poll : Option ℕ
  pub frees : ℕ
  pub misused : Bool
  pub inside : Bool

-- `bare_ipc__signal_init`, by whether its `malloc` gives memory.
unfoldable pub dispatch_init : Bool → Option DispatchSignal
dispatch_init false = none
dispatch_init true = some (record {
  pending = false;
  in_handler = false;
  running = none;
  changed = false;
  cancelled = false;
  cancel_handled = false;
  waiting = false;
  ipc = true;
  poll = none;
  frees = 0;
  misused = false;
  inside = false;
})

-- `bare_ipc__signal`
unfoldable pub merge_data : DispatchSignal → DispatchSignal
merge_data s = record s { pending = true }

-- The event handler begins with the poll of the ipc, and returns.
unfoldable pub begin_handler : DispatchSignal → DispatchSignal
begin_handler s = record s {
  pending = false;
  in_handler = true;
  running = s.poll;
  changed = false;
  misused = s.misused || not s.ipc;
}

unfoldable pub end_handler : DispatchSignal → DispatchSignal
end_handler s = record s { in_handler = false; running = none }

-- `bare_ipc__set_poll`, from within a handler or, behind `dispatch_sync`, between handlers.
unfoldable pub dispatch_set_poll : Bool → Option ℕ → DispatchSignal → DispatchSignal
dispatch_set_poll on_queue p s = record s { poll = p; changed = s.changed || on_queue }

abbrev pub free_dispatch : DispatchSignal → DispatchSignal
free_dispatch s = record s { ipc = false; frees = s.frees + 1 }

-- `bare_ipc__signal_destroy`: from within a handler it does not wait.
unfoldable pub dispatch_destroy : Bool → DispatchSignal → DispatchSignal
dispatch_destroy on_queue s =
    if on_queue
    then free_dispatch (record s { cancelled = true; inside = true })
    else record s { cancelled = true; waiting = true }

unfoldable pub cancel_handler : DispatchSignal → DispatchSignal
cancel_handler s = record s { cancel_handled = true }

-- Behind its wait.
unfoldable pub destroy_waited : DispatchSignal → DispatchSignal
destroy_waited s = free_dispatch (record s { waiting = false })

-- An ipc is used until a destroy of it begins.
pub data DispatchStep (s : DispatchSignal) : DispatchSignal → Type 0 where
  merges : s.ipc ≡ true → DispatchStep s (merge_data s)
  handles :
      s.pending ≡ true
      → s.in_handler ≡ false
      → s.cancelled ≡ false
      → DispatchStep s (begin_handler s)
  returns : s.in_handler ≡ true → DispatchStep s (end_handler s)
  sets :
      (on_queue : Bool) (p : Option ℕ)
      → s.in_handler ≡ on_queue
      → s.cancelled ≡ false
      → DispatchStep s (dispatch_set_poll on_queue p s)
  destroys_inside :
      s.in_handler ≡ true → s.cancelled ≡ false → DispatchStep s (dispatch_destroy true s)
  destroys_outside : s.cancelled ≡ false → DispatchStep s (dispatch_destroy false s)
  cancels : s.waiting ≡ true → s.in_handler ≡ false → DispatchStep s (cancel_handler s)
  ends_wait : s.waiting ≡ true → s.cancel_handled ≡ true → DispatchStep s (destroy_waited s)

pub data DispatchReach : DispatchSignal → Type 0 where
  begins : {s : DispatchSignal} → dispatch_init true ≡ some s → DispatchReach s
  moves : {s t : DispatchSignal} → DispatchReach s → DispatchStep s t → DispatchReach t

-- A handler that runs has found the poll that is set, unless it has set another itself.
abbrev pub is_stale : DispatchSignal → Bool
is_stale s = s.in_handler && not s.changed && not (is_same_poll s.running s.poll)

record IsGuarded (s : DispatchSignal) : Type 0 where
  used_well : s.misused ≡ false
  freed_once : s.frees ≡ (if s.ipc then 0 else 1)
  of_ipc : s.ipc ≡ (not s.cancelled || s.waiting)
  of_waiting : s.waiting ≡ true → s.cancelled ≡ true
  of_handled : s.cancel_handled ≡ true → (s.cancelled ≡ true) × (s.in_handler ≡ false)
  fresh : is_stale s ≡ false
  of_inside : (s.in_handler && not s.ipc) ≡ true → s.inside ≡ true

begin_handler-IsGuarded :
    {s : DispatchSignal}
    → s.pending ≡ true
    → s.in_handler ≡ false
    → s.cancelled ≡ false
    → IsGuarded s
    → IsGuarded (begin_handler s)
unfolding begin_handler
begin_handler-IsGuarded {s} p i c g = record {
  used_well = ground (arith, g.used_well, g.of_ipc, c);
  freed_once = g.freed_once;
  of_ipc = g.of_ipc;
  of_waiting = g.of_waiting;
  of_handled = λ h. absurd (ground (arith, h, c, g.of_handled));
  fresh = ground (arith, same_poll s.poll);
  of_inside = λ h. ground (arith, h, g.of_ipc, c);
}

inside-IsGuarded :
    {s : DispatchSignal}
    → s.in_handler ≡ true
    → s.cancelled ≡ false
    → IsGuarded s
    → IsGuarded (dispatch_destroy true s)
unfolding dispatch_destroy
inside-IsGuarded {s} i c g = record {
  used_well = g.used_well;
  freed_once = ground (arith, g.freed_once, g.of_ipc, c);
  of_ipc = ground (arith, g.of_waiting, c);
  of_waiting = λ h. refl;
  of_handled = λ h. absurd (ground (arith, h, c, g.of_handled));
  fresh = g.fresh;
  of_inside = λ h. refl;
}

outside-IsGuarded :
    {s : DispatchSignal} → s.cancelled ≡ false → IsGuarded s → IsGuarded (dispatch_destroy false s)
unfolding dispatch_destroy
outside-IsGuarded {s} c g = record {
  used_well = g.used_well;
  freed_once = g.freed_once;
  of_ipc = ground (arith, g.of_ipc, c);
  of_waiting = λ h. refl;
  of_handled = λ h. absurd (ground (arith, h, c, g.of_handled));
  fresh = g.fresh;
  of_inside = g.of_inside;
}

destroy_waited-IsGuarded :
    {s : DispatchSignal}
    → s.waiting ≡ true
    → s.cancel_handled ≡ true
    → IsGuarded s
    → IsGuarded (destroy_waited s)
unfolding destroy_waited
destroy_waited-IsGuarded {s} w d g = record {
  used_well = g.used_well;
  freed_once = ground (arith, g.freed_once, g.of_ipc, w);
  of_ipc = ground (arith, g.of_waiting, w);
  of_waiting = λ h. cc;
  of_handled = g.of_handled;
  fresh = g.fresh;
  of_inside = λ h. absurd (ground (arith, h, (g.of_handled d).1));
}

DispatchStep-IsGuarded : {s t : DispatchSignal} → DispatchStep s t → IsGuarded s → IsGuarded t
unfolding merge_data begin_handler end_handler dispatch_set_poll dispatch_destroy cancel_handler
    destroy_waited
DispatchStep-IsGuarded {s} (merges i) g = record {
  used_well = g.used_well;
  freed_once = g.freed_once;
  of_ipc = g.of_ipc;
  of_waiting = g.of_waiting;
  of_handled = g.of_handled;
  fresh = g.fresh;
  of_inside = g.of_inside;
}
DispatchStep-IsGuarded (handles p i c) g = begin_handler-IsGuarded p i c g
DispatchStep-IsGuarded {s} (returns i) g = record {
  used_well = g.used_well;
  freed_once = g.freed_once;
  of_ipc = g.of_ipc;
  of_waiting = g.of_waiting;
  of_handled = λ h. ((g.of_handled h).0, refl);
  fresh = refl;
  of_inside = λ h. cc;
}
DispatchStep-IsGuarded {s} (sets b p i c) g = record {
  used_well = g.used_well;
  freed_once = g.freed_once;
  of_ipc = g.of_ipc;
  of_waiting = g.of_waiting;
  of_handled = g.of_handled;
  fresh = ground (arith, i);
  of_inside = g.of_inside;
}
DispatchStep-IsGuarded (destroys_inside i c) g = inside-IsGuarded i c g
DispatchStep-IsGuarded (destroys_outside c) g = outside-IsGuarded c g
DispatchStep-IsGuarded {s} (cancels w i) g = record {
  used_well = g.used_well;
  freed_once = g.freed_once;
  of_ipc = g.of_ipc;
  of_waiting = g.of_waiting;
  of_handled = λ h. (g.of_waiting w, i);
  fresh = g.fresh;
  of_inside = g.of_inside;
}
DispatchStep-IsGuarded (ends_wait w d) g = destroy_waited-IsGuarded w d g

DispatchReach-IsGuarded : {s : DispatchSignal} → DispatchReach s → IsGuarded s
unfolding dispatch_init
DispatchReach-IsGuarded (begins e) = record {
  used_well = ground (arith, e);
  freed_once = ground (arith, e);
  of_ipc = ground (arith, e);
  of_waiting = λ h. ground (arith, e, h);
  of_handled = λ h. ground (arith, e, h);
  fresh = ground (arith, e);
  of_inside = λ h. ground (arith, e, h);
}
DispatchReach-IsGuarded (moves r t) = DispatchStep-IsGuarded t (DispatchReach-IsGuarded r)

-- In every run of the signal of an ipc on Apple's platforms: no handler has begun without an ipc;
-- the signal has been freed once if its ipc has been destroyed, and not at all otherwise; a handler
-- that runs has found the poll that is set, unless it has set another itself; and no handler runs
-- behind a destroy of the ipc, but the one that has destroyed it.
pub dispatch_safe :
    {s : DispatchSignal}
    → DispatchReach s
    → (s.misused ≡ false)
      × (s.frees ≡ (if s.ipc then 0 else 1))
      × (is_stale s ≡ false)
      × ((s.in_handler && not s.ipc && not s.inside) ≡ false)
dispatch_safe {s} r =
    let g = DispatchReach-IsGuarded r in
    (g.used_well, g.freed_once, g.fresh, ground (arith, g.of_inside))
