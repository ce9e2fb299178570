-- ===== src/Ipc/Stream.antt =====
-- The host's view of an ipc of src/ipc.c as a stream of bytes: what is left of the message at hand,
-- then the messages of the queue.
use bare_kit.Prelude.{
  ℕ, ◌+◌, ◌≤◌, ◌<◌, ◌≡◌, refl, ap, subst, sym, ◌∙◌, ℤ, pos, List, [], ◌++◌, Bool, true, false, not,
  ◌||◌, Option, none, some, arith, if◌then◌else◌, ◌==◌, to_int_of_lt, int_max, take, drop, min,
  length, length-take, length-drop, take-append-drop, drop-drop, drop_all, append_assoc, inl, inr,
  Bool-cases,
}
use bare_kit.Ring.{Block}
use bare_kit.Ring.Refine.{contents}
use bare_kit.Queue.State.{World, Queue, is_ended}
use bare_kit.Queue.Ops
use bare_kit.Queue.Payload.{AllFull, payloads}
use bare_kit.Queue.Inv.{IsSound}
use bare_kit.Ipc.State.{ipc_would_block, Ipc, Host, sub_size}
use bare_kit.Ipc.Ops.{serve, consume, resignal}

-- What is left of the message at hand.
abbrev pub left_over : Option Block → ℕ → List ℕ
left_over none offset = []
left_over (some b) offset = drop offset b.bytes

unfoldable pub stream : Host → List ℕ
stream h =
    if h.ipc.port
    then left_over h.ipc.pending.base h.ipc.offset ++ payloads (contents h.world.queue.to_thread)
    else []

-- Whether no more bytes will come: the ipc is closed, or the worklet has ended its side.
unfoldable pub is_over : Host → Bool
is_over h = not h.ipc.port || is_ended h.world.queue.uv_state

abbrev pub IsLeft : Option Block → Ipc → Type 0
IsLeft none i = Unit {0}
IsLeft (some b) i =
    (i.port ≡ true)
    × (length b.bytes ≡ i.pending.len)
    × (i.offset < i.pending.len)
    × (i.pending.len ≤ int_max)

pub record IsGood (h : Host) : Type 0 where
  pub sound : IsSound h.world.queue
  pub full : AllFull (contents h.world.queue.to_thread)
  pub left : IsLeft h.ipc.pending.base h.ipc

pub record Untouched (h h' : Host) : Type 0 where
  pub same_ipc : h'.ipc ≡ h.ipc
  pub same_queue : h'.world.queue ≡ h.world.queue

pub resignal-Untouched : (h : Host) → Untouched h (resignal h)
unfolding resignal Ops.readable
resignal-Untouched h = ground arith

-- What a read with room for `len` bytes does at `h`.
pub data Reads (len : ℕ) (h : Host) (r : ℤ × List ℕ × Host) : Type 0 where
  some_bytes :
      (n : ℕ)
      → r.0 ≡ pos n
      → 0 < n
      → n ≤ len
      → length r.1 ≡ n
      → stream h ≡ r.1 ++ stream r.2
      → Reads len h r
  at_end :
      r.0 ≡ pos 0 → r.1 ≡ [] → stream h ≡ [] → stream r.2 ≡ [] → is_over h ≡ true → Reads len h r
  would_block :
      r.0 ≡ ipc_would_block
      → r.1 ≡ []
      → stream h ≡ []
      → stream r.2 ≡ []
      → is_over h ≡ false
      → Reads len h r

-- What moving on in the message at hand leaves.
record Consumes (b : Block) (n : ℕ) (h h' : Host) : Type 0 where
  same_port : h'.ipc.port ≡ h.ipc.port
  same_world : h'.world ≡ h.world
  remainder : left_over h'.ipc.pending.base h'.ipc.offset ≡ drop (h.ipc.offset + n) b.bytes
  left : IsLeft h'.ipc.pending.base h'.ipc

consume-Consumes :
    (b : Block) (n : ℕ) (h : Host)
    → h.ipc.pending.base ≡ some b
    → IsLeft (some b) h.ipc
    → h.ipc.offset + n ≤ h.ipc.pending.len
    → Consumes b n h (consume b n h)
unfolding consume
consume-Consumes b n h e l fits = elim (Bool-cases (h.ipc.offset + n == h.ipc.pending.len)) [
  | inl used ↦
      rw (used, consume)
        (record {
          same_port = refl;
          same_world = refl;
          remainder = sym (drop_all (h.ipc.offset + n) b.bytes (ground arith));
          left = tt;
        })
  | inr more ↦
      rw (more, consume)
        (record {
          same_port = refl;
          same_world = refl;
          remainder = rw e refl;
          left = rw e (ground arith);
        })
]

pub IsGood-of_parts :
    {h h' : Host}
    → h'.world.queue ≡ h.world.queue
    → IsLeft h'.ipc.pending.base h'.ipc
    → IsGood h
    → IsGood h'
IsGood-of_parts e l g = record {
  sound = subst IsSound (sym e) g.sound;
  full = subst (λ (q : Queue). AllFull (contents q.to_thread)) (sym e) g.full;
  left = l;
}

-- Serving a message at hand.
pub record Serves (b : Block) (len : ℕ) (h : Host) (r : ℤ × List ℕ × Host) : Type 0 where
  pub room : ℕ
  pub count : r.0 ≡ pos room
  pub some_room : 0 < room
  pub in_room : room ≤ len
  pub all_room : length r.1 ≡ room
  pub rest : stream h ≡ r.1 ++ stream r.2
  pub good : IsGood r.2

pub stream_lem :
    (h : Host) (l rest : List ℕ)
    → h.ipc.port ≡ true
    → left_over h.ipc.pending.base h.ipc.offset ≡ l
    → payloads (contents h.world.queue.to_thread) ≡ rest
    → stream h ≡ l ++ rest
unfolding stream
stream_lem h l rest p e f = rw (p, e, f) refl

-- Cutting a list twice.
cut_twice :
    (n k : ℕ) (xs ys : List ℕ) → drop k xs ++ ys ≡ take n (drop k xs) ++ (drop (k + n) xs ++ ys)
cut_twice n k xs ys =
    ap (λ l. l ++ ys) (sym (take-append-drop n (drop k xs)))
    ∙ append_assoc (take n (drop k xs)) (drop n (drop k xs)) ys
    ∙ ap (λ l. take n (drop k xs) ++ (l ++ ys)) (drop-drop n k xs)

served_stream :
    (b : Block) (n : ℕ) (h h' : Host)
    → h.ipc.pending.base ≡ some b
    → h.ipc.port ≡ true
    → Consumes b n h h'
    → stream h ≡ take n (drop h.ipc.offset b.bytes) ++ stream (resignal h')
served_stream b n h h' e p c =
    let u = resignal-Untouched h' in
    let rest = payloads (contents h.world.queue.to_thread) in
    stream_lem h (drop h.ipc.offset b.bytes) rest p (rw e refl) refl
    ∙ cut_twice n h.ipc.offset b.bytes rest
    ∙ ap (◌++◌ (take n (drop h.ipc.offset b.bytes))) (
        sym (
          stream_lem (resignal h') (drop (h.ipc.offset + n) b.bytes) rest
            (ap (λ (i : Ipc). i.port) u.same_ipc ∙ c.same_port ∙ p)
            (ap (λ (i : Ipc). left_over i.pending.base i.offset) u.same_ipc ∙ c.remainder)
            (ap (λ (q : Queue). payloads (contents q.to_thread))
              (u.same_queue ∙ ap (λ (w : World). w.queue) c.same_world))))

pub serve-Serves :
    (b : Block) (len : ℕ) (h : Host)
    → h.ipc.pending.base ≡ some b
    → 0 < len
    → len ≤ int_max
    → IsGood h
    → Serves b len h (serve b len h)
unfolding serve
serve-Serves b len h e some_len small g =
    let l : IsLeft (some b) h.ipc = rw e at g.left in
    let n = min len (sub_size h.ipc.pending.len h.ipc.offset) in
    let c = consume-Consumes b n h e l (omega arith) in
    let u = resignal-Untouched (consume b n h) in
    record {
      room = n;
      count = to_int_of_lt n (omega arith);
      some_room = omega arith;
      in_room = omega arith;
      all_room =
          omega
            (arith, length-take n (drop h.ipc.offset b.bytes), length-drop h.ipc.offset b.bytes);
      rest = served_stream b n h (consume b n h) e l.0 c;
      good =
          IsGood-of_parts (u.same_queue ∙ ap (λ (w : World). w.queue) c.same_world)
            (subst (λ (i : Ipc). IsLeft i.pending.base i) (sym u.same_ipc) c.left) g;
    }
