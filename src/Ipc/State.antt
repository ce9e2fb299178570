-- ===== src/Ipc/State.antt =====
-- `bare_ipc_t` and `bare_ipc_poll_t` (src/ipc.h). The platform's part, `bare_ipc__signal_init` and
-- its kin, is outside: its calls are recorded in a log, newest first, with the ipc's own lock, the
-- callbacks of a poll and the memory that is freed.
use bare_kit.Prelude.{
  ℕ, ℤ, negsuc, List, ◌∷◌, Bool, Option, none, some, ◌+◌, ◌-◌, ◌%◌, ◌^◌, bit_and,
}
use bare_kit.Ring.{Block, Message}
use bare_kit.Queue.State.{World}

-- `bare_ipc_would_block` and `bare_ipc_error`.
abbrev pub ipc_would_block : ℤ
ipc_would_block = negsuc 0

abbrev pub ipc_error : ℤ
ipc_error = negsuc 1

-- `bare_ipc_readable` and `bare_ipc_writable`.
abbrev pub ipc_readable : ℕ
ipc_readable = 1

abbrev pub ipc_writable : ℕ
ipc_writable = 2

-- `bare_ipc_poll_s`; `events` is the bit pattern of an `int`, and `user` the `data` pointer.
pub record Poll : Type 0 where
  pub events : ℕ
  pub cb : Option ℕ
  pub user : ℕ

-- `bare_ipc_s`. `port` is whether the port is still there, since an ipc only ever holds the host
-- end of its queue; `poll` is the poll that it points to.
pub record Ipc : Type 0 where
  pub port : Bool
  pub pending : Message
  pub offset : ℕ
  pub poll : Option Poll

pub data Act : Type 0 where
  lock unlock mutex_destroy : Act
  signal_init signal_destroy signal : Act
  call_poll : ℕ → ℕ → Act
  free_pending : ℕ → Act
  free_ipc free_poll null_port : Act

-- The ipc, the queue of its worklet, and the log.
pub record Host : Type 0 where
  pub ipc : Ipc
  pub world : World
  pub log : List Act

abbrev pub act : Act → Host → Host
act a h = record h { log = a ∷ h.log }

-- `size_t` subtraction.
abbrev pub sub_size : ℕ → ℕ → ℕ
sub_size a b = (a + 2 ^ 64 - b) % 2 ^ 64

-- `ready &= ~flag` on the 32 bits of an `int`.
abbrev pub clear : ℕ → ℕ → ℕ
clear ready flag = bit_and ready (2 ^ 32 - 1 - flag)

abbrev pub free_message : Option Block → Host → Host
free_message none h = h
free_message (some b) h = act (Act.free_pending b.address) h
