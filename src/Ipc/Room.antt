-- ===== src/Ipc/Room.antt =====
-- src/ipc.rs: the room in a decoder.
use afk_cli.Prelude.{
  ℕ, zero, suc, ◌+◌, ◌≤◌, ◌<◌, ◌≡◌, List, ◌++◌, Option, none, some, arith, length, length-drop,
  get_or, Result, ok, err,
}
use afk_cli.Limits.{max_ipc_record_bytes, ipc_header_bytes}
use afk_cli.Ipc.{Record, Decoder, DecodeError, take_record, buffered_length, next, drain_loop}
use afk_cli.Ipc.Framing.{receive}

-- What a call of `next` leaves, by its result.
abbrev pub LeavesRoom : Decoder → Result DecodeError (Option Record) → Decoder → Type 0
LeavesRoom d (ok none) d' = (d'.buffer ≡ d.buffer) × (length d.buffer < max_ipc_record_bytes)
LeavesRoom d (ok (some r)) d' = length d'.buffer < length d.buffer
LeavesRoom d (err e) d' = d'.buffer ≡ d.buffer

take_record-LeavesRoom :
    (k n : ℕ) (d : Decoder)
    → ipc_header_bytes + n ≤ length d.buffer
    → LeavesRoom d (take_record k n d).0 (take_record k n d).1
unfolding take_record
take_record-LeavesRoom k n d h = ground (arith, length-drop (ipc_header_bytes + n) d.buffer)

next-LeavesRoom : (d : Decoder) → LeavesRoom d (next d).0 (next d).1
unfolding next
next-LeavesRoom d =
    ground (arith, take_record-LeavesRoom (get_or d.buffer 0 0) (buffered_length d.buffer) d)

-- Room for one byte at least, after a success.
abbrev pub HasRoom : {A : Type 0} → Result DecodeError A → Decoder → Type 0
HasRoom (ok a) d = length d.buffer < max_ipc_record_bytes
HasRoom (err e) d = Unit {0}

drain_loop-HasRoom :
    (f : ℕ) (d : Decoder) → length d.buffer ≤ f → HasRoom (drain_loop f d).0 (drain_loop f d).1
unfolding drain_loop
drain_loop-HasRoom zero d n = omega arith
drain_loop-HasRoom (suc f) d n = ground (arith, next-LeavesRoom d, drain_loop-HasRoom f (next d).1)

-- Whatever bytes a read brings, if it does not end in an error the decoder has room for another
-- read: a reader's test for a capacity of 0 never fails it.
pub receive-HasRoom :
    (d : Decoder) (bytes : List ℕ) → HasRoom (receive d bytes).0 (receive d bytes).1
unfolding receive
receive-HasRoom d bytes =
    ground (
      arith,
      drain_loop-HasRoom (length (d.buffer ++ bytes)) (record { buffer = d.buffer ++ bytes }),
    )
