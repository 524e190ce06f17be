-- ===== src/ByteQueue.antt =====
-- src/byte_queue.rs: a bounded queue of bytes in front of a writer.
--
-- The writer is what the operating system makes of it: the list of the answers that it will give to
-- `write`, one for each call. Where the list ends the descriptor takes nothing more for now, and a
-- further call gives `WouldBlock`. `write` gets the first of the deque's two slices; how long that
-- is cannot be seen, but for the answer: `accepted n` says that `n` bytes of it were taken, and
-- `Write::write` promises that there are so many.
pub mod Order
pub mod Progress
mod Tests
use afk_cli.Prelude.{
  ℕ, zero, suc, ◌+◌, ◌-◌, List, [], ◌∷◌, ◌++◌, Bool, true, false, ltb, ◌==◌, if◌then◌else◌, length,
  take, drop, is_empty, Result, ok, err, IoError, IoResult, io_error, ErrorKind, would_block,
  interrupted, write_zero,
}

pub record ByteQueue : Type 0 where
  pub bytes : List ℕ
  pub limit : ℕ

abbrev pub new_queue : ℕ → ByteQueue
new_queue limit = record { bytes = []; limit = limit }

unfoldable pub push : ByteQueue → List ℕ → ByteQueue × Bool
push q bytes =
    if ltb (q.limit - length q.bytes) (length bytes)
    then (q, false)
    else (record q { bytes = q.bytes ++ bytes }, true)

pub data WriteOutcome : Type 0 where
  accepted : ℕ → WriteOutcome
  refused : IoError → WriteOutcome

-- What a call of `flush` leaves: its result, the queue, the bytes that the writer took, and the
-- answers that were not asked for.
pub record Flushed : Type 0 where
  pub result : IoResult (Unit {0})
  pub queue : ByteQueue
  pub sent : List ℕ
  pub unasked : List WriteOutcome

-- What an error of `write` does to the loop: `WouldBlock` ends it well, `Interrupted` repeats the
-- call, any other ends it badly.
pub data OnError : Type 0 where
  wait retry fail : OnError

abbrev pub on_error : ErrorKind → OnError
on_error would_block = wait
on_error interrupted = retry
on_error _ = fail

-- `sent` grows at the end, so what comes before goes in front.
abbrev pub after_sending : List ℕ → Flushed → Flushed
after_sending bytes f = record f { sent = bytes ++ f.sent }

abbrev pub return_flushed : IoResult (Unit {0}) → ByteQueue → List WriteOutcome → Flushed
return_flushed result q outcomes = record {
  result = result;
  queue = q;
  sent = [];
  unasked = outcomes;
}

-- The loop `while !self.bytes.is_empty()`.
unfoldable pub flush : ByteQueue → List WriteOutcome → Flushed
flush q [] = return_flushed (ok tt) q []
flush q (accepted n ∷ outcomes) =
    let rest = flush (record q { bytes = drop n q.bytes }) outcomes in
    if is_empty q.bytes
    then return_flushed (ok tt) q (accepted n ∷ outcomes)
    else if n == 0
    then return_flushed (err (io_error write_zero)) q outcomes
    else after_sending (take n q.bytes) rest
flush q (refused error ∷ outcomes) =
    let again = flush q outcomes in
    if is_empty q.bytes
    then return_flushed (ok tt) q (refused error ∷ outcomes)
    else elim (on_error error.kind) [
      | wait ↦ return_flushed (ok tt) q outcomes
      | retry ↦ again
      | fail ↦ return_flushed (err error) q outcomes
    ]
