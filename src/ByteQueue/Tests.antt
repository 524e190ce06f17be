-- ===== src/ByteQueue/Tests.antt =====
-- src/byte_queue.rs on a short use.
use afk_cli.Prelude.{◌≡◌, refl, List, [], ◌∷◌, io_error, interrupted, would_block, arith}
use afk_cli.ByteQueue.{ByteQueue, accepted, refused, flush, push}
use afk_cli.ByteQueue.Order.{QueueOp, pushes, flushes, start, run, step, IsFifo, run-start-IsFifo}
use afk_cli.ByteQueue.Progress.{IsComplete, flush-IsComplete}

-- A push that fits, a partial write, a push that does not fit, and a writer that is busy.
abbrev sample_ops : List QueueOp
sample_ops =
    pushes (1 ∷ 2 ∷ 3 ∷ [])
    ∷ flushes (accepted 1 ∷ [])
    ∷ pushes (4 ∷ 5 ∷ 6 ∷ [])
    ∷ flushes (refused (io_error interrupted) ∷ refused (io_error would_block) ∷ [])
    ∷ []

sample-run : run (start 4) sample_ops ≡ record {
  queue = record { bytes = 2 ∷ 3 ∷ []; limit = 4 };
  taken = 1 ∷ 2 ∷ 3 ∷ [];
  sent = 1 ∷ [];
}
unfolding run step push flush
sample-run = refl

run-start-IsFifo_example : IsFifo 4 (run (start 4) sample_ops)
run-start-IsFifo_example = run-start-IsFifo 4 sample_ops

abbrev sample_queue : ByteQueue
sample_queue = record { bytes = 2 ∷ 3 ∷ []; limit = 4 }

flush-IsComplete_example :
    IsComplete sample_queue
      (flush sample_queue (accepted 1 ∷ refused (io_error interrupted) ∷ accepted 1 ∷ []))
flush-IsComplete_example =
    flush-IsComplete sample_queue (accepted 1 ∷ refused (io_error interrupted) ∷ accepted 1 ∷ [])
      (ground arith) (omega arith)
