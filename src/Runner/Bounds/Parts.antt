-- ===== src/Runner/Bounds/Parts.antt =====
-- src/runner.rs: the bounds of a queue, of a tail and of a connection.
use afk_cli.Prelude.{
  ℕ, ◌-◌, ◌≤◌, ◌<◌, ◌≡◌, refl, ap, List, [], ◌∷◌, Option, none, some, length, drop, length-append,
  length-drop, ok, err, IoResult, arith,
}
use afk_cli.Limits.{max_attachment_queue_bytes, output_tail_bytes, max_ipc_record_bytes}
use afk_cli.Ipc.{output, encode}
use afk_cli.Ipc.Room.{receive-HasRoom}
use afk_cli.ByteQueue.{ByteQueue, new_queue, WriteOutcome, flush}
use afk_cli.ByteQueue.Order.{flush-IsParted}
use afk_cli.ByteQueue
use afk_cli.OutputTail.{OutputTail, overflow, extend}
use afk_cli.Runner.State.{Connection, new_connection, ReadOutcome, received, read_failed}
use afk_cli.Runner.Connections.{queue_encoded, enqueue_chunks, enqueue_output, read_records}
use afk_cli.Runner.Pty.{forward}

-- A queue with the limit of the program, and no more in it.
abbrev pub QueueFits : ByteQueue → Type 0
QueueFits q = (q.limit ≡ max_attachment_queue_bytes) × (length q.bytes ≤ max_attachment_queue_bytes)

abbrev pub TailFits : OutputTail → Type 0
TailFits t = (t.capacity ≡ output_tail_bytes) × (length t.bytes ≤ output_tail_bytes)

-- A connection that reads on: its decoder has room for a byte.
abbrev pub ConnectionFits : Connection → Type 0
ConnectionFits c = QueueFits c.output × (length c.decoder.buffer < max_ipc_record_bytes)

abbrev pub ActiveFits : Option Connection → Type 0
ActiveFits none = Unit {0}
ActiveFits (some c) = ConnectionFits c

-- Nothing is queued for a candidate.
abbrev pub CandidateFits : Option Connection → Type 0
CandidateFits none = Unit {0}
CandidateFits (some c) =
    (c.output ≡ new_queue max_attachment_queue_bytes)
    × (length c.decoder.buffer < max_ipc_record_bytes)

pub record Within (tail : OutputTail) (pty_input : ByteQueue) (active candidate : Option Connection)
    : Type 0 where
  pub tail_fits : TailFits tail
  pub input_fits : QueueFits pty_input
  pub active_fits : ActiveFits active
  pub candidate_fits : CandidateFits candidate

pub push-QueueFits :
    (q : ByteQueue) (bytes : List ℕ) → QueueFits q → QueueFits (ByteQueue.push q bytes).0
unfolding ByteQueue.push
push-QueueFits q bytes h = ground (arith, length-append q.bytes bytes)

pub flush-QueueFits :
    (q : ByteQueue) (os : List WriteOutcome) → QueueFits q → QueueFits (flush q os).queue
flush-QueueFits q os h =
    let p = flush-IsParted q os in
    omega (
      arith,
      p.same_limit,
      ap length p.parted,
      length-append (flush q os).sent (flush q os).queue.bytes,
    )

pub extend-TailFits : (t : OutputTail) (bytes : List ℕ) → TailFits t → TailFits (extend t bytes)
unfolding extend
extend-TailFits t bytes h = ground (
  arith,
  length-append t.bytes bytes,
  length-drop (overflow t bytes) t.bytes,
  length-append (drop (overflow t bytes) t.bytes) bytes,
  length-drop (length bytes - t.capacity) bytes,
)

queue_encoded-ConnectionFits :
    (c : Connection) (r : IoResult (List ℕ))
    → ConnectionFits c
    → ConnectionFits (queue_encoded c r).1
unfolding queue_encoded
queue_encoded-ConnectionFits c (ok encoded) h = (push-QueueFits c.output encoded h.0, h.1)
queue_encoded-ConnectionFits c (err e) h = h

pub enqueue_chunks-ConnectionFits :
    (cs : List (List ℕ)) (c : Connection)
    → ConnectionFits c
    → ConnectionFits (enqueue_chunks c cs).1
unfolding enqueue_chunks
enqueue_chunks-ConnectionFits [] c h = h
enqueue_chunks-ConnectionFits (chunk ∷ cs) c h =
    let queued = queue_encoded-ConnectionFits c (encode (output chunk)) h in
    ground (
      arith,
      queued,
      enqueue_chunks-ConnectionFits cs (queue_encoded c (encode (output chunk))).1 queued,
    )

pub enqueue_output-ConnectionFits :
    (c : Connection) (bytes : List ℕ) → ConnectionFits c → ConnectionFits (enqueue_output c bytes).1
unfolding enqueue_output
enqueue_output-ConnectionFits c bytes h = enqueue_chunks-ConnectionFits _ c h

pub forward-ActiveFits :
    (bytes : List ℕ) (a : Option Connection) → ActiveFits a → ActiveFits (forward bytes a)
unfolding forward
forward-ActiveFits bytes none h = tt
forward-ActiveFits bytes (some c) h = ground (arith, enqueue_output-ConnectionFits c bytes)

-- A read that does not fail leaves room in the decoder, and never touches the output.
abbrev pub StillReads : {A : Type 0} → Connection → IoResult A → Connection → Type 0
StillReads c (ok a) c' = (c'.output ≡ c.output) × (length c'.decoder.buffer < max_ipc_record_bytes)
StillReads c (err e) c' = c'.output ≡ c.output

pub read_records-StillReads :
    (o : ReadOutcome) (c : Connection)
    → length c.decoder.buffer < max_ipc_record_bytes
    → StillReads c (read_records o c).0 (read_records o c).1
unfolding read_records
read_records-StillReads (received bytes) c h = ground (arith, receive-HasRoom c.decoder bytes)
read_records-StillReads (read_failed error) c h = ground arith

pub flush-ConnectionFits :
    (c : Connection) (os : List WriteOutcome)
    → ConnectionFits c
    → ConnectionFits (record c { output = (flush c.output os).queue })
flush-ConnectionFits c os h = (flush-QueueFits c.output os h.0, h.1)

pub new_connection-CandidateFits : (stream : ℕ) → CandidateFits (some (new_connection stream))
new_connection-CandidateFits stream = (refl, omega arith)
