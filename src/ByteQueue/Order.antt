-- ===== src/ByteQueue/Order.antt =====
-- src/byte_queue.rs over any sequence of pushes and flushes.
use afk_cli.Prelude.{
  ℕ, ◌-◌, ◌≤◌, ◌≡◌, refl, ap, sym, ◌∙◌, List, [], ◌∷◌, ◌++◌, append_assoc, ltb, if◌then◌else◌,
  length, take, drop, arith, inl, inr, Bool-cases, length-append, take-append-drop, IoResult,
}
use afk_cli.ByteQueue.{
  ByteQueue, new_queue, push, WriteOutcome, accepted, refused, Flushed, after_sending,
  return_flushed, flush,
}

-- A call of `flush` parts the queue: what it sent, then what is left.
pub record IsParted (q : ByteQueue) (f : Flushed) : Type 0 where
  pub parted : f.sent ++ f.queue.bytes ≡ q.bytes
  pub same_limit : f.queue.limit ≡ q.limit

after_sending-IsParted :
    (q : ByteQueue) (n : ℕ) (f : Flushed)
    → IsParted (record q { bytes = drop n q.bytes }) f
    → IsParted q (after_sending (take n q.bytes) f)
after_sending-IsParted q n f v = record {
  parted =
      append_assoc (take n q.bytes) f.sent f.queue.bytes
      ∙ ap (λ l. take n q.bytes ++ l) v.parted
      ∙ take-append-drop n q.bytes;
  same_limit = v.same_limit;
}

return_flushed-IsParted :
    (r : IoResult (Unit {0})) (q : ByteQueue) (os : List WriteOutcome)
    → IsParted q (return_flushed r q os)
return_flushed-IsParted r q os = record { parted = refl; same_limit = refl }

-- Whatever the writer answers, `flush` sends a prefix of the queue and keeps the rest.
pub flush-IsParted : (q : ByteQueue) (os : List WriteOutcome) → IsParted q (flush q os)
unfolding flush
flush-IsParted q [] = return_flushed-IsParted _ q []
flush-IsParted q (accepted n ∷ os) =
    let rest =
      after_sending-IsParted q n _ (flush-IsParted (record q { bytes = drop n q.bytes }) os) in
    ground (arith, rest)
flush-IsParted q (refused error ∷ os) = ground (arith, flush-IsParted q os)

-- What a client does with a queue.
pub data QueueOp : Type 0 where
  pushes : List ℕ → QueueOp
  flushes : List WriteOutcome → QueueOp

-- A queue in use, with the bytes of all pushes that it took and all bytes that it has sent.
pub record History : Type 0 where
  pub queue : ByteQueue
  pub taken : List ℕ
  pub sent : List ℕ

abbrev pub start : ℕ → History
start limit = record { queue = new_queue limit; taken = []; sent = [] }

unfoldable pub step : History → QueueOp → History
step h (pushes bytes) =
    let (q, fits) = push h.queue bytes in
    record h { queue = q; taken = if fits then h.taken ++ bytes else h.taken }
step h (flushes os) =
    let f = flush h.queue os in record h { queue = f.queue; sent = h.sent ++ f.sent }

unfoldable pub run : History → List QueueOp → History
run h [] = h
run h (op ∷ ops) = run (step h op) ops

pub record IsFifo (limit : ℕ) (h : History) : Type 0 where
  pub in_order : h.sent ++ h.queue.bytes ≡ h.taken
  pub bounded : length h.queue.bytes ≤ limit
  pub same_limit : h.queue.limit ≡ limit

pushes-IsFifo :
    (limit : ℕ) (h : History) (bytes : List ℕ)
    → IsFifo limit h
    → IsFifo limit (step h (pushes bytes))
unfolding step push
pushes-IsFifo limit h bytes v =
    elim (Bool-cases (ltb (h.queue.limit - length h.queue.bytes) (length bytes))) [
      | inl full ↦
          rw full (record { in_order = v.in_order; bounded = v.bounded; same_limit = v.same_limit })
      | inr room ↦ rw room (record {
        in_order = sym (append_assoc h.sent h.queue.bytes bytes) ∙ ap (λ l. l ++ bytes) v.in_order;
        bounded = ground (arith, length-append h.queue.bytes bytes, v.bounded, v.same_limit);
        same_limit = v.same_limit;
      })
    ]

flushes-IsFifo :
    (limit : ℕ) (h : History) (os : List WriteOutcome)
    → IsFifo limit h
    → IsFifo limit (step h (flushes os))
unfolding step
flushes-IsFifo limit h os v =
    let p = flush-IsParted h.queue os in
    record {
      in_order = append_assoc h.sent _ _ ∙ ap (λ l. h.sent ++ l) p.parted ∙ v.in_order;
      bounded = omega (
        arith,
        v.bounded,
        ap length p.parted,
        length-append (flush h.queue os).sent (flush h.queue os).queue.bytes,
      );
      same_limit = p.same_limit ∙ v.same_limit;
    }

step-IsFifo : (limit : ℕ) (op : QueueOp) (h : History) → IsFifo limit h → IsFifo limit (step h op)
step-IsFifo limit (pushes bytes) h v = pushes-IsFifo limit h bytes v
step-IsFifo limit (flushes os) h v = flushes-IsFifo limit h os v

run-IsFifo :
    (limit : ℕ) (ops : List QueueOp) (h : History) → IsFifo limit h → IsFifo limit (run h ops)
unfolding run
run-IsFifo limit [] h v = v
run-IsFifo limit (op ∷ ops) h v = run-IsFifo limit ops (step h op) (step-IsFifo limit op h v)

-- Over any sequence of pushes and flushes of a new queue, whatever the writer answers, the bytes
-- sent and then those still queued are the bytes of the accepted pushes, in order, and no more
-- than the limit are ever queued.
pub run-start-IsFifo : (limit : ℕ) (ops : List QueueOp) → IsFifo limit (run (start limit) ops)
run-start-IsFifo limit ops =
    run-IsFifo limit ops (start limit)
      (record { in_order = refl; bounded = omega arith; same_limit = refl })
