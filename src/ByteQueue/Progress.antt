-- ===== src/ByteQueue/Progress.antt =====
-- src/byte_queue.rs: when a flush ends, and with what result.
use afk_cli.Prelude.{
  ℕ, suc, ◌≤◌, ◌<◌, ◌≡◌, refl, ap, sym, ◌∙◌, List, [], ◌∷◌, ◌++◌, false, ◌==◌, length, take, drop,
  is_empty, arith, inl, inr, Bool-cases, length-drop, is_empty-length, is_empty-eq-nil, le→leb,
  take-append-drop, All, ok, interrupted,
}
use afk_cli.ByteQueue.{
  ByteQueue, WriteOutcome, accepted, refused, Flushed, after_sending, return_flushed, flush,
}

-- The writer takes a byte at least, or is interrupted.
abbrev pub IsWilling : WriteOutcome → Type 0
IsWilling (accepted n) = 0 < n
IsWilling (refused error) = error.kind ≡ interrupted

-- How many of the answers take bytes.
abbrev pub takes : List WriteOutcome → ℕ
takes [] = 0
takes (accepted n ∷ os) = suc (takes os)
takes (refused error ∷ os) = takes os

pub record IsComplete (q : ByteQueue) (f : Flushed) : Type 0 where
  pub succeeds : f.result ≡ ok tt
  pub emptied : f.queue.bytes ≡ []
  pub delivered : f.sent ≡ q.bytes

empty-IsComplete :
    (q : ByteQueue) (os : List WriteOutcome)
    → q.bytes ≡ []
    → IsComplete q (return_flushed (ok tt) q os)
empty-IsComplete q os e = record { succeeds = refl; emptied = e; delivered = sym e }

after_sending-IsComplete :
    (q : ByteQueue) (n : ℕ) (f : Flushed)
    → IsComplete (record q { bytes = drop n q.bytes }) f
    → IsComplete q (after_sending (take n q.bytes) f)
after_sending-IsComplete q n f v = record {
  succeeds = v.succeeds;
  emptied = v.emptied;
  delivered = ap (λ l. take n q.bytes ++ l) v.delivered ∙ take-append-drop n q.bytes;
}

-- A willing writer that takes bytes as often as there are bytes gets the whole queue in order, and
-- the flush succeeds and leaves nothing.
pub flush-IsComplete :
    (q : ByteQueue) (os : List WriteOutcome)
    → All IsWilling os
    → length q.bytes ≤ takes os
    → IsComplete q (flush q os)
unfolding flush
flush-IsComplete q [] h n =
    empty-IsComplete q [] (is_empty-eq-nil q.bytes (is_empty-length q.bytes ∙ le→leb _ _ n))
flush-IsComplete q (accepted k ∷ os) h n = elim (Bool-cases (is_empty q.bytes)) [
  | inl done ↦ rw done (empty-IsComplete q _ (is_empty-eq-nil q.bytes done))
  | inr more ↦
      let positive : (k == 0) ≡ false = ground arith in
      let shorter : length (drop k q.bytes) ≤ takes os =
        omega (arith, length-drop k q.bytes, h.0) in
      rw (more, positive)
        (after_sending-IsComplete q k _
          (flush-IsComplete (record q { bytes = drop k q.bytes }) os h.1 shorter))
]
flush-IsComplete q (refused error ∷ os) h n = elim (Bool-cases (is_empty q.bytes)) [
  | inl done ↦ rw done (empty-IsComplete q _ (is_empty-eq-nil q.bytes done))
  | inr more ↦ rw (more, h.0) (flush-IsComplete q os h.1 n)
]
