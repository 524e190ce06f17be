-- ===== src/Runner/Delivery.antt =====
-- src/runner.rs, `enqueue_output` and `enqueue_replay`: what is queued for an attachment.
use afk_cli.Prelude.{
  ℕ, ◌+◌, ◌*◌, ◌≤◌, ◌<◌, ◌≡◌, refl, ap, sym, ◌∙◌, List, [], ◌∷◌, ◌++◌, append_assoc, append-nil,
  map, length, length-append, concat, chunks, concat-chunks, chunks_count, chunks-All, All,
  AreBytes, IsByte, IoResult, io_error, would_block, ok, err, ok_not_err, arith, leb, inl, inr,
  Bool-cases, ◌⊎◌, Result-cases,
}
use afk_cli.Limits.{max_ipc_payload_bytes}
use afk_cli.Ipc.{Record, output, encode}
use afk_cli.Ipc.Codec.{IsRecord, IsPayload, wire, encode-wire, encode-eq-wire}
use afk_cli.Ipc.Framing.{wires}
use afk_cli.ByteQueue.{ByteQueue, new_queue}
use afk_cli.ByteQueue
use afk_cli.Runner.State.{Connection}
use afk_cli.Runner.Connections.{queue_encoded, enqueue_chunks, enqueue_output}

-- Pieces of output as records.
abbrev pub outputs : List (List ℕ) → List Record
outputs cs = map (λ c. output c) cs

-- A connection with bytes behind what is queued for it.
abbrev pub queued_behind : Connection → List ℕ → Connection
queued_behind c bytes = record c { output = record c.output { bytes = c.output.bytes ++ bytes } }

length-wires :
    (cs : List (List ℕ)) → length (wires (outputs cs)) ≡ length (concat cs) + 5 * length cs
length-wires [] = refl
length-wires (c ∷ cs) = omega (
  arith,
  length-wires cs,
  length-append c (concat cs),
  length-append (wire (output c)) (wires (outputs cs)),
)

-- What `enqueue_chunks` does with records that fit, and what it answers where they do not.
record Queues (c : Connection) (bytes : List ℕ) (out : IoResult (Unit {0}) × Connection)
    : Type 0 where
  fits :
      length c.output.bytes + length bytes ≤ c.output.limit → out ≡ (ok tt, queued_behind c bytes)
  full : c.output.limit < length c.output.bytes + length bytes → out.0 ≡ err (io_error would_block)

queue_encoded-Queues :
    (c : Connection) (r : Record) → IsRecord r → Queues c (wire r) (queue_encoded c (encode r))
unfolding queue_encoded ByteQueue.push
queue_encoded-Queues c r h =
    rw (encode-wire r h) (record { fits = λ e. ground arith; full = λ e. ground arith })

-- What comes behind `a` is queued behind `c` and `a`.
Queues-append :
    (c : Connection) (a b : List ℕ) (out : IoResult (Unit {0}) × Connection)
    → Queues (queued_behind c a) b out
    → Queues c (a ++ b) out
Queues-append c a b out q = record {
  fits = λ h.
      q.fits (omega (arith, h, length-append a b, length-append c.output.bytes a))
      ∙ ap (λ l. (ok tt, record c { output = record c.output { bytes = l } }))
          (append_assoc c.output.bytes a b);
  full = λ h. q.full (omega (arith, h, length-append a b, length-append c.output.bytes a));
}

Queues-full :
    (c c' : Connection) (a b : List ℕ)
    → c.output.limit < length c.output.bytes + length a
    → Queues c (a ++ b) (err (io_error would_block), c')
Queues-full c c' a b h = record {
  fits = λ e. absurd (omega (arith, length-append a b));
  full = λ _. refl;
}

enqueue_chunks-Queues :
    (cs : List (List ℕ)) (c : Connection)
    → All IsPayload cs
    → length c.output.bytes ≤ c.output.limit
    → Queues c (wires (outputs cs)) (enqueue_chunks c cs)
unfolding enqueue_chunks
enqueue_chunks-Queues [] c h n = record {
  fits = λ _.
      ap (λ l. (ok tt, record c { output = record c.output { bytes = l } }))
        (sym (append-nil c.output.bytes));
  full = λ e. absurd (omega arith);
}
enqueue_chunks-Queues (chunk ∷ cs) c h n =
    let w = wire (output chunk) in
    let first = queue_encoded-Queues c (output chunk) h.0 in
    elim (Bool-cases (leb (length c.output.bytes + length w) c.output.limit)) [
      | inl fits ↦
          let e = first.fits (ground arith) in
          rw (ap (λ p. p.0) e, enqueue_chunks, ap (λ p. p.1) e)
            (Queues-append c w _ _ (
              enqueue_chunks-Queues cs (queued_behind c w) h.1
                (ground (arith, length-append c.output.bytes w))))
      | inr full ↦
          rw (first.full (ground arith), enqueue_chunks) (Queues-full c _ w _ (ground arith))
    ]

-- The records that carry bytes to an attachment.
abbrev pub records_of : List ℕ → List Record
records_of bytes = outputs (chunks max_ipc_payload_bytes bytes)

enqueue_output-Queues :
    (c : Connection) (bytes : List ℕ)
    → AreBytes bytes
    → length c.output.bytes ≤ c.output.limit
    → Queues c (wires (records_of bytes)) (enqueue_output c bytes)
unfolding enqueue_output
enqueue_output-Queues c bytes h n =
    enqueue_chunks-Queues (chunks max_ipc_payload_bytes bytes) c
      (chunks-All IsByte max_ipc_payload_bytes bytes h) n

pub wires-append : (rs ss : List Record) → wires (rs ++ ss) ≡ wires rs ++ wires ss
wires-append [] ss = refl
wires-append (r ∷ rs) ss =
    ap (λ l. wire r ++ l) (wires-append rs ss) ∙ sym (append_assoc (wire r) (wires rs) (wires ss))

pub concat-records_of : (bytes : List ℕ) → concat (chunks max_ipc_payload_bytes bytes) ≡ bytes
concat-records_of bytes = concat-chunks max_ipc_payload_bytes bytes (omega arith)

-- Output, behind what a connection has queued: as `Output` records alone, whose payloads are the output,
-- if there is room for all of them, and refused if there is not.
pub record Delivered (c : Connection) (bytes : List ℕ) (out : IoResult (Unit {0}) × Connection)
    : Type 0 where
  pub pieces : List (List ℕ)
  pub whole : concat pieces ≡ bytes
  pub small : All IsPayload pieces
  pub result :
      ((length c.output.bytes + length (wires (outputs pieces)) ≤ c.output.limit)
        × (out ≡ (ok tt, queued_behind c (wires (outputs pieces)))))
      ⊎ ((c.output.limit < length c.output.bytes + length (wires (outputs pieces)))
          × (out.0 ≡ err (io_error would_block)))

pub length-records_of :
    (k : ℕ) (bytes : List ℕ)
    → length bytes ≤ k * max_ipc_payload_bytes
    → length (wires (records_of bytes)) ≤ length bytes + 5 * k
length-records_of k bytes h = omega (
  arith,
  length-wires (chunks max_ipc_payload_bytes bytes),
  ap length (concat-chunks max_ipc_payload_bytes bytes (omega arith)),
  chunks_count max_ipc_payload_bytes k bytes h,
)

-- Room for the bytes and for a header each piece is enough.
pub enqueue_output_fits :
    (k : ℕ) (c : Connection) (bytes : List ℕ)
    → AreBytes bytes
    → length bytes ≤ k * max_ipc_payload_bytes
    → length c.output.bytes + (length bytes + 5 * k) ≤ c.output.limit
    → enqueue_output c bytes ≡ (ok tt, queued_behind c (wires (records_of bytes)))
enqueue_output_fits k c bytes h n m =
    let size = length-records_of k bytes n in
    (enqueue_output-Queues c bytes h (omega arith)).fits (omega (arith, size))

-- What was queued with success, whatever the bytes are.
queue_encoded-eq :
    (c : Connection) (r : Record) (e : IoResult (List ℕ))
    → encode r ≡ e
    → (queue_encoded c e).0 ≡ ok tt
    → (queue_encoded c e).1 ≡ queued_behind c (wire r)
unfolding queue_encoded ByteQueue.push
queue_encoded-eq c r (err e) h k = absurd (ok_not_err (sym k))
queue_encoded-eq c r (ok bytes) h k = rw (← encode-eq-wire r bytes h) (ground arith)

enqueue_chunks-eq :
    (cs : List (List ℕ)) (c : Connection)
    → (enqueue_chunks c cs).0 ≡ ok tt
    → (enqueue_chunks c cs).1 ≡ queued_behind c (wires (outputs cs))
unfolding enqueue_chunks
enqueue_chunks-eq [] c k =
    ap (λ l. record c { output = record c.output { bytes = l } }) (sym (append-nil c.output.bytes))
enqueue_chunks-eq (chunk ∷ cs) c k =
    let q = queue_encoded c (encode (output chunk)) in
    elim (Result-cases q.0) [
      | inl (u, e) ↦
          let first = queue_encoded-eq c (output chunk) _ refl e in
          rw (e, enqueue_chunks, first)
            (enqueue_chunks-eq cs (queued_behind c (wire (output chunk)))
                (rw (e, enqueue_chunks, first) at k)
              ∙ ap (λ l. record c { output = record c.output { bytes = l } })
                  (append_assoc c.output.bytes (wire (output chunk)) (wires (outputs cs))))
      | inr (er, e) ↦ absurd (ok_not_err (sym (rw (e, enqueue_chunks) at k)))
    ]

pub enqueue_output-eq :
    (c : Connection) (bytes : List ℕ)
    → (enqueue_output c bytes).0 ≡ ok tt
    → (enqueue_output c bytes).1 ≡ queued_behind c (wires (records_of bytes))
unfolding enqueue_output
enqueue_output-eq c bytes k = enqueue_chunks-eq (chunks max_ipc_payload_bytes bytes) c k
