-- ===== src/Runner/Ending/Delivers.antt =====
-- src/runner.rs, the end of a session: what the attachment is sent.
use afk_cli.Prelude.{
  ℕ, ◌-◌, ◌≤◌, ◌≡◌, refl, ap, sym, ◌∙◌, List, [], ◌++◌, append_assoc, true, false, Option, none,
  some, ltb, if◌then◌else◌, length, length-append, All, ok, err, IoResult, arith, inl, inr,
  Bool-cases,
}
use afk_cli.Ipc.{ProcessExit, code, signal, exit, encode}
use afk_cli.Ipc.Codec.{IsRecord, wire, encode-wire}
use afk_cli.ByteQueue.{ByteQueue, WriteOutcome, Flushed, flush}
use afk_cli.ByteQueue
use afk_cli.ByteQueue.Order.{flush-IsParted}
use afk_cli.ByteQueue.Progress.{IsWilling, takes, flush-IsComplete}
use afk_cli.Runner.State.{Connection, ExitStatus}
use afk_cli.Runner.Ending.{try_byte, signal_exit, code_exit, process_exit, send_record, send_exit}

-- A signal that ended a process is one of 1 to 127.
abbrev pub IsSignal : Option ℕ → Type 0
IsSignal none = Unit {0}
IsSignal (some s) = (1 ≤ s) × (s ≤ 127)

code_exit-IsRecord :
    (c : Option ℕ) (other : ProcessExit)
    → IsRecord (exit other)
    → IsRecord (exit (code_exit (try_byte c) other))
code_exit-IsRecord none other h = h
code_exit-IsRecord (some c) other h = elim (Bool-cases (ltb c 256)) [
  | inl small ↦ rw small (ground (arith, small))
  | inr large ↦ rw large h
]

signal_exit-IsRecord : (s : Option ℕ) → IsSignal s → IsRecord (exit (signal_exit (try_byte s)))
signal_exit-IsRecord none h = omega arith
signal_exit-IsRecord (some s) h = let small : ltb s 256 ≡ true = ground (arith, h) in rw small h

-- However a child ends, its exit is a record that the protocol can carry: it encodes without error.
-- A signal, if the system reports one, is taken to be from 1 to 127.
pub process_exit-encode :
    (status : ExitStatus)
    → IsSignal status.signal
    → IsRecord (exit (process_exit status))
      × (encode (exit (process_exit status)) ≡ ok (wire (exit (process_exit status))))
unfolding process_exit
process_exit-encode status h =
    let valid =
      code_exit-IsRecord status.code (signal_exit (try_byte status.signal))
        (signal_exit-IsRecord status.signal h) in
    (
      valid,
      encode-wire (exit (code_exit (try_byte status.code) (signal_exit (try_byte status.signal))))
          valid,
    )

-- A part of a text, from its start.
abbrev pub IsPrefix : List ℕ → List ℕ → Type 0
IsPrefix xs ys = (rest : List ℕ) × (xs ++ rest ≡ ys)

-- A push, if it fits, and a flush send a part of what is queued then.
push-flush-IsPrefix :
    (q : ByteQueue) (bytes : List ℕ) (writes : List WriteOutcome)
    → let (queue, fits) = ByteQueue.push q bytes in
      IsPrefix (if fits then (flush queue writes).sent else []) (q.bytes ++ bytes)
unfolding ByteQueue.push
push-flush-IsPrefix q bytes writes =
    elim (Bool-cases (ltb (q.limit - length q.bytes) (length bytes))) [
      | inl full ↦ rw full (q.bytes ++ bytes, refl)
      | inr room ↦
          let queue : ByteQueue = record { bytes = q.bytes ++ bytes; limit = q.limit } in
          rw room ((flush queue writes).queue.bytes, (flush-IsParted queue writes).parted)
    ]

send_record-IsPrefix :
    (q : ByteQueue) (status : ProcessExit) (writes : List WriteOutcome)
    → IsRecord (exit status)
    → IsPrefix (send_record q (encode (exit status)) writes) (q.bytes ++ wire (exit status))
unfolding send_record
send_record-IsPrefix q status writes h =
    rw (encode-wire (exit status) h) (push-flush-IsPrefix q (wire (exit status)) writes)

IsPrefix-behind :
    (sent left more all : List ℕ)
    → IsPrefix more (left ++ all)
    → IsPrefix (sent ++ more) ((sent ++ left) ++ all)
IsPrefix-behind sent left more all (rest, e) =
    (rest, append_assoc sent more rest ∙ ap (λ l. sent ++ l) e ∙ sym (append_assoc sent left all))

IsPrefix-more : (sent left all : List ℕ) → IsPrefix sent ((sent ++ left) ++ all)
IsPrefix-more sent left all = (left ++ all, sym (append_assoc sent left all))

send_by_result :
    (r : IoResult (Unit {0})) (sent : List ℕ) (q : ByteQueue) (status : ProcessExit)
    (second : List WriteOutcome)
    → IsRecord (exit status)
    → IsPrefix
        (elim r [ err e ↦ sent | ok _ ↦ sent ++ send_record q (encode (exit status)) second ])
        ((sent ++ q.bytes) ++ wire (exit status))
send_by_result (ok u) sent q status second h =
    IsPrefix-behind sent q.bytes _ (wire (exit status)) (send_record-IsPrefix q status second h)
send_by_result (err e) sent q status second h = IsPrefix-more sent q.bytes (wire (exit status))

-- Whatever the stream answers, what the attachment is sent at the end is a part, from its start, of
-- what was queued for it and then the exit record, which must be one that the protocol can carry.
pub send_exit-IsPrefix :
    (status : ProcessExit) (first second : List WriteOutcome) (c : Connection)
    → IsRecord (exit status)
    → IsPrefix (send_exit status first second c) (c.output.bytes ++ wire (exit status))
unfolding send_exit
send_exit-IsPrefix status first second c h =
    let f = flush c.output first in
    let (rest, e) = send_by_result f.result f.sent f.queue status second h in
    (rest, e ∙ ap (λ l. l ++ wire (exit status)) (flush-IsParted c.output first).parted)

wire-short : (status : ProcessExit) → length (wire (exit status)) ≡ 7
wire-short (code c) = omega arith
wire-short (signal s) = omega arith

-- With room for the exit record, and a stream that takes what it is given.
send_record-willing :
    (q : ByteQueue) (status : ProcessExit) (writes : List WriteOutcome)
    → IsRecord (exit status)
    → q.bytes ≡ []
    → 7 ≤ q.limit
    → All IsWilling writes
    → 7 ≤ takes writes
    → send_record q (encode (exit status)) writes ≡ wire (exit status)
unfolding send_record ByteQueue.push
send_record-willing q status writes h empty room willing enough =
    let w = wire (exit status) in
    let short = wire-short status in
    let fits : ltb (q.limit - length q.bytes) (length w) ≡ false =
      ground (arith, short, ap length empty) in
    let queue : ByteQueue = record { bytes = q.bytes ++ w; limit = q.limit } in
    let done =
      flush-IsComplete queue writes willing
        (omega (arith, short, ap length empty, length-append q.bytes w)) in
    rw (encode-wire (exit status) h) (rw (fits) (done.delivered ∙ ap (λ l. l ++ w) empty))

-- An attachment whose stream takes bytes until all are gone is sent everything that was queued for it,
-- then the exit record, and nothing else. Its queue has room for 7 bytes when it is empty.
pub send_exit_complete :
    (status : ProcessExit) (first second : List WriteOutcome) (c : Connection)
    → IsRecord (exit status)
    → 7 ≤ c.output.limit
    → All IsWilling first
    → length c.output.bytes ≤ takes first
    → All IsWilling second
    → 7 ≤ takes second
    → send_exit status first second c ≡ c.output.bytes ++ wire (exit status)
unfolding send_exit
send_exit_complete status first second c h room w1 n1 w2 n2 =
    let done = flush-IsComplete c.output first w1 n1 in
    let parted = flush-IsParted c.output first in
    let queue = (flush c.output first).queue in
    let last =
      send_record-willing queue status second h done.emptied (omega (arith, parted.same_limit)) w2
        n2 in
    rw (done.succeeds, send_exit)
      (ap (λ l. (flush c.output first).sent ++ l) last
        ∙ ap (λ l. l ++ wire (exit status)) done.delivered)
