-- ===== src/Ipc/Canonical.antt =====
-- src/ipc.rs, `Decoder::next` on bytes that no encoder of ours need have written.
use afk_cli.Prelude.{
  ℕ, ◌+◌, ◌/◌, ◌%◌, ◌≤◌, ◌<◌, ◌≡◌, refl, List, ◌∷◌, ◌++◌, none, some, arith, length, take, drop,
  take-append-drop, length-take, All-take, AreBytes, IsByte, from_be32, be32-from_be32,
  from_be32-be32, ok,
}
use afk_cli.Limits.{ipc_header_bytes, max_ipc_payload_bytes}
use afk_cli.Ipc.{Record, Decoder, decode_payload, take_record, next, encode}
use afk_cli.Ipc.Codec.{
  IsRecord, payload, wire, payload-le, encode-wire, drop-header, decode_payload-inv,
}

record Taken (k n : ℕ) (b : List ℕ) (r : Record) (d : Decoder) : Type 0 where
  decoded : decode_payload k (take n (drop ipc_header_bytes b)) ≡ ok r
  left : d.buffer ≡ drop (ipc_header_bytes + n) b

take_record-inv :
    (k n : ℕ) (b : List ℕ) (r : Record) (d : Decoder)
    → take_record k n (record { buffer = b }) ≡ (ok (some r), d)
    → Taken k n b r d
unfolding take_record
take_record-inv k n b r d e = record { decoded = ground arith; left = ground arith }

-- What the tests of `next` say when a record is found behind the header `k ∷ b1 ∷ b2 ∷ b3 ∷ b4`.
record Framed (k b1 b2 b3 b4 : ℕ) (l : List ℕ) (r : Record) (d : Decoder) : Type 0 where
  bounded : from_be32 b1 b2 b3 b4 ≤ max_ipc_payload_bytes
  complete : from_be32 b1 b2 b3 b4 ≤ length l
  taken : Taken k (from_be32 b1 b2 b3 b4) (k ∷ b1 ∷ b2 ∷ b3 ∷ b4 ∷ l) r d

next-inv :
    (k b1 b2 b3 b4 : ℕ) (l : List ℕ) (r : Record) (d : Decoder)
    → next (record { buffer = k ∷ b1 ∷ b2 ∷ b3 ∷ b4 ∷ l }) ≡ (ok (some r), d)
    → Framed k b1 b2 b3 b4 l r d
unfolding next
next-inv k b1 b2 b3 b4 l r d e = record {
  bounded = ground arith;
  complete = ground arith;
  taken = take_record-inv k (from_be32 b1 b2 b3 b4) _ r d (ground arith);
}

-- A record is only ever decoded, from a buffer of bytes, from its own encoding: the record is
-- within the limits, and the buffer was that encoding followed by what is left.
pub encode-next :
    (b : List ℕ) (r : Record) (d : Decoder)
    → AreBytes b
    → next (record { buffer = b }) ≡ (ok (some r), d)
    → IsRecord r × ((bs : List ℕ) × (encode r ≡ ok bs) × (bs ++ d.buffer ≡ b))
unfolding next
encode-next (k ∷ b1 ∷ b2 ∷ b3 ∷ b4 ∷ l) r d h e =
    let f = next-inv k b1 b2 b3 b4 l r d e in
    let n : ℕ = from_be32 b1 b2 b3 b4 in
    let len : length (take n l) ≡ n = omega (arith, length-take n l, f.complete) in
    let p =
      decode_payload-inv k (take n l) r
        (omega (arith, len, f.bounded), All-take IsByte n l h.1.1.1.1.1) f.taken.decoded in
    (
      p.valid,
      (
        wire r,
        encode-wire r p.valid,
        rw (p.same_kind, p.same_payload, len)
            (cc (
              be32-from_be32 b1 b2 b3 b4 h.1.0 h.1.1.0 h.1.1.1.0 h.1.1.1.1.0,
              f.taken.left,
              drop-header n k b1 b2 b3 b4 l,
              take-append-drop n l,
            )),
      ),
    )
encode-next _ r d h e = cc

-- A buffer that ends inside the encoding of a record within the limits is neither accepted nor
-- refused, whatever the stream holds behind that record: the decoder asks for more, and keeps every
-- byte.
pub next_incomplete :
    (r : Record) (b t s : List ℕ)
    → IsRecord r
    → length b < length (wire r)
    → b ++ t ≡ wire r ++ s
    → next (record { buffer = b }) ≡ (ok none, record { buffer = b })
unfolding next
next_incomplete r (k ∷ b1 ∷ b2 ∷ b3 ∷ b4 ∷ l) t s h short e =
    let n : ℕ = length (payload r) in
    let fits : n ≤ max_ipc_payload_bytes = payload-le r h in
    let e1 : b1 ≡ n / 16777216 % 256 = cc in
    let e2 : b2 ≡ n / 65536 % 256 = cc in
    let e3 : b3 ≡ n / 256 % 256 = cc in
    let e4 : b4 ≡ n % 256 = cc in rw (e1, e2, e3, e4, from_be32-be32 n (omega arith)) (ground arith)
next_incomplete r _ t s h short e = refl
