-- ===== src/Ipc/Codec.antt =====
-- src/ipc.rs, one record: `encode` and then `Decoder::next`.
use afk_cli.Prelude.{
  ℕ, ◌+◌, ◌≤◌, ◌≡◌, refl, ◌∙◌, List, [], ◌∷◌, ◌++◌, some, arith, length, take, drop, length-append,
  take-append_len, drop-append_len, drop-append_ge, AreBytes, IsByte, be16, be32, from_be32-be32,
  from_be16, from_be16-be16, be16-from_be16, ok,
}
use afk_cli.Ipc.{
  ProcessExit, code, signal, Record, attach, input, output, resize, stop, exit, decode_dimensions,
  decode_exit, decode_payload, take_record, next, encode,
}
use afk_cli.Limits.{ipc_header_bytes, max_ipc_payload_bytes, max_terminal_dimension}

abbrev pub IsDimension : ℕ → Type 0
IsDimension n = (1 ≤ n) × (n ≤ max_terminal_dimension)

abbrev pub IsPayload : List ℕ → Type 0
IsPayload bytes = (length bytes ≤ max_ipc_payload_bytes) × AreBytes bytes

-- What the types of the source and the protocol's limits allow of a record.
abbrev pub IsRecord : Record → Type 0
IsRecord (attach rows columns) = IsDimension rows × IsDimension columns
IsRecord (input bytes) = IsPayload bytes
IsRecord (output bytes) = IsPayload bytes
IsRecord (resize rows columns) = IsDimension rows × IsDimension columns
IsRecord stop = Unit
IsRecord (exit (code c)) = IsByte c
IsRecord (exit (signal s)) = (1 ≤ s) × (s ≤ 127)

-- The payload of a record, and the whole of its encoding, as a specification.
abbrev pub payload : Record → List ℕ
payload (attach rows columns) = be16 rows ++ be16 columns
payload (input bytes) = bytes
payload (output bytes) = bytes
payload (resize rows columns) = be16 rows ++ be16 columns
payload stop = []
payload (exit (code c)) = 0 ∷ c ∷ []
payload (exit (signal s)) = 1 ∷ s ∷ []

abbrev pub kind_of : Record → ℕ
kind_of (attach rows columns) = 1
kind_of (input bytes) = 2
kind_of (output bytes) = 3
kind_of (resize rows columns) = 4
kind_of stop = 5
kind_of (exit status) = 6

abbrev pub wire : Record → List ℕ
wire r = kind_of r ∷ be32 (length (payload r)) ++ payload r

pub payload-le : (r : Record) → IsRecord r → length (payload r) ≤ max_ipc_payload_bytes
payload-le (attach rows columns) h = omega arith
payload-le (input bytes) h = h.0
payload-le (output bytes) h = h.0
payload-le (resize rows columns) h = omega arith
payload-le stop h = omega arith
payload-le (exit (code c)) h = omega arith
payload-le (exit (signal s)) h = omega arith

-- Whatever is encoded, the limits that `encode` checks are enough.
pub encode-eq-wire : (r : Record) (bytes : List ℕ) → encode r ≡ ok bytes → bytes ≡ wire r
unfolding encode
encode-eq-wire (attach rows columns) bytes e = ground arith
encode-eq-wire (input b) bytes e = ground arith
encode-eq-wire (output b) bytes e = ground arith
encode-eq-wire (resize rows columns) bytes e = ground arith
encode-eq-wire stop bytes e = ground arith
encode-eq-wire (exit (code c)) bytes e = ground arith
encode-eq-wire (exit (signal s)) bytes e = ground arith

pub encode-wire : (r : Record) → IsRecord r → encode r ≡ ok (wire r)
unfolding encode
encode-wire (attach rows columns) h = ground arith
encode-wire (input bytes) h = ground arith
encode-wire (output bytes) h = ground arith
encode-wire (resize rows columns) h = ground arith
encode-wire stop h = ground arith
encode-wire (exit (code c)) h = ground arith
encode-wire (exit (signal s)) h = ground arith

pub decode_payload-payload :
    (r : Record) → IsRecord r → decode_payload (kind_of r) (payload r) ≡ ok r
unfolding decode_payload
decode_payload-payload (attach rows columns) h =
    rw (from_be16-be16 rows (omega arith), from_be16-be16 columns (omega arith)) (ground arith)
decode_payload-payload (input bytes) h = refl
decode_payload-payload (output bytes) h = refl
decode_payload-payload (resize rows columns) h =
    rw (from_be16-be16 rows (omega arith), from_be16-be16 columns (omega arith)) (ground arith)
decode_payload-payload stop h = refl
decode_payload-payload (exit (code c)) h = refl
decode_payload-payload (exit (signal s)) h = ground arith

-- A header whose length fits its payload hands exactly the payload on.
next-frame :
    (k : ℕ) (p rest : List ℕ)
    → length p ≤ max_ipc_payload_bytes
    → next (record { buffer = k ∷ be32 (length p) ++ p ++ rest })
      ≡ take_record k (length p) (record { buffer = k ∷ be32 (length p) ++ p ++ rest })
unfolding next
next-frame k p rest h =
    rw (from_be32-be32 (length p) (omega arith)) (ground (arith, length-append p rest))

take_record-eq :
    (k n : ℕ) (b p rest : List ℕ) (r : Record)
    → take n (drop ipc_header_bytes b) ≡ p
    → drop (ipc_header_bytes + n) b ≡ rest
    → decode_payload k p ≡ ok r
    → take_record k n (record { buffer = b }) ≡ (ok (some r), record { buffer = rest })
unfolding take_record
take_record-eq k n b p rest r t d e = rw (t, take_record) (rw (e, take_record) (rw d))

pub drop-header :
    (n : ℕ) (b0 b1 b2 b3 b4 : ℕ) (l : List ℕ)
    → drop (ipc_header_bytes + n) (b0 ∷ b1 ∷ b2 ∷ b3 ∷ b4 ∷ l) ≡ drop n l
drop-header n b0 b1 b2 b3 b4 l =
    drop-append_ge (ipc_header_bytes + n) n (b0 ∷ b1 ∷ b2 ∷ b3 ∷ b4 ∷ []) l (omega arith)

-- A record's encoding, with anything behind it, decodes to the record and leaves the rest.
pub next-wire :
    (r : Record) (rest : List ℕ)
    → IsRecord r
    → next (record { buffer = wire r ++ rest }) ≡ (ok (some r), record { buffer = rest })
next-wire r rest h =
    next-frame (kind_of r) (payload r) rest (payload-le r h)
    ∙ take_record-eq (kind_of r) (length (payload r)) (wire r ++ rest) (payload r) rest r
        (take-append_len (length (payload r)) (payload r) rest refl)
        (drop-header (length (payload r)) _ _ _ _ _ (payload r ++ rest)
          ∙ drop-append_len (length (payload r)) (payload r) rest refl)
        (decode_payload-payload r h)

-- Every record within the limits is encoded, and its encoding is decoded back to it, whatever
-- bytes follow.
pub decode-encode :
    (r : Record) (rest : List ℕ)
    → IsRecord r
    → (bs : List ℕ) × (encode r ≡ ok bs)
      × (next (record { buffer = bs ++ rest }) ≡ (ok (some r), record { buffer = rest }))
decode-encode r rest h = (wire r, encode-wire r h, next-wire r rest h)

record IsDimensions (p : List ℕ) (rows columns : ℕ) : Type 0 where
  rows_fit : IsDimension rows
  columns_fit : IsDimension columns
  printed : be16 rows ++ be16 columns ≡ p

decode_dimensions-inv :
    (p : List ℕ) (rows columns : ℕ)
    → AreBytes p
    → decode_dimensions p ≡ ok (rows, columns)
    → IsDimensions p rows columns
unfolding decode_dimensions
decode_dimensions-inv (a ∷ b ∷ c ∷ d ∷ []) rows columns h e =
    let er : rows ≡ from_be16 a b = ground arith in
    let ec : columns ≡ from_be16 c d = ground arith in
    record {
      rows_fit = ground arith;
      columns_fit = ground arith;
      printed =
          rw (er, ec) (cc (be16-from_be16 a b h.0 h.1.0, be16-from_be16 c d h.1.1.0 h.1.1.1.0));
    }
decode_dimensions-inv _ rows columns h e = cc

-- What it says of a payload that it decodes to a record.
pub record Decodes (k : ℕ) (p : List ℕ) (r : Record) : Type 0 where
  pub valid : IsRecord r
  pub same_kind : kind_of r ≡ k
  pub same_payload : payload r ≡ p

decode_exit-inv :
    (p : List ℕ) (status : ProcessExit)
    → AreBytes p
    → decode_exit p ≡ ok status
    → Decodes 6 p (exit status)
unfolding decode_exit
decode_exit-inv (a ∷ b ∷ []) (code c) h e = record {
  valid = ground arith;
  same_kind = refl;
  same_payload = ground arith;
}
decode_exit-inv (a ∷ b ∷ []) (signal c) h e = record {
  valid = ground arith;
  same_kind = refl;
  same_payload = ground arith;
}
decode_exit-inv _ status h e = cc

pub decode_payload-inv :
    (k : ℕ) (p : List ℕ) (r : Record) → IsPayload p → decode_payload k p ≡ ok r → Decodes k p r
unfolding decode_payload
decode_payload-inv k p (attach rows columns) h e =
    let d = decode_dimensions-inv p rows columns h.1 (ground arith) in
    record {
      valid = (d.rows_fit, d.columns_fit);
      same_kind = ground arith;
      same_payload = d.printed;
    }
decode_payload-inv k p (resize rows columns) h e =
    let d = decode_dimensions-inv p rows columns h.1 (ground arith) in
    record {
      valid = (d.rows_fit, d.columns_fit);
      same_kind = ground arith;
      same_payload = d.printed;
    }
decode_payload-inv k p (input bytes) h e = record {
  valid = ground arith;
  same_kind = ground arith;
  same_payload = ground arith;
}
decode_payload-inv k p (output bytes) h e = record {
  valid = ground arith;
  same_kind = ground arith;
  same_payload = ground arith;
}
decode_payload-inv k p stop h e = record {
  valid = tt;
  same_kind = ground arith;
  same_payload = ground arith;
}
decode_payload-inv k p (exit status) h e =
    let d = decode_exit-inv p status h.1 (ground arith) in
    record { valid = d.valid; same_kind = ground arith; same_payload = d.same_payload }
