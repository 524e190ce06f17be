-- ===== src/Ipc.antt =====
-- src/ipc.rs: the records that an attachment and a runner exchange, and their framing: one byte of
-- kind, four bytes of payload length, the payload.
pub mod Codec
pub mod Canonical
pub mod Framing
pub mod Stream
pub mod Room
mod Tests
use afk_cli.Prelude.{
  ℕ, zero, suc, ◌+◌, ◌-◌, ◌≤◌, ◌<◌, ◌^◌, ◌≡◌, min, ◌&&◌, List, [], ◌∷◌, ◌++◌, Option, none, some,
  Bool, true, false, leb, ltb, ◌==◌, if◌then◌else◌, is_empty, length, take, drop, get_or, AreBytes,
  IsByte, be16, from_be16, be32, from_be32, Result, ok, err, ◌>>=◌, ◌>>◌, ok_or, IoResult, io_error,
  invalid_input,
}
use afk_cli.Limits.{
  ipc_header_bytes, max_ipc_payload_bytes, max_ipc_record_bytes, max_terminal_dimension,
}

pub data ProcessExit : Type 0 where
  code signal : ℕ → ProcessExit

pub data Record : Type 0 where
  attach : (rows columns : ℕ) → Record
  input : List ℕ → Record
  output : List ℕ → Record
  resize : (rows columns : ℕ) → Record
  stop : Record
  exit : ProcessExit → Record

-- `128_u8.saturating_add(signal)`
unfoldable pub status_code : ProcessExit → ℕ
status_code (code c) = c
status_code (signal s) = min (128 + s) 255

pub data DecodeError : Type 0 where
  buffer_limit payload_too_large unknown_kind invalid_payload trailing_data truncated : DecodeError

pub record Decoder : Type 0 where
  pub buffer : List ℕ

-- `Decoder::default()`
abbrev pub empty_decoder : Decoder
empty_decoder = record { buffer = [] }

unfoldable pub remaining_capacity : Decoder → ℕ
remaining_capacity d = max_ipc_record_bytes - length d.buffer

unfoldable pub push : Decoder → List ℕ → Result DecodeError (Unit {0}) × Decoder
unfolding remaining_capacity
push d bytes =
    if ltb (remaining_capacity d) (length bytes)
    then (err buffer_limit, d)
    else (ok tt, record { buffer = d.buffer ++ bytes })

-- `(1..=MAX_TERMINAL_DIMENSION).contains(&n)`
abbrev pub is_dimension : ℕ → Bool
is_dimension n = leb 1 n && leb n max_terminal_dimension

unfoldable pub decode_dimensions : List ℕ → Result DecodeError (ℕ × ℕ)
decode_dimensions (row_high ∷ row_low ∷ column_high ∷ column_low ∷ []) =
    let rows = from_be16 row_high row_low in
    let columns = from_be16 column_high column_low in
    if is_dimension rows && is_dimension columns then ok (rows, columns) else err invalid_payload
decode_dimensions _ = err invalid_payload

unfoldable pub decode_exit : List ℕ → Result DecodeError ProcessExit
decode_exit (reason ∷ value ∷ []) =
    if reason == 0
    then ok (code value)
    else if reason == 1 && (leb 1 value && leb value 127)
    then ok (signal value)
    else err invalid_payload
decode_exit _ = err invalid_payload

-- The constants ATTACH, INPUT, OUTPUT, RESIZE, STOP and EXIT are 1 to 6.
unfoldable pub decode_payload : ℕ → List ℕ → Result DecodeError Record
unfolding decode_dimensions decode_exit
decode_payload kind payload =
    if kind == 1
    then (do (rows, columns) ← decode_dimensions payload; ok (attach rows columns))
    else if kind == 2
    then ok (input payload)
    else if kind == 3
    then ok (output payload)
    else if kind == 4
    then (do (rows, columns) ← decode_dimensions payload; ok (resize rows columns))
    else if kind == 5
    then (if is_empty payload then ok stop else err invalid_payload)
    else if kind == 6
    then (do status ← decode_exit payload; ok (exit status))
    else err unknown_kind

-- `Decoder::next` past its tests: the record that the payload is, and the buffer without it. An
-- error leaves the buffer as it is.
unfoldable pub take_record : ℕ → ℕ → Decoder → Result DecodeError (Option Record) × Decoder
take_record kind payload_length d =
    elim (decode_payload kind (take payload_length (drop ipc_header_bytes d.buffer))) [
      | ok r ↦ (ok (some r), record { buffer = drop (ipc_header_bytes + payload_length) d.buffer })
      | err e ↦ (err e, d)
    ]

abbrev pub buffered_length : List ℕ → ℕ
buffered_length b = from_be32 (get_or b 1 0) (get_or b 2 0) (get_or b 3 0) (get_or b 4 0)

-- `Decoder::next`. The indices are in range behind the first test.
unfoldable pub next : Decoder → Result DecodeError (Option Record) × Decoder
next d =
    if ltb (length d.buffer) ipc_header_bytes
    then (ok none, d)
    else let payload_length = buffered_length d.buffer in
      if ltb max_ipc_payload_bytes payload_length
      then (err payload_too_large, d)
      else if ltb (length d.buffer) (ipc_header_bytes + payload_length)
      then (ok none, d)
      else take_record (get_or d.buffer 0 0) payload_length d

unfoldable pub encoded_shape : Record → ℕ × ℕ
encoded_shape (attach rows columns) = (1, 4)
encoded_shape (input bytes) = (2, length bytes)
encoded_shape (output bytes) = (3, length bytes)
encoded_shape (resize rows columns) = (4, 4)
encoded_shape stop = (5, 0)
encoded_shape (exit status) = (6, 2)

-- The part of `write_record` behind the header.
unfoldable pub write_payload : List ℕ → Record → IoResult (Unit {0}) × List ℕ
write_payload out (attach rows columns) = (ok tt, out ++ be16 rows ++ be16 columns)
write_payload out (resize rows columns) = (ok tt, out ++ be16 rows ++ be16 columns)
write_payload out (input bytes) =
    if ltb max_ipc_payload_bytes (length bytes)
    then (err (io_error invalid_input), out)
    else (ok tt, out ++ bytes)
write_payload out (output bytes) =
    if ltb max_ipc_payload_bytes (length bytes)
    then (err (io_error invalid_input), out)
    else (ok tt, out ++ bytes)
write_payload out stop = (ok tt, out)
write_payload out (exit (code c)) = (ok tt, out ++ 0 ∷ c ∷ [])
write_payload out (exit (signal s)) = (ok tt, out ++ 1 ∷ s ∷ [])

-- `write_record` into a `Vec<u8>`, its only output in the program, whose writes do not fail.
unfoldable pub write_record : List ℕ → Record → IoResult (Unit {0}) × List ℕ
unfolding encoded_shape write_payload
write_record out r =
    let (kind, payload_length) = encoded_shape r in
    if leb (2 ^ 32) payload_length
    then (err (io_error invalid_input), out)
    else write_payload (out ++ kind ∷ be32 payload_length) r

unfoldable pub encode : Record → IoResult (List ℕ)
unfolding write_record
encode r =
    if ltb max_ipc_payload_bytes (encoded_shape r).1
    then err (io_error invalid_input)
    else (let (written, encoded) = write_record [] r in written >> ok encoded)

-- The loop `while let Some(record) = decoder.next()?` of both readers. Each round takes a header
-- from the buffer at least, so as many rounds as there are bytes are enough.
unfoldable pub drain_loop : ℕ → Decoder → Result DecodeError (List Record) × Decoder
drain_loop zero d = (ok [], d)
drain_loop (suc f) d =
    let (step, d') = next d in
    elim step [
      | err e ↦ (err e, d')
      | ok found ↦ elim found [
        | none ↦ (ok [], d')
        | some r ↦ (let (rest, d'') = drain_loop f d' in (rest >>= λ rs. ok (r ∷ rs), d''))
      ]
    ]

unfoldable pub drain : Decoder → Result DecodeError (List Record) × Decoder
unfolding drain_loop
drain d = drain_loop (length d.buffer) d

-- `decode_exact` of the source's tests: one record and nothing behind it.
pub decode_exact : List ℕ → Result DecodeError Record
unfolding push next take_record decode_payload
decode_exact bytes =
    let (pushed, d) = push empty_decoder bytes in
    let (found, d') = next d in
    do
      pushed
      o ← found
      r ← ok_or o truncated
      if is_empty d'.buffer then ok r else err trailing_data
