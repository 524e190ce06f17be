-- ===== src/Identity.antt =====
-- src/identity.rs: session identifiers, 16 bytes written as 32 lowercase hexadecimal digits.
pub mod Nibbles
pub mod RoundTrip
mod Tests
use Prim.Native.Nat.{bit_and, bit_or}
use afk_cli.Prelude.{
  ℕ, ◌+◌, ◌-◌, ◌*◌, ◌/◌, ◌%◌, ◌<◌, ◌≡◌, ◌&&◌, List, [], ◌∷◌, Option, none, some, leb, ◌==◌,
  if◌then◌else◌, length, get_or, AreBytes, Result, ok, err, ◌>>=◌, ok_or,
}

pub record SessionId : Type 0 where
  pub bytes : List ℕ

pub data InvalidSessionId : Type 0 where
  invalid_session_id : InvalidSessionId

-- The array type of the source, `[u8; 16]`.
pub record IsSessionId (s : SessionId) : Type 0 where
  pub width : length s.bytes ≡ 16
  pub are_bytes : AreBytes s.bytes

unfoldable pub decode_nibble : ℕ → Option ℕ
decode_nibble byte =
    if leb b'0' byte && leb byte b'9'
    then some (byte - b'0')
    else if leb b'a' byte && leb byte b'f'
    then some (byte - b'a' + 10)
    else none

-- The loop over `encoded.chunks_exact(2)`, which leaves out an odd byte at the end. On a `u8`,
-- `high << 4` drops the bits above the eighth.
unfoldable pub decode_pairs : List ℕ → Result InvalidSessionId (List ℕ)
decode_pairs [] = ok []
decode_pairs (h ∷ []) = ok []
decode_pairs (h ∷ l ∷ rest) = do
  high ← ok_or (decode_nibble h) invalid_session_id
  low ← ok_or (decode_nibble l) invalid_session_id
  bytes ← decode_pairs rest
  ok (bit_or (high * 16 % 256) low ∷ bytes)

unfoldable pub parse_bytes : List ℕ → Result InvalidSessionId SessionId
unfolding decode_pairs decode_nibble
parse_bytes encoded =
    if length encoded == 32
    then (do bytes ← decode_pairs encoded; ok (record { bytes = bytes }))
    else err invalid_session_id

abbrev pub hex : List ℕ
hex =
    b'0' ∷ b'1' ∷ b'2' ∷ b'3' ∷ b'4' ∷ b'5' ∷ b'6' ∷ b'7' ∷ b'8' ∷ b'9' ∷ b'a' ∷ b'b' ∷ b'c' ∷ b'd'
    ∷ b'e' ∷ b'f' ∷ []

-- The loop of `Display::fmt`: two digits for each byte, the high one first.
pub encode_pairs : List ℕ → List ℕ
encode_pairs [] = []
encode_pairs (byte ∷ rest) =
    get_or hex (byte / 16) 0 ∷ get_or hex (bit_and byte 0x0f) 0 ∷ encode_pairs rest

-- `to_string`
pub display : SessionId → List ℕ
unfolding encode_pairs
display s = encode_pairs s.bytes
