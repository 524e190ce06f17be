-- ===== src/Identity/RoundTrip.antt =====
-- src/identity.rs: parsing and printing together.
use Prim.Native.Nat.{bit_or}
use afk_cli.Prelude.{
  ℕ, zero, suc, ◌+◌, ◌*◌, ◌/◌, ◌%◌, ◌≡◌, refl, ◌↔◌, List, [], ◌∷◌, some, arith, ==→eq, Bool-cases,
  inl, inr, ◌==◌, length, All, AreBytes, ok, ok_or, >>=-eq-ok, ok_or-eq-ok,
}
use afk_cli.Identity.{
  SessionId, invalid_session_id, IsSessionId, decode_nibble, decode_pairs, parse_bytes,
  encode_pairs, display,
}
use afk_cli.Identity.Nibbles.{
  low_nibble, join_halves, join_nibbles, decode_nibble-hex, decode_nibble-lt, hex-decode_nibble,
  IsLowerHex, decode_nibble-IsLowerHex, IsLowerHex-decode_nibble,
}

decode_pairs-encode_pairs : (bs : List ℕ) → AreBytes bs → decode_pairs (encode_pairs bs) ≡ ok bs
unfolding decode_pairs encode_pairs
decode_pairs-encode_pairs [] h = refl
decode_pairs-encode_pairs (b ∷ bs) h = rw (
  low_nibble b h.0,
  decode_nibble-hex (b / 16) (omega arith),
  decode_nibble-hex (b % 16) (omega arith),
  decode_pairs-encode_pairs bs h.1,
  join_halves b h.0,
)

length-encode_pairs : (bs : List ℕ) → length (encode_pairs bs) ≡ 2 * length bs
unfolding encode_pairs
length-encode_pairs [] = refl
length-encode_pairs (b ∷ bs) = omega (arith, length-encode_pairs bs)

pub length-display : (s : SessionId) → IsSessionId s → length (display s) ≡ 32
unfolding display
length-display s h = omega (arith, length-encode_pairs s.bytes, h.width)

-- Every identifier of 16 bytes is parsed back from its text.
pub parse_bytes-display : (s : SessionId) → IsSessionId s → parse_bytes (display s) ≡ ok s
unfolding parse_bytes display
parse_bytes-display s h =
    let len : length (encode_pairs s.bytes) ≡ 32 =
      omega (arith, length-encode_pairs s.bytes, h.width) in
    rw (len, decode_pairs-encode_pairs s.bytes h.are_bytes)

-- What a pair of digits that decodes says: both decode, and so does the rest.
decode_pairs-inv :
    (h l : ℕ) (rest bs : List ℕ)
    → decode_pairs (h ∷ l ∷ rest) ≡ ok bs
    → (high : ℕ) × (low : ℕ) × (tail : List ℕ) × (decode_nibble h ≡ some high)
      × (decode_nibble l ≡ some low)
      × (decode_pairs rest ≡ ok tail)
      × (bs ≡ (high * 16 + low) ∷ tail)
unfolding decode_pairs
decode_pairs-inv h l rest bs e =
    let (high, eh, after_high) = >>=-eq-ok (ok_or (decode_nibble h) invalid_session_id) _ e in
    let (low, el, after_low) =
      >>=-eq-ok (ok_or (decode_nibble l) invalid_session_id) _ after_high in
    let (tail, et, last) = >>=-eq-ok (decode_pairs rest) _ after_low in
    let dh = ok_or-eq-ok (decode_nibble h) invalid_session_id eh in
    let dl = ok_or-eq-ok (decode_nibble l) invalid_session_id el in
    (
      high,
      low,
      tail,
      dh,
      dl,
      et,
      cc (join_nibbles high low (decode_nibble-lt h high dh) (decode_nibble-lt l low dl)),
    )

-- What the digits say of the bytes that they decode to.
record Decoded (digits bytes : List ℕ) : Type 0 where
  printed : encode_pairs bytes ≡ digits
  are_bytes : AreBytes bytes
  width : length digits ≡ 2 * length bytes
  lower : All IsLowerHex digits

encode_pairs-cons :
    (h l high low : ℕ) (bs ds : List ℕ)
    → decode_nibble h ≡ some high
    → decode_nibble l ≡ some low
    → encode_pairs bs ≡ ds
    → encode_pairs ((high * 16 + low) ∷ bs) ≡ h ∷ l ∷ ds
unfolding encode_pairs
encode_pairs-cons h l high low bs ds dh dl e =
    let hh = decode_nibble-lt h high dh in
    let hl = decode_nibble-lt l low dl in
    let q : (high * 16 + low) / 16 ≡ high = omega arith in
    let r : (high * 16 + low) % 16 ≡ low = omega arith in
    rw (
      low_nibble (high * 16 + low) (omega arith),
      q,
      r,
      hex-decode_nibble h high dh,
      hex-decode_nibble l low dl,
      e,
    )

decode_pairs-Decoded :
    (k : ℕ) (ds bs : List ℕ) → length ds ≡ 2 * k → decode_pairs ds ≡ ok bs → Decoded ds bs
unfolding encode_pairs decode_pairs
decode_pairs-Decoded k [] [] n e = record {
  printed = refl;
  are_bytes = tt;
  width = refl;
  lower = tt;
}
decode_pairs-Decoded k [] (b ∷ bs) n e = cc
decode_pairs-Decoded k (h ∷ []) bs n e = absurd (omega arith)
decode_pairs-Decoded zero (h ∷ l ∷ ds) bs n e = absurd (omega arith)
decode_pairs-Decoded (suc k) (h ∷ l ∷ ds) bs n e =
    let (high, low, tail, dh, dl, dt, eq) = decode_pairs-inv h l ds bs e in
    let r = decode_pairs-Decoded k ds tail (omega arith) dt in
    let hh = decode_nibble-lt h high dh in
    let hl = decode_nibble-lt l low dl in
    rw eq (record {
      printed = encode_pairs-cons h l high low tail ds dh dl r.printed;
      are_bytes = (omega arith, r.are_bytes);
      width = omega (arith, r.width);
      lower = (IsLowerHex-decode_nibble h high dh, (IsLowerHex-decode_nibble l low dl, r.lower));
    })

parse_bytes-Decoded :
    (ds : List ℕ) (s : SessionId) → parse_bytes ds ≡ ok s → (length ds ≡ 32) × Decoded ds s.bytes
unfolding parse_bytes
parse_bytes-Decoded ds s e = elim (Bool-cases (length ds == 32)) [
  | inl t ↦
      let n = ==→eq (length ds) 32 t in
      let (bs, eb, es) = >>=-eq-ok (decode_pairs ds) _ (rw t at e) in
      (n, decode_pairs-Decoded 16 ds s.bytes n (cc))
  | inr f ↦ cc
]

-- A text that is accepted is the text of its identifier, and no other is: the identifier is well
-- formed and prints back to the same bytes.
pub display-parse_bytes :
    (ds : List ℕ) (s : SessionId) → parse_bytes ds ≡ ok s → IsSessionId s × (display s ≡ ds)
unfolding display
display-parse_bytes ds s e =
    let (n, d) = parse_bytes-Decoded ds s e in
    (record { width = omega (arith, d.width); are_bytes = d.are_bytes }, d.printed)

decode_pairs-total : (ds : List ℕ) → All IsLowerHex ds → (bs : List ℕ) × (decode_pairs ds ≡ ok bs)
unfolding decode_pairs
decode_pairs-total [] h = ([], refl)
decode_pairs-total (c ∷ []) h = ([], refl)
decode_pairs-total (c ∷ l ∷ ds) h =
    let (high, dh) = decode_nibble-IsLowerHex c h.0 in
    let (low, dl) = decode_nibble-IsLowerHex l h.1.0 in
    let (bs, e) = decode_pairs-total ds h.1.1 in (bit_or (high * 16 % 256) low ∷ bs, rw (dh, dl, e))

-- A text is accepted exactly when it has 32 bytes, all of them lowercase hexadecimal digits.
pub parse_bytes-accepts :
    (ds : List ℕ)
    → ((s : SessionId) × (parse_bytes ds ≡ ok s)) ↔ ((length ds ≡ 32) × All IsLowerHex ds)
unfolding parse_bytes
parse_bytes-accepts ds = (
  λ (s, e). let (n, d) = parse_bytes-Decoded ds s e in (n, d.lower),
  λ (n, h). let (bs, e) = decode_pairs-total ds h in (record { bytes = bs }, rw (n, e)),
)
