-- ===== src/Identity/Tests.antt =====
-- src/identity.rs on concrete identifiers.
use afk_cli.Prelude.{ℕ, ◌≡◌, refl, List, [], ◌∷◌, ◌↔◌, length, codes, ok, All, are_bytes-AreBytes}
use afk_cli.Identity.{
  SessionId, IsSessionId, parse_bytes, display, decode_nibble, decode_pairs, encode_pairs,
}
use afk_cli.Identity.Nibbles.{IsLowerHex}
use afk_cli.Identity.RoundTrip.{parse_bytes-display, parse_bytes-accepts}

abbrev sample : SessionId
sample = record {
  bytes = 0 ∷ 1 ∷ 16 ∷ 127 ∷ 128 ∷ 254 ∷ 255 ∷ 9 ∷ 10 ∷ 160 ∷ 144 ∷ 7 ∷ 8 ∷ 99 ∷ 200 ∷ 33 ∷ [];
}

abbrev sample_text : List ℕ
sample_text = codes "0001107f80feff090aa090070863c821"

sample-IsSessionId : IsSessionId sample
sample-IsSessionId = record { width = refl; are_bytes = are_bytes-AreBytes sample.bytes refl }

sample-display : display sample ≡ sample_text
unfolding display encode_pairs
sample-display = refl

sample-parse_bytes : parse_bytes sample_text ≡ ok sample
unfolding parse_bytes decode_pairs decode_nibble
sample-parse_bytes = refl

parse_bytes-display_example : parse_bytes (display sample) ≡ ok sample
parse_bytes-display_example = parse_bytes-display sample sample-IsSessionId

parse_bytes-accepts_example :
    ((s : SessionId) × (parse_bytes sample_text ≡ ok s))
    ↔ ((length sample_text ≡ 32) × All IsLowerHex sample_text)
parse_bytes-accepts_example = parse_bytes-accepts sample_text
