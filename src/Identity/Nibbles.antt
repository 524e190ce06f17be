-- ===== src/Identity/Nibbles.antt =====
-- The digits of src/identity.rs, one byte at a time, by evaluation over all bytes.
use Prim.Native.Nat.{bit_and, bit_or}
use afk_cli.Prelude.{
  ℕ, zero, suc, ◌+◌, ◌-◌, ◌*◌, ◌/◌, ◌%◌, ◌≤◌, ◌<◌, ◌≡◌, refl, ◌⊎◌, inl, inr, Bool, true, ◌&&◌, some,
  ◌==◌, ==→eq, if◌then◌else◌, ltb, arith, get_or,
}
use afk_cli.Identity.{decode_nibble, hex}

-- A test that passes for every number under a bound, tried one by one.
passes_under : (ℕ → Bool) → ℕ → Bool
passes_under test zero = true
passes_under test (suc bound) = test bound && passes_under test bound

passes_under-each :
    (test : ℕ → Bool) (bound x : ℕ) → passes_under test bound ≡ true → x < bound → test x ≡ true
unfolding passes_under
passes_under-each test zero x passed small = absurd (omega arith)
passes_under-each test (suc bound) x passed small = ground (arith, passes_under-each test bound x)

low_nibble_table : passes_under (λ b. bit_and b 0x0f == b % 16) 256 ≡ true
unfolding passes_under
low_nibble_table = refl

pub low_nibble : (b : ℕ) → b < 256 → bit_and b 0x0f ≡ b % 16
low_nibble b h =
    ==→eq _ _ (passes_under-each (λ b. bit_and b 0x0f == b % 16) 256 b low_nibble_table h)

join_table : passes_under (λ b. bit_or (b / 16 * 16 % 256) (b % 16) == b) 256 ≡ true
unfolding passes_under
join_table = refl

-- The two halves of a byte make it up again.
pub join_halves : (b : ℕ) → b < 256 → bit_or (b / 16 * 16 % 256) (b % 16) ≡ b
join_halves b h =
    ==→eq _ _ (passes_under-each (λ b. bit_or (b / 16 * 16 % 256) (b % 16) == b) 256 b join_table h)

pub join_nibbles : (h l : ℕ) → h < 16 → l < 16 → bit_or (h * 16 % 256) l ≡ h * 16 + l
join_nibbles h l hh hl =
    let high : (h * 16 + l) / 16 ≡ h = omega arith in
    let low : (h * 16 + l) % 16 ≡ l = omega arith in
    rw (high, low) at (join_halves (h * 16 + l) (omega arith))

-- The table of digits, in closed form.
abbrev digit : ℕ → ℕ
digit n = if ltb n 10 then b'0' + n else b'a' + n - 10

digit_table : passes_under (λ n. get_or hex n 0 == digit n) 16 ≡ true
unfolding passes_under
digit_table = refl

hex-digit : (n : ℕ) → n < 16 → get_or hex n 0 ≡ digit n
hex-digit n h = ==→eq _ _ (passes_under-each (λ n. get_or hex n 0 == digit n) 16 n digit_table h)

pub decode_nibble-hex : (n : ℕ) → n < 16 → decode_nibble (get_or hex n 0) ≡ some n
unfolding decode_nibble
decode_nibble-hex n h = rw (hex-digit n h) (ground arith)

pub decode_nibble-lt : (c n : ℕ) → decode_nibble c ≡ some n → n < 16
unfolding decode_nibble
decode_nibble-lt c n h = ground arith

-- A digit that decodes is the one that encodes its value.
pub hex-decode_nibble : (c n : ℕ) → decode_nibble c ≡ some n → get_or hex n 0 ≡ c
unfolding decode_nibble
hex-decode_nibble c n h = rw (hex-digit n (decode_nibble-lt c n h)) (ground arith)

abbrev pub IsLowerHex : ℕ → Type 0
IsLowerHex c = ((b'0' ≤ c) × (c ≤ b'9')) ⊎ ((b'a' ≤ c) × (c ≤ b'f'))

pub decode_nibble-IsLowerHex : (c : ℕ) → IsLowerHex c → (n : ℕ) × (decode_nibble c ≡ some n)
unfolding decode_nibble
decode_nibble-IsLowerHex c (inl h) = (c - b'0', ground arith)
decode_nibble-IsLowerHex c (inr h) = (c - b'a' + 10, ground arith)

pub IsLowerHex-decode_nibble : (c n : ℕ) → decode_nibble c ≡ some n → IsLowerHex c
unfolding decode_nibble
IsLowerHex-decode_nibble c n h = grind arith
