-- ===== src/Prelude/Bytes.antt =====
-- Bytes as numbers below 256, and big-endian words: `to_be_bytes`, `from_be_bytes`.
use Prim.Native.Nat.{ℕ, ◌+◌, ◌*◌, ◌/◌, ◌%◌, ◌^◌, ◌<◌}
use mathlib.Core.Path.{◌≡◌}
use mathlib.Core.List.{List, [], ◌∷◌}
use native.Mathlib.Omega.{arith}
use mathlib.Core.Bool.{Bool, true, ◌&&◌}
use afk_cli.Prelude.Tests.{ltb}
use afk_cli.Prelude.Lists.{All}

abbrev pub IsByte : ℕ → Type 0
IsByte b = b < 256

abbrev pub AreBytes : List ℕ → Type 0
AreBytes bs = All IsByte bs

abbrev pub be16 : ℕ → List ℕ
be16 v = (v / 256 % 256) ∷ (v % 256) ∷ []

abbrev pub from_be16 : ℕ → ℕ → ℕ
from_be16 h l = h * 256 + l

abbrev pub be32 : ℕ → List ℕ
be32 v = (v / 16777216 % 256) ∷ (v / 65536 % 256) ∷ (v / 256 % 256) ∷ (v % 256) ∷ []

abbrev pub from_be32 : ℕ → ℕ → ℕ → ℕ → ℕ
from_be32 a b c d = ((a * 256 + b) * 256 + c) * 256 + d

pub from_be16-be16 : (v : ℕ) → v < 2 ^ 16 → from_be16 (v / 256 % 256) (v % 256) ≡ v
from_be16-be16 v h = omega arith

pub from_be32-be32 :
    (v : ℕ)
    → v < 2 ^ 32
    → from_be32 (v / 16777216 % 256) (v / 65536 % 256) (v / 256 % 256) (v % 256) ≡ v
from_be32-be32 v h = omega arith

pub be16-from_be16 : (h l : ℕ) → IsByte h → IsByte l → be16 (from_be16 h l) ≡ h ∷ l ∷ []
be16-from_be16 h l hh hl =
    let q : (h * 256 + l) / 256 % 256 ≡ h = omega arith in
    let r : (h * 256 + l) % 256 ≡ l = omega arith in rw (q, r)

pub be32-from_be32 :
    (a b c d : ℕ)
    → IsByte a
    → IsByte b
    → IsByte c
    → IsByte d
    → be32 (from_be32 a b c d) ≡ a ∷ b ∷ c ∷ d ∷ []
be32-from_be32 a b c d ha hb hc hd =
    let v : ℕ = ((a * 256 + b) * 256 + c) * 256 + d in
    let p : v / 16777216 % 256 ≡ a = omega arith in
    let q : v / 65536 % 256 ≡ b = omega arith in
    let r : v / 256 % 256 ≡ c = omega arith in let s : v % 256 ≡ d = omega arith in rw (p, q, r, s)

abbrev pub are_bytes : List ℕ → Bool
are_bytes [] = true
are_bytes (b ∷ bs) = ltb b 256 && are_bytes bs

pub are_bytes-AreBytes : (bs : List ℕ) → are_bytes bs ≡ true → AreBytes bs
are_bytes-AreBytes [] e = tt
are_bytes-AreBytes (b ∷ bs) e = (ground arith, are_bytes-AreBytes bs (ground arith))
