-- ===== src/OutputTail.antt =====
-- src/output_tail.rs: the last bytes of the terminal's output, up to a capacity.
pub mod Suffix
mod Tests
use afk_cli.Prelude.{
  ℕ, ◌+◌, ◌-◌, ◌^◌, min, List, [], ◌++◌, Bool, true, false, not, ◌||◌, leb, ltb, ◌==◌,
  if◌then◌else◌, length, drop, is_empty, ◌∷◌, codes,
}

pub record OutputTail : Type 0 where
  pub bytes : List ℕ
  pub capacity : ℕ
  pub truncated : Bool

abbrev pub empty_tail : ℕ → OutputTail
empty_tail capacity = record { bytes = []; capacity = capacity; truncated = false }

-- `usize::saturating_add`
abbrev pub saturating_add : ℕ → ℕ → ℕ
saturating_add a b = min (a + b) (2 ^ 64 - 1)

-- How many of the oldest bytes must go before `incoming` fits.
abbrev pub overflow : OutputTail → List ℕ → ℕ
overflow t incoming = saturating_add (length t.bytes) (length incoming) - t.capacity

unfoldable pub extend : OutputTail → List ℕ → OutputTail
extend t incoming =
    if is_empty incoming
    then t
    else if t.capacity == 0
    then record t { truncated = true }
    else if leb t.capacity (length incoming)
    then record t {
      bytes = drop (length incoming - t.capacity) incoming;
      truncated = t.truncated || (not (is_empty t.bytes) || ltb t.capacity (length incoming));
    }
    else if overflow t incoming == 0
    then record t { bytes = t.bytes ++ incoming }
    else record t { bytes = drop (overflow t incoming) t.bytes ++ incoming; truncated = true }

abbrev pub snapshot : OutputTail → List ℕ
snapshot t = t.bytes

abbrev pub is_truncated : OutputTail → Bool
is_truncated t = t.truncated

-- `b"\r\n[afk: earlier terminal output was truncated]\r\n"`
abbrev pub truncation_marker : List ℕ
truncation_marker = 13 ∷ 10 ∷ codes "[afk: earlier terminal output was truncated]" ++ 13 ∷ 10 ∷ []
