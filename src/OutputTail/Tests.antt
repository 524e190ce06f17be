-- ===== src/OutputTail/Tests.antt =====
-- src/output_tail.rs on three writes that do not all fit.
use afk_cli.Prelude.{ℕ, ◌≡◌, refl, List, [], ◌∷◌, ltb, length, concat, arith}
use afk_cli.OutputTail.{empty_tail, extend, snapshot, is_truncated}
use afk_cli.OutputTail.Suffix.{last_bytes, extend_all, snapshot-extend_all}

abbrev sample_writes : List (List ℕ)
sample_writes = (1 ∷ 2 ∷ []) ∷ (3 ∷ 4 ∷ 5 ∷ []) ∷ (6 ∷ []) ∷ []

sample-snapshot : snapshot (extend_all (empty_tail 4) sample_writes) ≡ 3 ∷ 4 ∷ 5 ∷ 6 ∷ []
unfolding extend_all extend
sample-snapshot = refl

snapshot-extend_all_example :
    (snapshot (extend_all (empty_tail 4) sample_writes) ≡ last_bytes 4 (concat sample_writes))
    × (is_truncated (extend_all (empty_tail 4) sample_writes)
        ≡ ltb 4 (length (concat sample_writes)))
snapshot-extend_all_example = snapshot-extend_all 4 sample_writes (omega arith)
