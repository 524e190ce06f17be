-- ===== src/Prelude/Chunks.antt =====
-- `slice.chunks(n)`: consecutive pieces of `n` items, the last one possibly shorter.
use Prim.Native.Nat.{ℕ, zero, suc, ◌*◌, ◌≤◌, ◌<◌}
use mathlib.Core.Path.{◌≡◌, refl, ap, ◌∙◌}
use mathlib.Core.List.{List, [], ◌∷◌, ◌++◌}
use native.Mathlib.Omega.{arith}
use afk_cli.Prelude.Lists.{
  length, take, drop, take-append-drop, length-take, length-drop, All, All-take, All-drop,
}

module _ {ℓ} {A : Type ℓ} where
  -- Each piece has an item at least, so as many rounds as there are items are enough.
  chunks_loop : ℕ → ℕ → List A → List (List A)
  chunks_loop zero n xs = []
  chunks_loop (suc f) n [] = []
  chunks_loop (suc f) n (x ∷ xs) = take n (x ∷ xs) ∷ chunks_loop f n (drop n (x ∷ xs))

  unfoldable pub chunks : ℕ → List A → List (List A)
  unfolding chunks_loop
  chunks n xs = chunks_loop (length xs) n xs

  abbrev pub concat : List (List A) → List A
  concat [] = []
  concat (xs ∷ xss) = xs ++ concat xss

  concat-chunks_loop :
      (f n : ℕ) (xs : List A) → 0 < n → length xs ≤ f → concat (chunks_loop f n xs) ≡ xs
  unfolding chunks_loop
  concat-chunks_loop zero n [] hn hf = refl
  concat-chunks_loop zero n (x ∷ xs) hn hf = absurd (omega arith)
  concat-chunks_loop (suc f) n [] hn hf = refl
  concat-chunks_loop (suc f) n (x ∷ xs) hn hf =
      ap (λ l. take n (x ∷ xs) ++ l)
        (concat-chunks_loop f n (drop n (x ∷ xs)) hn (omega (arith, length-drop n (x ∷ xs))))
      ∙ take-append-drop n (x ∷ xs)

  pub concat-chunks : (n : ℕ) (xs : List A) → 0 < n → concat (chunks n xs) ≡ xs
  unfolding chunks
  concat-chunks n xs hn = concat-chunks_loop (length xs) n xs hn (omega arith)

  chunks_loop_count :
      (f n k : ℕ) (xs : List A) → length xs ≤ k * n → length (chunks_loop f n xs) ≤ k
  unfolding chunks_loop
  chunks_loop_count zero n k xs h = omega arith
  chunks_loop_count (suc f) n k [] h = omega arith
  chunks_loop_count (suc f) n zero (x ∷ xs) h = absurd (omega arith)
  chunks_loop_count (suc f) n (suc k) (x ∷ xs) h =
      omega
        (arith, chunks_loop_count f n k (drop n (x ∷ xs)) (omega (arith, length-drop n (x ∷ xs))))

  -- What fits `k` pieces is cut into no more.
  pub chunks_count : (n k : ℕ) (xs : List A) → length xs ≤ k * n → length (chunks n xs) ≤ k
  unfolding chunks
  chunks_count n k xs h = chunks_loop_count (length xs) n k xs h

module _ {ℓ κ} {A : Type ℓ} (P : A → Type κ) where
  chunks_loop-All :
      (f n : ℕ) (xs : List A) → All P xs → All (λ c. (length c ≤ n) × All P c) (chunks_loop f n xs)
  unfolding chunks_loop
  chunks_loop-All zero n xs h = tt
  chunks_loop-All (suc f) n [] h = tt
  chunks_loop-All (suc f) n (x ∷ xs) h = (
    (omega (arith, length-take n (x ∷ xs)), All-take P n (x ∷ xs) h),
    chunks_loop-All f n (drop n (x ∷ xs)) (All-drop P n (x ∷ xs) h),
  )

  -- A piece has at most `n` items, and what holds of every item holds of those.
  pub chunks-All :
      (n : ℕ) (xs : List A) → All P xs → All (λ c. (length c ≤ n) × All P c) (chunks n xs)
  unfolding chunks
  chunks-All n xs h = chunks_loop-All (length xs) n xs h
