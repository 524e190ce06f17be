-- ===== src/Prelude/Lists.antt =====
-- Lists measured and cut by native numbers, under the library's names.
use Prim.Native.Nat.{ℕ, zero, suc, ◌+◌, ◌-◌, ◌≤◌, ◌<◌, min}
use mathlib.Core.Path.{◌≡◌, refl, ap, sym}
use mathlib.Core.List.{List, [], ◌∷◌, ◌++◌}
use mathlib.Core.Bool.{Bool, true, false, false≢true}
use afk_cli.Prelude.Tests.{leb}
use native.Mathlib.Omega.{arith}

module _ {ℓ} {A : Type ℓ} where
  abbrev pub length : List A → ℕ
  length [] = 0
  length (x ∷ xs) = suc (length xs)

  abbrev pub take : ℕ → List A → List A
  take zero xs = []
  take (suc n) [] = []
  take (suc n) (x ∷ xs) = x ∷ take n xs

  abbrev pub drop : ℕ → List A → List A
  drop zero xs = xs
  drop (suc n) [] = []
  drop (suc n) (x ∷ xs) = drop n xs

  abbrev pub get_or : List A → ℕ → A → A
  get_or [] i d = d
  get_or (x ∷ xs) zero d = x
  get_or (x ∷ xs) (suc i) d = get_or xs i d

  -- `is_empty` of a slice, a vector or a deque
  abbrev pub is_empty : List A → Bool
  is_empty [] = true
  is_empty (x ∷ xs) = false

  pub length-append : (xs ys : List A) → length (xs ++ ys) ≡ length xs + length ys
  length-append [] ys = omega arith
  length-append (x ∷ xs) ys = omega (arith, length-append xs ys)

  pub take-append-drop : (n : ℕ) (xs : List A) → take n xs ++ drop n xs ≡ xs
  take-append-drop zero xs = refl
  take-append-drop (suc n) [] = refl
  take-append-drop (suc n) (x ∷ xs) = rw (take-append-drop n xs)

  pub length-take : (n : ℕ) (xs : List A) → length (take n xs) ≡ min n (length xs)
  length-take zero xs = omega arith
  length-take (suc n) [] = omega arith
  length-take (suc n) (x ∷ xs) = omega (arith, length-take n xs)

  pub length-drop : (n : ℕ) (xs : List A) → length (drop n xs) ≡ length xs - n
  length-drop zero xs = omega arith
  length-drop (suc n) [] = omega arith
  length-drop (suc n) (x ∷ xs) = omega (arith, length-drop n xs)

module _ {ℓ} {A : Type ℓ} where
  -- The count is a variable with an equation, so that a record's length field can stand for it.
  pub take-append_len : (n : ℕ) (xs ys : List A) → n ≡ length xs → take n (xs ++ ys) ≡ xs
  take-append_len zero [] ys e = refl
  take-append_len zero (x ∷ xs) ys e = absurd (omega arith)
  take-append_len (suc n) [] ys e = absurd (omega arith)
  take-append_len (suc n) (x ∷ xs) ys e = ap (λ l. x ∷ l) (take-append_len n xs ys (omega arith))

  pub drop-append_len : (n : ℕ) (xs ys : List A) → n ≡ length xs → drop n (xs ++ ys) ≡ ys
  drop-append_len zero [] ys e = refl
  drop-append_len zero (x ∷ xs) ys e = absurd (omega arith)
  drop-append_len (suc n) [] ys e = absurd (omega arith)
  drop-append_len (suc n) (x ∷ xs) ys e = drop-append_len n xs ys (omega arith)

  pub take_all : (n : ℕ) (xs : List A) → length xs ≤ n → take n xs ≡ xs
  take_all zero [] h = refl
  take_all zero (x ∷ xs) h = absurd (omega arith)
  take_all (suc n) [] h = refl
  take_all (suc n) (x ∷ xs) h = ap (λ l. x ∷ l) (take_all n xs (omega arith))

  pub drop_all : (n : ℕ) (xs : List A) → length xs ≤ n → drop n xs ≡ []
  drop_all zero [] h = refl
  drop_all zero (x ∷ xs) h = absurd (omega arith)
  drop_all (suc n) [] h = refl
  drop_all (suc n) (x ∷ xs) h = drop_all n xs (omega arith)

  -- Cutting within the first part leaves the second whole, and cutting past it reaches the second.
  pub drop-append_le :
      (n : ℕ) (xs ys : List A) → n ≤ length xs → drop n (xs ++ ys) ≡ drop n xs ++ ys
  drop-append_le zero xs ys h = refl
  drop-append_le (suc n) [] ys h = absurd (omega arith)
  drop-append_le (suc n) (x ∷ xs) ys h = drop-append_le n xs ys (omega arith)

  pub drop-append_ge :
      (n k : ℕ) (xs ys : List A) → n ≡ length xs + k → drop n (xs ++ ys) ≡ drop k ys
  drop-append_ge n k [] ys h = ap (λ m. drop m ys) (omega arith)
  drop-append_ge zero k (x ∷ xs) ys h = absurd (omega arith)
  drop-append_ge (suc n) k (x ∷ xs) ys h = drop-append_ge n k xs ys (omega arith)

  pub take-append_le : (n : ℕ) (xs ys : List A) → n ≤ length xs → take n (xs ++ ys) ≡ take n xs
  take-append_le zero xs ys h = refl
  take-append_le (suc n) [] ys h = absurd (omega arith)
  take-append_le (suc n) (x ∷ xs) ys h = ap (λ l. x ∷ l) (take-append_le n xs ys (omega arith))

  pub drop-drop : (m n : ℕ) (xs : List A) → drop m (drop n xs) ≡ drop (n + m) xs
  drop-drop m zero xs = let e : m ≡ 0 + m = omega arith in ap (λ k. drop k xs) e
  drop-drop zero (suc n) xs = let e : suc n ≡ suc n + 0 = omega arith in ap (λ k. drop k xs) e
  drop-drop (suc m) (suc n) [] = let e : suc n + suc m ≡ suc (n + suc m) = omega arith in rw e
  drop-drop (suc m) (suc n) (x ∷ xs) =
      let e : suc n + suc m ≡ suc (n + suc m) = omega arith in rw e (drop-drop (suc m) n xs)

  pub is_empty-eq-nil : (xs : List A) → is_empty xs ≡ true → xs ≡ []
  is_empty-eq-nil [] e = refl
  is_empty-eq-nil (x ∷ xs) e = absurd (false≢true e)

  pub is_empty-length : (xs : List A) → is_empty xs ≡ leb (length xs) 0
  is_empty-length [] = refl
  is_empty-length (x ∷ xs) = ground arith

  pub length-is_empty : (xs : List A) → is_empty xs ≡ false → 0 < length xs
  length-is_empty [] e = absurd (false≢true (sym e))
  length-is_empty (x ∷ xs) e = omega arith

  abbrev pub All {κ} : (A → Type κ) → List A → Type κ
  All P [] = Unit {κ}
  All P (x ∷ xs) = P x × All P xs

module _ {ℓ κ} {A : Type ℓ} (P : A → Type κ) where
  pub All-append : (xs ys : List A) → All P xs → All P ys → All P (xs ++ ys)
  All-append [] ys hx hy = hy
  All-append (x ∷ xs) ys hx hy = (hx.0, All-append xs ys hx.1 hy)

  pub All-take : (n : ℕ) (xs : List A) → All P xs → All P (take n xs)
  All-take zero xs h = tt
  All-take (suc n) [] h = tt
  All-take (suc n) (x ∷ xs) h = (h.0, All-take n xs h.1)

  pub All-drop : (n : ℕ) (xs : List A) → All P xs → All P (drop n xs)
  All-drop zero xs h = h
  All-drop (suc n) [] h = tt
  All-drop (suc n) (x ∷ xs) h = All-drop n xs h.1

-- One text cut in two ways: the longer first part holds the shorter.
pub append_split {ℓ} :
    {A : Type ℓ} (xs ys zs ws : List A)
    → length xs ≤ length ys
    → ys ++ zs ≡ xs ++ ws
    → (us : List A) × (ys ≡ xs ++ us) × (us ++ zs ≡ ws)
append_split [] ys zs ws h e = (ys, refl, e)
append_split (x ∷ xs) [] zs ws h e = absurd (omega arith)
append_split (x ∷ xs) (y ∷ ys) zs ws h e =
    let (us, p, q) = append_split xs ys zs ws (omega arith) (cc) in (us, cc, q)

pub append-eq-nil {ℓ} : {A : Type ℓ} (xs ys : List A) → xs ++ ys ≡ [] → (xs ≡ []) × (ys ≡ [])
append-eq-nil [] ys e = (refl, e)
append-eq-nil (x ∷ xs) ys e = cc
