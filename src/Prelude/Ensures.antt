-- ===== src/Prelude/Ensures.antt =====
-- What a function with a state guarantees: from states with `P` a success ends in `Q` of its result, and
-- a failure in `E` of its error. One rule for each way to build a function.
use afk_cli.Prelude.Results.{ok, err, IoError, IoResult}
use afk_cli.Prelude.Tests.{if◌then◌else◌}
use mathlib.Core.Bool.{Bool, true, false}
use mathlib.Core.Path.{◌≡◌, refl}
use afk_cli.Prelude.Exec.{Exec, pure, fail, lift, resume, attempt, ◌>>=◌}

abbrev pub Outcome :
    {S A : Type 0} → (A → S → Type 0) → (IoError → S → Type 0) → IoResult A → S → Type 0
Outcome Q E (ok a) s = Q a s
Outcome Q E (err e) s = E e s

pub record Ensures {S A : Type 0} (P : S → Type 0) (m : Exec S A) (Q : A → S → Type 0)
    (E : IoError → S → Type 0) : Type 0 where
  pub at : (s : S) → P s → Outcome Q E (m s).0 (m s).1

-- `m` keeps `P`, whether it succeeds or fails.
abbrev pub Keeps : {S A : Type 0} → (S → Type 0) → Exec S A → Type 0
Keeps P m = Ensures P m (λ _. P) (λ _. P)

module _ {S A : Type 0} {P : S → Type 0} {Q : A → S → Type 0} {E : IoError → S → Type 0} where
  pub Ensures-pure : (a : A) → ((s : S) → P s → Q a s) → Ensures P (pure a) Q E
  unfolding pure
  Ensures-pure a h = record { at = h }

  pub Ensures-fail : (e : IoError) → ((s : S) → P s → E e s) → Ensures P (fail e) Q E
  unfolding fail
  Ensures-fail e h = record { at = h }

  pub Ensures-lift :
      (r : IoResult A)
      → ((a : A) (s : S) → r ≡ ok a → P s → Q a s)
      → ((e : IoError) (s : S) → r ≡ err e → P s → E e s)
      → Ensures P (lift r) Q E
  unfolding lift
  Ensures-lift (ok a) h k = record { at = λ s p. h a s refl p }
  Ensures-lift (err e) h k = record { at = λ s p. k e s refl p }

  pub Ensures-if :
      (b : Bool) (m n : Exec S A)
      → (b ≡ true → Ensures P m Q E)
      → (b ≡ false → Ensures P n Q E)
      → Ensures P (if b then m else n) Q E
  Ensures-if true m n hm hn = hm refl
  Ensures-if false m n hm hn = hn refl

Ensures-resume :
    {S A B : Type 0} {Q : A → S → Type 0} {F : IoError → S → Type 0} {R : B → S → Type 0}
    {E : IoError → S → Type 0} (r : IoResult A) (s : S) (f : A → Exec S B) (g : IoError → Exec S B)
    → Outcome Q F r s
    → ((a : A) → Ensures (Q a) (f a) R E)
    → ((e : IoError) → Ensures (F e) (g e) R E)
    → Outcome R E (resume r f g s).0 (resume r f g s).1
Ensures-resume (ok a) s f g h k l = (k a).at s h
Ensures-resume (err e) s f g h k l = (l e).at s h

module _ {S A B : Type 0} {P : S → Type 0} {Q : A → S → Type 0} {R : B → S → Type 0}
    {E : IoError → S → Type 0} where
  pub Ensures-attempt :
      {F : IoError → S → Type 0} (m : Exec S A) (f : A → Exec S B) (g : IoError → Exec S B)
      → Ensures P m Q F
      → ((a : A) → Ensures (Q a) (f a) R E)
      → ((e : IoError) → Ensures (F e) (g e) R E)
      → Ensures P (attempt m f g) R E
  unfolding attempt
  Ensures-attempt m f g h k l = record {
    at = λ s p. Ensures-resume (m s).0 (m s).1 f g (h.at s p) k l;
  }

  pub Ensures-bind :
      (m : Exec S A) (f : A → Exec S B)
      → Ensures P m Q E
      → ((a : A) → Ensures (Q a) (f a) R E)
      → Ensures P (m >>= f) R E
  unfolding ◌>>=◌
  Ensures-bind m f h k = Ensures-attempt m f fail h k (λ e. Ensures-fail e (λ s p. p))

pub Ensures-map :
    {S A : Type 0} {P P' : S → Type 0} {Q Q' : A → S → Type 0} {E E' : IoError → S → Type 0}
    {m : Exec S A}
    → ((s : S) → P' s → P s)
    → ((a : A) (s : S) → Q a s → Q' a s)
    → ((e : IoError) (s : S) → E e s → E' e s)
    → Ensures P m Q E
    → Ensures P' m Q' E'
Ensures-map {S} {A} {Q = Q} {Q' = Q'} {E = E} {E' = E'} {m = m} hp hq he h = record {
  at = λ s p. mapped (m s).0 (m s).1 (h.at s (hp s p));
}
  where
    mapped : (r : IoResult A) (s : S) → Outcome Q E r s → Outcome Q' E' r s
    mapped (ok a) s o = hq a s o
    mapped (err e) s o = he e s o

-- A fact that does not speak of the state.
pub Ensures-fact :
    {S A F : Type 0} {P : S → Type 0} {Q : A → S → Type 0} {E : IoError → S → Type 0} {m : Exec S A}
    → (F → Ensures P m Q E)
    → Ensures (λ s. F × P s) m Q E
Ensures-fact h = record { at = λ s p. (h p.0).at s p.1 }

pub Keeps-after :
    {S A : Type 0} {P : S → Type 0} {m : Exec S A} {s : S} → Keeps P m → P s → P (m s).1
Keeps-after {S} {A} {P = P} {m = m} {s = s} h p = either (m s).0 (m s).1 (h.at s p)
  where
    either : (r : IoResult A) (t : S) → Outcome (λ _. P) (λ _. P) r t → P t
    either (ok a) t o = o
    either (err e) t o = o
