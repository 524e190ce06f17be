-- ===== src/Prelude/Exec.antt =====
-- Functions that change a state and may fail: what was changed before a failure stays changed.
use afk_cli.Prelude.Results.{ok, err, IoError, IoResult}

abbrev pub Exec : Type 0 → Type 0 → Type 0
Exec S A = S → IoResult A × S

module _ {S A : Type 0} where
  unfoldable pub pure : A → Exec S A
  pure a s = (ok a, s)

  unfoldable pub fail : IoError → Exec S A
  fail e s = (err e, s)

  unfoldable pub lift : IoResult A → Exec S A
  lift r s = (r, s)

module _ {S A B : Type 0} where
  -- `match m { Ok(a) => .., Err(e) => .. }`
  abbrev pub resume : IoResult A → (A → Exec S B) → (IoError → Exec S B) → Exec S B
  resume (ok a) f g s = f a s
  resume (err e) f g s = g e s

  unfoldable pub attempt : Exec S A → (A → Exec S B) → (IoError → Exec S B) → Exec S B
  attempt m f g s = let (r, s') = m s in resume r f g s'

  infixl 5 ◌>>=◌ ◌>>◌
  -- opening this opens the actions above too
  unfoldable pub ◌>>=◌ : Exec S A → (A → Exec S B) → Exec S B
  unfolding pure fail lift attempt
  m >>= f = attempt m f fail

  abbrev pub ◌>>◌ : Exec S A → Exec S B → Exec S B
  m >> k = m >>= λ _. k
