-- ===== src/Prelude/Results.antt =====
-- `Result<A, E>`, with `?` as the bind of a `do` block, and `io::Error`.
use Prim.Native.Nat.{ℕ}
use mathlib.Core.Path.{◌≡◌, refl}
use mathlib.Core.Logic.{◌⊎◌, inl, inr}
use mathlib.Core.Bool.{Bool, true, false}
use mathlib.Core.Option.{Option, none, some}

pub data Result {ℓ} (E : Type 0) (A : Type ℓ) : Type ℓ where
  ok : A → Result E A
  err : E → Result E A

infixl 5 ◌>>=◌ ◌>>◌
abbrev pub ◌>>=◌ {ℓ κ} :
    {E : Type 0} {A : Type ℓ} {B : Type κ} → Result E A → (A → Result E B) → Result E B
ok a >>= f = f a
err e >>= f = err e

abbrev pub ◌>>◌ {ℓ} : {E : Type 0} {B : Type ℓ} → Result E (Unit {0}) → Result E B → Result E B
m >> k = m >>= λ _. k

abbrev pub guard : {E : Type 0} → Bool → E → Result E (Unit {0})
guard true e = ok tt
guard false e = err e

-- `option.ok_or(e)`
abbrev pub ok_or {ℓ} : {E : Type 0} {A : Type ℓ} → Option A → E → Result E A
ok_or (some a) e = ok a
ok_or none e = err e

-- `result.map_err(|_| e)`
abbrev pub map_err {ℓ} : {E F : Type 0} {A : Type ℓ} → Result E A → F → Result F A
map_err (ok a) e = ok a
map_err (err _) e = err e

-- The kinds of `std::io::ErrorKind` that the program makes or tells apart.
pub data ErrorKind : Type 0 where
  not_found permission_denied connection_refused connection_reset connection_aborted : ErrorKind
  not_connected broken_pipe already_exists would_block invalid_input invalid_data : ErrorKind
  timed_out write_zero interrupted unexpected_eof out_of_memory addr_in_use other : ErrorKind

-- An `io::Error`: its kind, and the operating system's code if it came from a system call.
pub record IoError : Type 0 where
  pub kind : ErrorKind
  pub os_code : Option ℕ

-- `io::Error::new(kind, message)`
abbrev pub io_error : ErrorKind → IoError
io_error k = record { kind = k; os_code = none }

abbrev pub IoResult {ℓ} : Type ℓ → Type ℓ
IoResult A = Result IoError A

-- Inversion of a chain that succeeds.
pub >>=-eq-ok {ℓ κ} :
    {E : Type 0} {A : Type ℓ} {B : Type κ} (first : Result E A) (next : A → Result E B) {out : B}
    → (first >>= next) ≡ ok out
    → (x : A) × (first ≡ ok x) × (next x ≡ ok out)
>>=-eq-ok (err _) next e = cc
>>=-eq-ok (ok x) next e = (x, refl, e)

pub ok_or-eq-ok {ℓ} :
    {E : Type 0} {A : Type ℓ} (o : Option A) (e : E) {a : A} → ok_or o e ≡ ok a → o ≡ some a
ok_or-eq-ok (some x) e h = cc
ok_or-eq-ok none e h = cc

pub guard-eq-ok : {E : Type 0} (b : Bool) (e : E) {u : Unit {0}} → guard b e ≡ ok u → b ≡ true
guard-eq-ok true e h = refl
guard-eq-ok false e h = cc

pub ok_not_err {ℓ} : {E : Type 0} {A : Type ℓ} {a : A} {e : E} → ok a ≡ err e → ⊥
ok_not_err h = cc

pub some_not_none {ℓ} : {A : Type ℓ} {a : A} → some a ≡ none → ⊥
some_not_none h = cc

pub some_inj {ℓ} : {A : Type ℓ} {a b : A} → some a ≡ some b → a ≡ b
some_inj h = cc

pub ok_inj {ℓ} :
    {E : Type 0} {A : Type ℓ} {a b : A} → (let r : Result E A = ok a in r ≡ ok b) → a ≡ b
ok_inj h = cc

pub Result-cases {ℓ} :
    {E : Type 0} {A : Type ℓ} (r : Result E A) → ((a : A) × (r ≡ ok a)) ⊎ ((e : E) × (r ≡ err e))
Result-cases (ok a) = inl (a, refl)
Result-cases (err e) = inr (e, refl)
