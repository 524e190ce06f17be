-- ===== src/Runner/Ensures.antt =====
-- What a function of the runner guarantees: from states with `P` a success ends in `Q` of its
-- result, and a failure in `E`. One rule for each way to build a function.
use afk_cli.Prelude.{
  ◌≡◌, refl, Bool, true, false, if◌then◌else◌, ok, err, IoError, IoResult, String, arith,
}
use afk_cli.Runner.State.{Runner, Host, Effect, traced, traced_error, emit}
use afk_cli.Runner.Monad
use afk_cli.Runner.Monad.{
  Run, pure, fail, lift, gets, modify, ◌>>=◌, ◌>>◌, when, trace_event, trace_io_error,
  record_attached, set_attached,
}

abbrev pub Outcome :
    {A : Type 0} → (A → Runner → Type 0) → (Runner → Type 0) → IoResult A → Runner → Type 0
Outcome Q E (ok a) s = Q a s
Outcome Q E (err e) s = E s

pub record Ensures {A : Type 0} (P : Runner → Type 0) (m : Run A) (Q : A → Runner → Type 0)
    (E : Runner → Type 0) : Type 0 where
  pub at : (s : Runner) → P s → Outcome Q E (m s).0 (m s).1

-- `m` keeps `P`, whether it succeeds or fails.
abbrev pub Keeps : {A : Type 0} → (Runner → Type 0) → Run A → Type 0
Keeps P m = Ensures P m (λ _. P) P

module _ {A : Type 0} {P : Runner → Type 0} {Q : A → Runner → Type 0} {E : Runner → Type 0} where
  pub Ensures-pure : (a : A) → ((s : Runner) → P s → Q a s) → Ensures P (pure a) Q E
  unfolding pure
  Ensures-pure a h = record { at = h }

  pub Ensures-fail : (e : IoError) → ((s : Runner) → P s → E s) → Ensures P (fail e) Q E
  unfolding fail
  Ensures-fail e h = record { at = h }

  pub Ensures-lift :
      (r : IoResult A)
      → ((a : A) (s : Runner) → r ≡ ok a → P s → Q a s)
      → ((s : Runner) → P s → E s)
      → Ensures P (lift r) Q E
  unfolding lift
  Ensures-lift (ok a) h k = record { at = λ s p. h a s refl p }
  Ensures-lift (err e) h k = record { at = k }

  pub Ensures-gets : (f : Runner → A) → ((s : Runner) → P s → Q (f s) s) → Ensures P (gets f) Q E
  unfolding gets
  Ensures-gets f h = record { at = h }

  pub Ensures-if :
      (b : Bool) (m n : Run A)
      → (b ≡ true → Ensures P m Q E)
      → (b ≡ false → Ensures P n Q E)
      → Ensures P (if b then m else n) Q E
  Ensures-if true m n hm hn = hm refl
  Ensures-if false m n hm hn = hn refl

Ensures-continue :
    {A B : Type 0} {Q : A → Runner → Type 0} {R : B → Runner → Type 0} {E : Runner → Type 0}
    (r : IoResult A) (s : Runner) (f : A → Run B)
    → Outcome Q E r s
    → ((a : A) → Ensures (Q a) (f a) R E)
    → Outcome R E (Monad.continue r f s).0 (Monad.continue r f s).1
Ensures-continue (ok a) s f h k = (k a).at s h
Ensures-continue (err e) s f h k = h

module _ {A B : Type 0} {P : Runner → Type 0} {Q : A → Runner → Type 0} {R : B → Runner → Type 0}
    {E : Runner → Type 0} where
  pub Ensures-bind :
      (m : Run A) (f : A → Run B)
      → Ensures P m Q E
      → ((a : A) → Ensures (Q a) (f a) R E)
      → Ensures P (m >>= f) R E
  unfolding ◌>>=◌
  Ensures-bind m f h k = record { at = λ s p. Ensures-continue (m s).0 (m s).1 f (h.at s p) k }

module _ {P Q E : Runner → Type 0} where
  pub Ensures-modify :
      (f : Runner → Runner) → ((s : Runner) → P s → Q (f s)) → Ensures P (modify f) (λ _. Q) E
  unfolding modify
  Ensures-modify f h = record { at = h }

  pub Ensures-when :
      (b : Bool) (m : Run (Unit {0}))
      → (b ≡ true → Ensures P m (λ _. Q) E)
      → (b ≡ false → (s : Runner) → P s → Q s)
      → Ensures P (when b m) (λ _. Q) E
  unfolding when
  Ensures-when true m h k = h refl
  Ensures-when false m h k = record { at = λ s p. k refl s p }

module _ {P Q E : Runner → Type 0} where
  -- A trace touches nothing but the effects.
  pub Ensures-trace_event :
      (event : String)
      → ((s : Runner) → P s → Q s)
      → ((s : Runner) (e : Effect) → Q s → Q (emit e s))
      → Ensures P (trace_event event) (λ _. Q) E
  unfolding trace_event
  Ensures-trace_event event h k =
      Ensures-modify {P = P} {Q = Q} {E = E} (λ s. if s.tracing then emit (traced event) s else s)
        (λ s p. ground (arith, k s (traced event) (h s p), h s p))

  pub Ensures-trace_io_error :
      (event : String) (error : IoError)
      → ((s : Runner) → P s → Q s)
      → ((s : Runner) (e : Effect) → Q s → Q (emit e s))
      → Ensures P (trace_io_error event error) (λ _. Q) E
  unfolding trace_io_error
  Ensures-trace_io_error event error h k =
      Ensures-modify {P = P} {Q = Q} {E = E} _
        (λ s p. ground (arith, k s (traced_error event error) (h s p), h s p))

  pub Ensures-record_attached :
      (host : Host) (value : Bool)
      → ((s : Runner) → P s → Q (set_attached value s))
      → ((s : Runner) → P s → E s)
      → Ensures P (record_attached host value) (λ _. Q) E
  unfolding record_attached
  Ensures-record_attached host value h k =
      Ensures-bind {Q = λ _. P} _ _ (Ensures-lift _ (λ a s _ p. p) k)
        (λ _. Ensures-modify (set_attached value) h)

pub Ensures-map :
    {A : Type 0} {P P' : Runner → Type 0} {Q Q' : A → Runner → Type 0} {E E' : Runner → Type 0}
    {m : Run A}
    → ((s : Runner) → P' s → P s)
    → ((a : A) (s : Runner) → Q a s → Q' a s)
    → ((s : Runner) → E s → E' s)
    → Ensures P m Q E
    → Ensures P' m Q' E'
Ensures-map {A} {Q = Q} {Q' = Q'} {E = E} {E' = E'} {m = m} hp hq he h = record {
  at = λ s p. mapped (m s).0 (m s).1 (h.at s (hp s p));
}
  where
    mapped : (r : IoResult A) (s : Runner) → Outcome Q E r s → Outcome Q' E' r s
    mapped (ok a) s o = hq a s o
    mapped (err e) s o = he s o

-- A fact that does not speak of the state.
pub Ensures-fact :
    {A F : Type 0} {P : Runner → Type 0} {Q : A → Runner → Type 0} {E : Runner → Type 0} {m : Run A}
    → (F → Ensures P m Q E)
    → Ensures (λ s. F × P s) m Q E
Ensures-fact h = record { at = λ s p. (h p.0).at s p.1 }

pub Keeps-after :
    {A : Type 0} {P : Runner → Type 0} {m : Run A} {s : Runner} → Keeps P m → P s → P (m s).1
Keeps-after {A} {P = P} {m = m} {s = s} h p = either (m s).0 (m s).1 (h.at s p)
  where
    either : (r : IoResult A) (t : Runner) → Outcome (λ _. P) P r t → P t
    either (ok a) t o = o
    either (err e) t o = o

-- The rules for an invariant that a trace cannot break.
module _ {P : Runner → Type 0} where
  pub Keeps-bind :
      {A B : Type 0} (m : Run A) (f : A → Run B)
      → Keeps P m
      → ((a : A) → Keeps P (f a))
      → Keeps P (m >>= f)
  Keeps-bind m f hm hf = Ensures-bind m f hm hf

  pub Keeps-seq :
      {B : Type 0} (m : Run (Unit {0})) (k : Run B) → Keeps P m → Keeps P k → Keeps P (m >> k)
  Keeps-seq m k hm hk = Ensures-bind m (λ _. k) hm (λ _. hk)

  pub Keeps-when : (b : Bool) (m : Run (Unit {0})) → Keeps P m → Keeps P (when b m)
  Keeps-when b m h = Ensures-when b m (λ _. h) (λ _ s p. p)

  pub Keeps-modify : (f : Runner → Runner) → ((s : Runner) → P s → P (f s)) → Keeps P (modify f)
  Keeps-modify f h = Ensures-modify f h

module _ {A : Type 0} {P : Runner → Type 0} where
  pub Keeps-pure : (a : A) → Keeps P (pure a)
  Keeps-pure a = Ensures-pure a (λ s h. h)

  pub Keeps-fail : (e : IoError) → Keeps P (fail {A = A} e)
  Keeps-fail e = Ensures-fail e (λ s h. h)

  pub Keeps-lift : (r : IoResult A) → Keeps P (lift r)
  Keeps-lift r = Ensures-lift r (λ a s _ h. h) (λ s h. h)

  pub Keeps-gets : (f : Runner → A) → Keeps P (gets f)
  Keeps-gets f = Ensures-gets f (λ s h. h)

  pub Keeps-if : (b : Bool) (m n : Run A) → Keeps P m → Keeps P n → Keeps P (if b then m else n)
  Keeps-if b m n hm hn = Ensures-if b m n (λ _. hm) (λ _. hn)

module _ {P : Runner → Type 0} (emits : (s : Runner) (e : Effect) → P s → P (emit e s)) where
  pub Keeps-trace_event : (event : String) → Keeps P (trace_event event)
  Keeps-trace_event event = Ensures-trace_event event (λ s h. h) emits

  pub Keeps-trace_io_error : (event : String) (e : IoError) → Keeps P (trace_io_error event e)
  Keeps-trace_io_error event e = Ensures-trace_io_error event e (λ s h. h) emits
