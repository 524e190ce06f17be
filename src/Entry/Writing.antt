-- ===== src/Entry/Writing.antt =====
-- src/lib.rs: what the writers of `run` write and return, on a stream that may fail.
use afk_cli.Prelude.{
  ℕ, ◌≡◌, refl, ap, sym, ◌∙◌, ◌⊎◌, inl, inr, List, [], ◌∷◌, ◌++◌, append_assoc, append-nil, take,
  drop, take-append-drop, codes,
}
use afk_cli.Prelude.Exec.{Exec, attempt, pure}
use afk_cli.Prelude.Ensures.{
  Ensures, Outcome, Ensures-pure, Ensures-attempt, Ensures-bind, Ensures-map,
}
use afk_cli.Entry.{
  ExitStatus, success, failure, usage, WriteAnswer, whole, partial, Stream, take_bytes, write_all,
  write_failure, write_static, write_version, write_usage_error, session_error_text,
  write_session_error,
}

-- Some call of `write_all` will fail.
abbrev pub IsBroken : List WriteAnswer → Type 0
IsBroken [] = ⊥
IsBroken (whole ∷ rest) = IsBroken rest
IsBroken (partial n e ∷ rest) = Unit {0}

-- Only a part of `bytes` has been written behind `before`.
pub record IsCut (bytes before after : List ℕ) : Type 0 where
  pub part : List ℕ
  pub lost : List ℕ
  pub split : bytes ≡ part ++ lost
  pub wrote : after ≡ before ++ part

pub record Wrote (bytes : List ℕ) (before after : Stream) : Type 0 where
  pub wrote : after.written ≡ before.written ++ bytes
  pub ahead : IsBroken after.answers → IsBroken before.answers

abbrev pub Broke : List ℕ → Stream → Stream → Type 0
Broke bytes before after = IsCut bytes before.written after.written × IsBroken before.answers

-- All of `bytes` was said and `status` returned, or `failure`, on a stream that fails.
abbrev pub Told : List ℕ → ExitStatus → Stream → ExitStatus → Stream → Type 0
Told bytes status before returned after =
    (returned ≡ status × Wrote bytes before after) ⊎ (returned ≡ failure × Broke bytes before after)

module _ (s : Stream) where
  start-Wrote : (t : Stream) → t ≡ s → Wrote [] s t
  start-Wrote t e = rw e (record { wrote = sym (append-nil s.written); ahead = λ b. b })

  -- The next bytes of a text, of which `done` is written.
  write_all-Wrote :
      (total done bytes left : List ℕ)
      → total ≡ done ++ (bytes ++ left)
      → Ensures (Wrote done s) (write_all bytes) (λ _. Wrote (done ++ bytes) s) (λ _. Broke total s)
  unfolding write_all
  write_all-Wrote total done bytes left h = record { at = λ t k. by t.written t.answers k }
    where
      by :
          (written : List ℕ) (answers : List WriteAnswer)
          → Wrote done s (record { written = written; answers = answers })
          → let out = take_bytes bytes written answers in
            Outcome (λ _. Wrote (done ++ bytes) s) (λ _. Broke total s) out.0 out.1
      by written [] k = record {
        wrote = ap (λ l. l ++ bytes) k.wrote ∙ append_assoc s.written done bytes;
        ahead = k.ahead;
      }
      by written (whole ∷ rest) k = record {
        wrote = ap (λ l. l ++ bytes) k.wrote ∙ append_assoc s.written done bytes;
        ahead = k.ahead;
      }
      by written (partial n e ∷ rest) k = (
        record {
          part = done ++ take n bytes;
          lost = drop n bytes ++ left;
          split =
              h
              ∙ ap (λ l. done ++ l)
                  (ap (λ l. l ++ left) (sym (take-append-drop n bytes))
                    ∙ append_assoc (take n bytes) (drop n bytes) left)
              ∙ sym (append_assoc done (take n bytes) (drop n bytes ++ left));
          wrote = ap (λ l. l ++ take n bytes) k.wrote ∙ append_assoc s.written done (take n bytes);
        },
        k.ahead tt,
      )

  -- A writer that returns `status` where all went well, and `failure` else.
  tells :
      (bytes : List ℕ) (status : ExitStatus) (m : Exec Stream (Unit {0}))
      → Ensures (λ t. t ≡ s) m (λ _. Wrote bytes s) (λ _. Broke bytes s)
      → Ensures
          (λ t. t ≡ s)
          (attempt m (λ _. pure status) (λ _. pure failure))
          (Told bytes status s)
          (λ _ _. ⊥)
  tells bytes status m h =
      Ensures-attempt _ _ _ h (λ _. Ensures-pure status (λ t k. inl (refl, k)))
        (λ _. Ensures-pure failure (λ t k. inr (refl, k)))

  write_once :
      (bytes : List ℕ)
      → Ensures (λ t. t ≡ s) (write_all bytes) (λ _. Wrote bytes s) (λ _. Broke bytes s)
  write_once bytes =
      Ensures-map start-Wrote (λ _ t k. k) (λ _ t k. k)
        (write_all-Wrote bytes [] bytes [] (sym (append-nil bytes)))

  pub write_static-Told :
      (text : List ℕ) → Ensures (λ t. t ≡ s) (write_static text) (Told text success s) (λ _ _. ⊥)
  unfolding write_static
  write_static-Told text = tells text success _ (write_once text)

  pub write_usage_error-Told :
      (text : List ℕ) → Ensures (λ t. t ≡ s) (write_usage_error text) (Told text usage s) (λ _ _. ⊥)
  unfolding write_usage_error
  write_usage_error-Told text = tells text usage _ (write_once text)

  pub write_session_error-Told :
      (kind : _)
      → Ensures
          (λ t. t ≡ s)
          (write_session_error kind)
          (Told (session_error_text kind) failure s)
          (λ _ _. ⊥)
  unfolding write_session_error write_failure
  write_session_error-Told kind = tells _ failure _ (write_once (session_error_text kind))

  pub write_version-Told :
      (v : List ℕ)
      → Ensures
          (λ t. t ≡ s)
          (write_version v)
          (Told (codes "afk " ++ (v ++ codes "\n")) success s)
          (λ _ _. ⊥)
  unfolding write_version
  write_version-Told v =
      let text = codes "afk " ++ (v ++ codes "\n") in
      tells text success _ (
        Ensures-bind _ _
          (Ensures-map start-Wrote (λ _ t k. k) (λ _ t k. k)
            (write_all-Wrote text [] (codes "afk ") (v ++ codes "\n") refl))
          (λ _. Ensures-bind _ _ (write_all-Wrote text (codes "afk ") v (codes "\n") refl) (λ _.
            Ensures-map (λ t k. k) (λ _ t k. whole_text t k) (λ _ t k. k)
              (write_all-Wrote text (codes "afk " ++ v) (codes "\n") [] refl))))
    where
      whole_text :
          (t : Stream)
          → Wrote ((codes "afk " ++ v) ++ codes "\n") s t
          → Wrote (codes "afk " ++ (v ++ codes "\n")) s t
      whole_text t k = k
