-- ===== src/Attach/Shows/Records.antt =====
-- src/attach.rs: the runner's records, and what the client has made of them.
use afk_cli.Prelude.{
  ℕ, ◌≡◌, refl, ap, sym, ◌∙◌, ◌⊎◌, List, [], ◌∷◌, ◌++◌, append_assoc, append-nil, Bool, true, false,
  All,
}
use afk_cli.Ipc.{ProcessExit, code, Record, attach, input, output, resize, stop, exit}
use afk_cli.Ipc.Framing.{wires, IsPartial}
use afk_cli.Prelude.Ensures.{Ensures}
use afk_cli.Attach.{Client, Act, Turn, again, finished, push_encoded}
use afk_cli.Attach.Loop.{flush_socket}
use afk_cli.Attach.Frame.{Steady}

-- The terminal output that records carry.
abbrev pub outputs : List Record → List ℕ
outputs [] = []
outputs (output bytes ∷ rs) = bytes ++ outputs rs
outputs (_ ∷ rs) = outputs rs

abbrev pub IsOutput : Record → Type 0
IsOutput (output bytes) = Unit {0}
IsOutput _ = ⊥

pub outputs-append : (rs qs : List Record) → outputs (rs ++ qs) ≡ outputs rs ++ outputs qs
outputs-append [] qs = refl
outputs-append (attach _ _ ∷ rs) qs = outputs-append rs qs
outputs-append (input _ ∷ rs) qs = outputs-append rs qs
outputs-append (output b ∷ rs) qs =
    ap (λ l. b ++ l) (outputs-append rs qs) ∙ sym (append_assoc b (outputs rs) (outputs qs))
outputs-append (resize _ _ ∷ rs) qs = outputs-append rs qs
outputs-append (stop ∷ rs) qs = outputs-append rs qs
outputs-append (exit _ ∷ rs) qs = outputs-append rs qs

-- The runner sends `rs`; of their bytes `t` are still to come. The client has `new` still to look at.
pub record Pending (rs : List Record) (t : List ℕ) (new : List Record) (buffer shown : List ℕ)
    : Type 0 where
  pub done : List Record
  pub left : List Record
  pub split : done ++ (new ++ left) ≡ rs
  pub only : All IsOutput done
  pub shows : shown ≡ outputs done
  pub follows : buffer ++ t ≡ wires left
  pub is_partial : IsPartial buffer left

-- The output of the first records is shown in order; of the last a part may be lost.
pub record ShowsSome (rs : List Record) (shown : List ℕ) : Type 0 where
  pub done : List Record
  pub left : List Record
  pub lost : List ℕ
  pub split : done ++ left ≡ rs
  pub only : All IsOutput done
  pub shows : shown ++ lost ≡ outputs done

-- All output in front of the exit record is shown and flushed.
pub record ShowsAll (rs : List Record) (status : ProcessExit) (shown visible : List ℕ)
    : Type 0 where
  pub done : List Record
  pub left : List Record
  pub split : done ++ exit status ∷ left ≡ rs
  pub only : All IsOutput done
  pub shows : shown ≡ outputs done
  pub flushed : visible ≡ shown

pub part :
    {rs : List Record} {t : List ℕ} {new : List Record} {buffer shown : List ℕ}
    → Pending rs t new buffer shown
    → ShowsSome rs shown
part {new = new} {shown = shown} p = record {
  done = p.done;
  left = new ++ p.left;
  lost = [];
  split = p.split;
  only = p.only;
  shows = append-nil shown ∙ p.shows;
}

abbrev pub Anything : Record → Type 0
Anything _ = Unit {0}

module _ (rs : List Record) where
  -- Facts that hold if what came so far is the beginning of the runner's bytes.
  abbrev pub Given : (List ℕ → Type 0) → Client → Type 0
  Given F s = (t : List ℕ) → s.received ++ t ≡ wires rs → F t

  -- `wrote`: some of what is shown has not been flushed.
  abbrev pub Looks : Bool → List Record → Client → Type 0
  Looks true new s = Given (λ t. Pending rs t new s.decoder.buffer s.shown) s
  Looks false new s =
      Given (λ t. Pending rs t new s.decoder.buffer s.shown) s × (s.visible ≡ s.shown)

  abbrev pub Idle : Client → Type 0
  Idle s = Looks false [] s

  abbrev pub Broken : Client → Type 0
  Broken s = Given (λ _. ShowsSome rs s.shown) s

  abbrev pub Turned : Turn → Client → Type 0
  Turned again s = Idle s
  Turned (finished status) s =
      Given
        (λ t.
          ShowsAll rs status s.shown s.visible
          ⊎ (Pending rs t [] s.decoder.buffer s.shown × (status ≡ code 0) × (s.visible ≡ s.shown)))
        s

  abbrev pub Step : {A : Type 0} → (Client → Type 0) → Act A → (A → Client → Type 0) → Type 0
  Step P m Q = Ensures P m Q (λ _. Broken)

  pub Idle-Steady : Steady Idle Anything
  unfolding push_encoded flush_socket
  Idle-Steady = record {
    traces = λ s t h. h;
    closes = λ s b h. h;
    pushes = λ r bs s _ e h. h;
    flushes = λ writes s h. h;
    inputs = λ _. tt;
    sizes = λ _ _ _ _. tt;
  }

  pub Looks-Steady : (b : Bool) (new : List Record) → Steady (Looks b new) Anything
  unfolding push_encoded flush_socket
  Looks-Steady true new = record {
    traces = λ s t h. h;
    closes = λ s b h. h;
    pushes = λ r bs s _ e h. h;
    flushes = λ writes s h. h;
    inputs = λ _. tt;
    sizes = λ _ _ _ _. tt;
  }
  Looks-Steady false new = record {
    traces = λ s t h. h;
    closes = λ s b h. h;
    pushes = λ r bs s _ e h. h;
    flushes = λ writes s h. h;
    inputs = λ _. tt;
    sizes = λ _ _ _ _. tt;
  }

  pub Broken-Steady : Steady Broken Anything
  unfolding push_encoded flush_socket
  Broken-Steady = record {
    traces = λ s t h. h;
    closes = λ s b h. h;
    pushes = λ r bs s _ e h. h;
    flushes = λ writes s h. h;
    inputs = λ _. tt;
    sizes = λ _ _ _ _. tt;
  }

  pub Looks-Broken : (b : Bool) (new : List Record) (s : Client) → Looks b new s → Broken s
  Looks-Broken true new s h t e = part (h t e)
  Looks-Broken false new s h t e = part (h.0 t e)
