-- ===== src/Ipc/Framing.antt =====
-- src/ipc.rs as a stream protocol: a decoder between two reads.
use afk_cli.Prelude.{
  ℕ, zero, suc, ◌≤◌, ◌<◌, ◌≡◌, refl, ap, inl, inr, List, [], ◌∷◌, ◌++◌, none, some, arith, ltb,
  Bool-cases, ltb→lt, length, length-append, append_split, append-eq-nil, All, Result, ok, err,
}
use afk_cli.Ipc.{
  Record, Decoder, DecodeError, empty_decoder, remaining_capacity, push, next, drain_loop, drain,
}
use afk_cli.Ipc.Codec.{IsRecord, payload-le, wire, next-wire}
use afk_cli.Ipc.Canonical.{next_incomplete}

abbrev pub wires : List Record → List ℕ
wires [] = []
wires (r ∷ rs) = wire r ++ wires rs

-- What a decoder keeps between reads: less than the next record.
abbrev pub IsPartial : List ℕ → List Record → Type 0
IsPartial kept [] = kept ≡ []
IsPartial kept (r ∷ rs) = length kept < length (wire r)

-- The outcome of draining a buffer `b` that is followed by `t` in the stream of the records `rs`.
pub record Drained (rs : List Record) (t : List ℕ)
    (out : Result DecodeError (List Record) × Decoder) : Type 0 where
  pub done : List Record
  pub left : List Record
  pub kept : List ℕ
  pub split : done ++ left ≡ rs
  pub result : out ≡ (ok done, record { buffer = kept })
  pub follows : kept ++ t ≡ wires left
  pub is_partial : IsPartial kept left

drain_loop-empty : (f : ℕ) → drain_loop f empty_decoder ≡ (ok [], empty_decoder)
unfolding drain_loop next
drain_loop-empty zero = refl
drain_loop-empty (suc f) = refl

drain_loop-none : (f : ℕ) (d : Decoder) → next d ≡ (ok none, d) → drain_loop f d ≡ (ok [], d)
unfolding drain_loop
drain_loop-none zero d e = refl
drain_loop-none (suc f) d e = ground arith

drain_loop-some :
    (f : ℕ) (d d' d'' : Decoder) (r : Record) (rs : List Record)
    → next d ≡ (ok (some r), d')
    → drain_loop f d' ≡ (ok rs, d'')
    → drain_loop (suc f) d ≡ (ok (r ∷ rs), d'')
unfolding drain_loop
drain_loop-some f d d' d'' r rs e e' = ground arith

-- One record more in front of a buffer that drains well.
Drained-cons :
    (r : Record) (rs : List Record) (u t : List ℕ) (f : ℕ)
    → IsRecord r
    → Drained rs t (drain_loop f (record { buffer = u }))
    → Drained (r ∷ rs) t (drain_loop (suc f) (record { buffer = wire r ++ u }))
Drained-cons r rs u t f h d = record {
  done = r ∷ d.done;
  left = d.left;
  kept = d.kept;
  split = ap (λ l. r ∷ l) d.split;
  result = drain_loop-some f _ _ _ r d.done (next-wire r u h) d.result;
  follows = d.follows;
  is_partial = d.is_partial;
}

Drained-long :
    (r : Record) (rs : List Record) (b u t : List ℕ) (f : ℕ)
    → IsRecord r
    → b ≡ wire r ++ u
    → length b ≤ f
    → ((g : ℕ) → length u ≤ g → Drained rs t (drain_loop g (record { buffer = u })))
    → Drained (r ∷ rs) t (drain_loop f (record { buffer = b }))
Drained-long r rs [] u t f h e n ih = cc
Drained-long r rs (k ∷ b) u t zero h e n ih = absurd (omega arith)
Drained-long r rs (k ∷ b) u t (suc f) h e n ih =
    rw e (Drained-cons r rs u t f h (ih f (omega (arith, ap length e, length-append (wire r) u))))

drain_loop-Drained :
    (rs : List Record) (b t : List ℕ) (f : ℕ)
    → All IsRecord rs
    → b ++ t ≡ wires rs
    → length b ≤ f
    → Drained rs t (drain_loop f (record { buffer = b }))
drain_loop-Drained [] b t f h e n =
    let (b_empty, t_empty) = append-eq-nil b t e in
    rw b_empty (record {
      done = [];
      left = [];
      kept = [];
      split = refl;
      result = drain_loop-empty f;
      follows = t_empty;
      is_partial = refl;
    })
drain_loop-Drained (r ∷ rs) b t f h e n = elim (Bool-cases (ltb (length b) (length (wire r)))) [
  | inl short ↦ record {
    done = [];
    left = r ∷ rs;
    kept = b;
    split = refl;
    result =
        drain_loop-none f (record { buffer = b })
          (next_incomplete r b t (wires rs) h.0 (ltb→lt _ _ short) e);
    follows = e;
    is_partial = ltb→lt _ _ short;
  }
  | inr long ↦
      let enough : length (wire r) ≤ length b = ground arith in
      let (u, eb, eu) = append_split (wire r) b t (wires rs) enough e in
      Drained-long r rs b u t f h.0 eb n (λ g m. drain_loop-Drained rs u t g h.1 eu m)
]

-- The common part of both `read_records`: the bytes of one read go into the decoder, and the
-- records that are whole come out.
unfoldable pub receive : Decoder → List ℕ → Result DecodeError (List Record) × Decoder
unfolding push drain
receive d bytes =
    let (pushed, d') = push d bytes in elim pushed [ err e ↦ (err e, d') | ok _ ↦ drain d' ]

receive-eq :
    (kept c : List ℕ)
    → length c ≤ remaining_capacity (record { buffer = kept })
    → receive (record { buffer = kept }) c
      ≡ drain_loop (length (kept ++ c)) (record { buffer = kept ++ c })
unfolding receive
receive-eq kept c fits = ground arith

pub receive-Drained :
    (rs : List Record) (kept c t : List ℕ)
    → All IsRecord rs
    → kept ++ c ++ t ≡ wires rs
    → length c ≤ remaining_capacity (record { buffer = kept })
    → Drained rs t (receive (record { buffer = kept }) c)
receive-Drained rs kept c t h e fits =
    rw (receive-eq kept c fits) (drain_loop-Drained rs (kept ++ c) t _ h e (omega arith))

-- A decoder that holds the beginning of the next record, where all records are within the limits,
-- has room for a read of one byte at least.
pub remaining_capacity_pos :
    (kept : List ℕ) (rs : List Record)
    → All IsRecord rs
    → IsPartial kept rs
    → 0 < remaining_capacity (record { buffer = kept })
unfolding remaining_capacity
remaining_capacity_pos kept [] h e = rw e (omega arith)
remaining_capacity_pos kept (r ∷ rs) h e = omega (arith, payload-le r h.0)
