-- ===== src/Ipc/Stream.antt =====
-- src/ipc.rs over a whole connection: a sender, and a receiver that reads in pieces of any size.
use mathlib.Core.Path.{subst}
use afk_cli.Prelude.{
  ℕ, ◌≤◌, ◌≡◌, refl, ap, sym, ◌∙◌, List, [], ◌∷◌, ◌++◌, append-nil, append_assoc, arith, length,
  length-append, concat, All, Result, ok, err, ◌>>=◌, IoResult,
}
use afk_cli.Ipc.{Record, Decoder, DecodeError, empty_decoder, remaining_capacity, encode}
use afk_cli.Ipc.Codec.{IsRecord, wire, encode-wire}
use afk_cli.Ipc.Framing.{wires, IsPartial, Drained, receive, receive-Drained}

-- The sender: every record encoded, one behind the other.
unfoldable pub encode_all : List Record → IoResult (List ℕ)
encode_all [] = ok []
encode_all (r ∷ rs) = do b ← encode r; bs ← encode_all rs; ok (b ++ bs)

encode_all-wires : (rs : List Record) → All IsRecord rs → encode_all rs ≡ ok (wires rs)
unfolding encode_all
encode_all-wires [] h = refl
encode_all-wires (r ∷ rs) h = rw (encode-wire r h.0, encode_all-wires rs h.1)

-- The receiver: one read after the other, the records of all of them together.
unfoldable pub receive_all : Decoder → List (List ℕ) → Result DecodeError (List Record) × Decoder
receive_all d [] = (ok [], d)
receive_all d (c ∷ cs) =
    let (got, d') = receive d c in
    elim got [
      | err e ↦ (err e, d')
      | ok rs ↦ (let (rest, d'') = receive_all d' cs in (rest >>= λ more. ok (rs ++ more), d''))
    ]

-- `read` fills at most the room that the reader offers, and the reader offers no more than the
-- decoder's remaining capacity.
abbrev pub Fits : Decoder → List (List ℕ) → Type 0
Fits d [] = Unit {0}
Fits d (c ∷ cs) = (length c ≤ remaining_capacity d) × Fits (receive d c).1 cs

receive_all-cons :
    (d d' d'' : Decoder) (c : List ℕ) (cs : List (List ℕ)) (rs more : List Record)
    → receive d c ≡ (ok rs, d')
    → receive_all d' cs ≡ (ok more, d'')
    → receive_all d (c ∷ cs) ≡ (ok (rs ++ more), d'')
unfolding receive_all
receive_all-cons d d' d'' c cs rs more e e' = ground arith

pub All-left :
    (done left rs : List Record) → done ++ left ≡ rs → All IsRecord rs → All IsRecord left
All-left [] left rs e h = rw e h
All-left (r ∷ done) left [] e h = cc
All-left (r ∷ done) left (r' ∷ rs) e h = All-left done left rs (cc) h.1

receive_all-Drained :
    (cs : List (List ℕ)) (rs : List Record) (kept t : List ℕ)
    → All IsRecord rs
    → IsPartial kept rs
    → kept ++ concat cs ++ t ≡ wires rs
    → Fits (record { buffer = kept }) cs
    → Drained rs t (receive_all (record { buffer = kept }) cs)
unfolding receive_all
receive_all-Drained [] rs kept t h p e fits = record {
  done = [];
  left = rs;
  kept = kept;
  split = refl;
  result = refl;
  follows = rw append-nil at e;
  is_partial = p;
}
receive_all-Drained (c ∷ cs) rs kept t h p e fits =
    let whole : kept ++ c ++ (concat cs ++ t) ≡ wires rs =
      simp append_assoc (simp append_assoc at e) in
    let first = receive-Drained rs kept c (concat cs ++ t) h whole fits.0 in
    let rest =
      receive_all-Drained cs first.left first.kept t
        (All-left first.done first.left rs first.split h) first.is_partial
        (append_assoc first.kept (concat cs) t ∙ first.follows)
        (subst (λ (o : Result DecodeError (List Record) × Decoder). Fits o.1 cs) first.result
          fits.1) in
    record {
      done = first.done ++ rest.done;
      left = rest.left;
      kept = rest.kept;
      split =
          append_assoc first.done rest.done rest.left
          ∙ ap (λ l. first.done ++ l) rest.split
          ∙ first.split;
      result = receive_all-cons _ _ _ c cs first.done rest.done first.result rest.result;
      follows = rest.follows;
      is_partial = rest.is_partial;
    }

pub IsPartial-nil : (rs : List Record) → IsPartial [] rs
IsPartial-nil [] = refl
IsPartial-nil (r ∷ rs) = omega arith

IsPartial-end : (rs : List Record) (kept : List ℕ) → IsPartial kept rs → kept ≡ wires rs → rs ≡ []
IsPartial-end [] kept p e = refl
IsPartial-end (r ∷ rs) kept p e =
    absurd (omega (arith, ap length e, length-append (wire r) (wires rs)))

-- At every moment of a connection the receiver has a prefix of the sent records, whole and in
-- order, no error, and holds the beginning of the next record: `bs` are the bytes of all records,
-- `cs` the reads so far and `t` what is still to come. The records are within the limits, and no
-- read is longer than the room the decoder has at that moment.
pub receive-encode_prefix :
    (rs : List Record) (bs : List ℕ) (cs : List (List ℕ)) (t : List ℕ)
    → All IsRecord rs
    → encode_all rs ≡ ok bs
    → concat cs ++ t ≡ bs
    → Fits empty_decoder cs
    → Drained rs t (receive_all empty_decoder cs)
receive-encode_prefix rs bs cs t h sent cut fits =
    let all : wires rs ≡ bs = cc (encode_all-wires rs h) in
    receive_all-Drained cs rs [] t h (IsPartial-nil rs) (cut ∙ sym all) fits

-- When all bytes of records within the limits have been read, in reads no longer than the room the
-- decoder has at each, exactly the sent records have been received, and the decoder is empty.
pub receive-encode :
    (rs : List Record) (bs : List ℕ) (cs : List (List ℕ))
    → All IsRecord rs
    → encode_all rs ≡ ok bs
    → concat cs ≡ bs
    → Fits empty_decoder cs
    → receive_all empty_decoder cs ≡ (ok rs, empty_decoder)
receive-encode rs bs cs h sent cut fits =
    let d = receive-encode_prefix rs bs cs [] h sent (rw append-nil cut) fits in
    let none_left : d.left ≡ [] =
      IsPartial-end d.left d.kept d.is_partial (rw append-nil at d.follows) in
    let all : d.done ≡ rs = rw (none_left, append-nil) at d.split in
    let none_kept : d.kept ≡ [] = (rw append-nil at d.follows) ∙ ap wires none_left in
    d.result ∙ rw (all, none_kept)
