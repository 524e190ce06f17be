-- ===== src/OutputTail/Suffix.antt =====
-- src/output_tail.rs over any sequence of writes.
use afk_cli.Prelude.{
  ℕ, ◌+◌, ◌-◌, ◌^◌, ◌≤◌, ◌<◌, ◌≡◌, refl, ap, sym, ◌∙◌, List, [], ◌∷◌, ◌++◌, append-nil,
  append_assoc, true, false, not, ◌||◌, leb, ltb, ◌==◌, length, drop, is_empty, arith, inl, inr,
  Bool-cases, length-append, length-drop, drop-drop, drop_all, drop-append_le, drop-append_ge,
  is_empty-length, length-is_empty, concat, ==→eq,
}
use afk_cli.OutputTail.{OutputTail, empty_tail, overflow, extend, snapshot, is_truncated}

-- The last `n` bytes of a text.
abbrev pub last_bytes : ℕ → List ℕ → List ℕ
last_bytes n xs = drop (length xs - n) xs

-- The tail of a history: its last bytes, and whether any were lost.
pub record IsTailOf (history : List ℕ) (t : OutputTail) : Type 0 where
  pub suffix : t.bytes ≡ last_bytes t.capacity history
  pub lossy : t.truncated ≡ ltb t.capacity (length history)

-- `VecDeque::with_capacity` cannot be asked for more.
abbrev pub max_capacity : ℕ
max_capacity = 2 ^ 63

module _ (h inc : List ℕ) (t : OutputTail) (v : IsTailOf h t)
    (nonempty : is_empty inc ≡ false) where
  extend_none : t.capacity ≡ 0 → IsTailOf (h ++ inc) (record t { truncated = true })
  extend_none e = record {
    suffix =
        v.suffix
        ∙ drop_all (length h - t.capacity) h (omega arith)
        ∙ sym (drop_all (length (h ++ inc) - t.capacity) (h ++ inc) (omega arith));
    lossy = ground (arith, length-append h inc, length-is_empty inc nonempty);
  }

  extend_wide :
      0 < t.capacity
      → t.capacity ≤ length inc
      → IsTailOf (h ++ inc) (record t {
        bytes = drop (length inc - t.capacity) inc;
        truncated = t.truncated || (not (is_empty t.bytes) || ltb t.capacity (length inc));
      })
  extend_wide pos wide = record {
    suffix = sym (
        drop-append_ge (length (h ++ inc) - t.capacity) (length inc - t.capacity) h inc
          (omega (arith, length-append h inc)));
    lossy = ground (
      arith,
      length-append h inc,
      v.lossy,
      is_empty-length t.bytes,
      ap length v.suffix,
      length-drop (length h - t.capacity) h,
    );
  }

  extend_narrow :
      (o : ℕ)
      → t.capacity < max_capacity
      → length inc < t.capacity
      → o ≡ overflow t inc
      → drop o t.bytes ++ inc ≡ last_bytes t.capacity (h ++ inc)
  extend_narrow o small narrow e =
      let kept = length-drop (length h - t.capacity) h in
      let total : length h - t.capacity + o ≡ length (h ++ inc) - t.capacity =
        omega (arith, ap length v.suffix, kept, length-append h inc) in
      rw (v.suffix, drop-drop o (length h - t.capacity) h, total)
        (sym (drop-append_le _ h inc (omega (arith, length-append h inc))))

  extend_keep :
      t.capacity < max_capacity
      → length inc < t.capacity
      → overflow t inc ≡ 0
      → IsTailOf (h ++ inc) (record t { bytes = t.bytes ++ inc })
  extend_keep small narrow e = record {
    suffix = extend_narrow 0 small narrow (sym e);
    lossy = ground (
      arith,
      length-append h inc,
      v.lossy,
      ap length v.suffix,
      length-drop (length h - t.capacity) h,
    );
  }

  extend_drop :
      t.capacity < max_capacity
      → length inc < t.capacity
      → 0 < overflow t inc
      → IsTailOf
          (h ++ inc)
          (record t { bytes = drop (overflow t inc) t.bytes ++ inc; truncated = true })
  extend_drop small narrow e = record {
    suffix = extend_narrow (overflow t inc) small narrow refl;
    lossy =
        ground
          (arith, length-append h inc, ap length v.suffix, length-drop (length h - t.capacity) h);
  }

  extend_nonempty : t.capacity < max_capacity → IsTailOf (h ++ inc) (extend t inc)
  unfolding extend
  extend_nonempty small = rw nonempty (elim (Bool-cases (t.capacity == 0)) [
    | inl none ↦ rw none (extend_none (==→eq _ _ none))
    | inr some ↦ rw some (elim (Bool-cases (leb t.capacity (length inc))) [
      | inl wide ↦ rw wide (extend_wide (ground arith) (ground arith))
      | inr narrow ↦ rw narrow (elim (Bool-cases (overflow t inc == 0)) [
        | inl fits ↦ rw fits (extend_keep small (ground arith) (==→eq _ _ fits))
        | inr over ↦ rw over (extend_drop small (ground arith) (ground arith))
      ])
    ])
  ])

pub extend-IsTailOf :
    (h inc : List ℕ) (t : OutputTail)
    → t.capacity < max_capacity
    → IsTailOf h t
    → IsTailOf (h ++ inc) (extend t inc)
unfolding extend
extend-IsTailOf h [] t small v = rw append-nil v
extend-IsTailOf h (x ∷ inc) t small v = unfold extend in extend_nonempty h (x ∷ inc) t v refl small

pub capacity-extend : (t : OutputTail) (inc : List ℕ) → (extend t inc).capacity ≡ t.capacity
unfolding extend
capacity-extend t inc = ground arith

-- One write after the other.
unfoldable pub extend_all : OutputTail → List (List ℕ) → OutputTail
extend_all t [] = t
extend_all t (c ∷ cs) = extend_all (extend t c) cs

extend_all-IsTailOf :
    (cs : List (List ℕ)) (h : List ℕ) (t : OutputTail)
    → t.capacity < max_capacity
    → IsTailOf h t
    → IsTailOf (h ++ concat cs) (extend_all t cs)
unfolding extend_all
extend_all-IsTailOf [] h t small v = rw append-nil v
extend_all-IsTailOf (c ∷ cs) h t small v = rw (← append_assoc h c (concat cs)) (
    extend_all-IsTailOf cs (h ++ c) (extend t c) (rw capacity-extend small)
      (extend-IsTailOf h c t small v))

capacity-extend_all :
    (t : OutputTail) (cs : List (List ℕ)) → (extend_all t cs).capacity ≡ t.capacity
unfolding extend_all
capacity-extend_all t [] = refl
capacity-extend_all t (c ∷ cs) = capacity-extend_all (extend t c) cs ∙ capacity-extend t c

pub empty-IsTailOf : (capacity : ℕ) → IsTailOf [] (empty_tail capacity)
empty-IsTailOf capacity = record {
  suffix = sym (drop_all _ [] (omega arith));
  lossy = ground arith;
}

-- However the output is cut into writes, a new tail of a capacity below 2^63 ends up with exactly
-- the last `capacity` bytes of all of it, and is marked truncated exactly if there were more bytes
-- than that.
pub snapshot-extend_all :
    (capacity : ℕ) (cs : List (List ℕ))
    → capacity < max_capacity
    → (snapshot (extend_all (empty_tail capacity) cs) ≡ last_bytes capacity (concat cs))
      × (is_truncated (extend_all (empty_tail capacity) cs) ≡ ltb capacity (length (concat cs)))
snapshot-extend_all capacity cs small =
    let v = extend_all-IsTailOf cs [] (empty_tail capacity) small (empty-IsTailOf capacity) in
    let same = capacity-extend_all (empty_tail capacity) cs in
    (rw same at v.suffix, rw same at v.lossy)

pub length-last_bytes : (n : ℕ) (xs : List ℕ) → length (last_bytes n xs) ≤ n
length-last_bytes n xs = omega (arith, length-drop (length xs - n) xs)

-- A tail never holds more than its capacity.
pub IsTailOf-bounded : {h : List ℕ} {t : OutputTail} → IsTailOf h t → length t.bytes ≤ t.capacity
IsTailOf-bounded {h} {t} v = rw v.suffix (length-last_bytes t.capacity h)
