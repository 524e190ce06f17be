-- ===== src/Registry/Listing/Sorted.antt =====
-- src/registry.rs, `list`: the records that it gives, and their order.
use afk_cli.Prelude.{
  ℕ, suc, ◌≤◌, ◌≡◌, refl, List, [], ◌∷◌, false, Option, none, some, All, All-append, arith, ok, err,
  IoResult, length, length-append, leb, ◌==◌, Bool-cases, inl, inr, leb→le,
}
use afk_cli.Limits.{max_session_list_entries}
use afk_cli.Identity.{SessionId}
use afk_cli.Prelude.Exec.{pure}
use afk_cli.Prelude.Ensures.{
  Ensures, Outcome, Ensures-bind, Ensures-pure, Ensures-lift, Ensures-if, Ensures-map,
}
use afk_cli.Registry.Disk.{Files, Disk, Fault}
use afk_cli.Registry.Disk.Calls.{disk, Faulty}
use afk_cli.Registry.Metadata.{SessionMetadata, started_at}
use afk_cli.Registry.Sessions.{Registry, RegistryHost, read_metadata}
use afk_cli.Registry.Listing.{
  session_from_metadata_name, insert_by_start, sort_by_start, push_found, ReadDir, read_named,
  collect, list,
}
use afk_cli.Registry.Reading.{
  IsFault, Still, Reading, Recorded, IsRecorded, given, read_metadata-Reads,
}

-- Each record started no later than the next.
abbrev pub Sorted : List SessionMetadata → Type 0
Sorted [] = Unit {0}
Sorted (m ∷ rest) = All (λ n. started_at m ≤ started_at n) rest × Sorted rest

All-insert :
    (P : SessionMetadata → Type 0) (m : SessionMetadata) (l : List SessionMetadata)
    → P m
    → All P l
    → All P (insert_by_start m l)
unfolding insert_by_start
All-insert P m [] h hs = (h, tt)
All-insert P m (n ∷ rest) h hs = elim (Bool-cases (leb (started_at m) (started_at n))) [
  | inl y ↦ rw y ((h, hs))
  | inr x ↦ rw x ((hs.0, All-insert P m rest h hs.1))
]

All-below :
    (k j : ℕ) (l : List SessionMetadata)
    → k ≤ j
    → All (λ n. j ≤ started_at n) l
    → All (λ n. k ≤ started_at n) l
All-below k j [] h hs = tt
All-below k j (n ∷ rest) h hs = (omega (arith, hs.0), All-below k j rest h hs.1)

Sorted-insert :
    (m : SessionMetadata) (l : List SessionMetadata) → Sorted l → Sorted (insert_by_start m l)
unfolding insert_by_start
Sorted-insert m [] h = (tt, tt)
Sorted-insert m (n ∷ rest) h = elim (Bool-cases (leb (started_at m) (started_at n))) [
  | inl y ↦
      let le = leb→le _ _ y in rw y (((le, All-below (started_at m) (started_at n) rest le h.0), h))
  | inr x ↦ rw x ((All-insert _ m rest (ground arith) h.0, Sorted-insert m rest h.1))
]

Sorted-sort : (l : List SessionMetadata) → Sorted (sort_by_start l)
unfolding sort_by_start
Sorted-sort [] = tt
Sorted-sort (m ∷ rest) = Sorted-insert m (sort_by_start rest) (Sorted-sort rest)

All-sort :
    (P : SessionMetadata → Type 0) (l : List SessionMetadata) → All P l → All P (sort_by_start l)
unfolding sort_by_start
All-sort P [] h = tt
All-sort P (m ∷ rest) h = All-insert P m (sort_by_start rest) h.0 (All-sort P rest h.1)

length-insert :
    (m : SessionMetadata) (l : List SessionMetadata) → length (insert_by_start m l) ≡ suc (length l)
unfolding insert_by_start
length-insert m [] = refl
length-insert m (n ∷ rest) = ground (arith, length-insert m rest)

length-sort : (l : List SessionMetadata) → length (sort_by_start l) ≡ length l
unfolding sort_by_start
length-sort [] = refl
length-sort (m ∷ rest) = omega (arith, length-insert m (sort_by_start rest), length-sort rest)

module _ (files : Files) (host : RegistryHost) (r : Registry) where
  -- The record of some session, tested and in its own file.
  pub record IsListed (m : SessionMetadata) : Type 0 where
    pub session : SessionId
    pub recorded : IsRecorded files host r session m

  abbrev Collected : List SessionMetadata → Type 0
  Collected l = All IsListed l × (length l ≤ max_session_list_entries)

  pub record IsListing (l : List SessionMetadata) : Type 0 where
    pub listed : All IsListed l
    pub sorted : Sorted l
    pub bounded : length l ≤ max_session_list_entries

  abbrev R : Type 0 → Disk → Type 0
  R = Reading files (Still files) (λ _ h. h)

  abbrev Named : Option SessionMetadata → Type 0
  Named none = Unit {0}
  Named (some m) = IsListed m

  read_named-Reads :
      (name : List ℕ)
      → Ensures (R (Unit {0})) (read_named host r name) (λ o. R (Named o)) (λ _. R (Unit {0}))
  unfolding read_named
  read_named-Reads name = named (session_from_metadata_name name)
    where
      keep : (s : SessionId) (o : Option SessionMetadata) → Recorded files host r s o → Named o
      keep s none h = tt
      keep s (some m) h = record { session = s; recorded = h }

      named :
          (o : Option SessionId)
          → Ensures
              (R (Unit {0}))
              (elim o [ none ↦ pure none | some session ↦ read_metadata host r session ])
              (λ o. R (Named o))
              (λ _. R (Unit {0}))
      named none = Ensures-pure none (λ d q. q)
      named (some s) =
          Ensures-map (λ d q. q) (λ o d q. ((q.0.0, keep s o q.0.1), q.1, q.2)) (λ e d q. q)
            (read_metadata-Reads files (Still files) (λ _ h. h) host r s)

  push-Collected :
      (l : List SessionMetadata) (o : Option SessionMetadata)
      → Collected l
      → (length l == max_session_list_entries) ≡ false
      → Named o
      → Collected (push_found l o)
  push-Collected l none c room h = c
  push-Collected l (some m) c room h =
      (All-append IsListed l (m ∷ []) c.0 (h, tt), ground (arith, length-append l (m ∷ [])))

  collect-Reads :
      (entries : List (IoResult (List ℕ))) (l : List SessionMetadata)
      → Collected l
      → Ensures
          (R (Unit {0}))
          (collect host r entries l)
          (λ l'. R (Collected l'))
          (λ _. R (Unit {0}))
  unfolding collect
  collect-Reads [] l c = Ensures-pure l (λ d q. ((q.0.0, c), q.1, q.2))
  collect-Reads (entry ∷ entries) l c =
      Ensures-if (length l == max_session_list_entries) _ _
        (λ _. Ensures-pure l (λ d q. ((q.0.0, c), q.1, q.2)))
        (λ room.
          Ensures-bind {Q = λ _. R (Unit {0})} _ _ (Ensures-lift _ (λ name d _ q. q) (λ e d _ q. q))
            (λ name. Ensures-bind _ _ (read_named-Reads name) (λ o.
              given files (Still files) (λ _ h. h)
                (λ h. collect-Reads entries (push_found l o) (push-Collected l o c room h)))))

  list-Reads :
      (read_dir : ReadDir)
      → Ensures (R (Unit {0})) (list host r read_dir) (λ l. R (IsListing l)) (λ _. R (Unit {0}))
  unfolding list
  list-Reads read_dir =
      Ensures-bind {Q = λ _. R (Unit {0})} _ _ (Ensures-lift _ (λ a d _ q. q) (λ e d _ q. q))
        (λ entries. Ensures-bind _ _ (collect-Reads entries [] (tt, omega arith)) (λ l.
          given files (Still files) (λ _ h. h)
            (λ c. Ensures-pure (sort_by_start l) (λ d q. ((q.0.0, listing l c), q.1, q.2)))))
    where
      listing : (l : List SessionMetadata) → Collected l → IsListing (sort_by_start l)
      listing l c = record {
        listed = All-sort IsListed l c.0;
        sorted = Sorted-sort l;
        bounded = omega (arith, length-sort l, c.1);
      }

abbrev pub Lists : Files → RegistryHost → Registry → IoResult (List SessionMetadata) → Type 0
Lists files host r (ok l) = IsListing files host r l
Lists files host r (err e) = Unit {0}

-- A listing has at most 1024 records, in the order of their start, each from the owner-only file of its
-- own session; and listing changes no file at any moment. The directory may hold any entries, and
-- the system may fail its calls, but not by saying that a file is missing.
pub list-IsListing :
    (host : RegistryHost) (r : Registry) (read_dir : ReadDir) (files : Files) (faults : List Fault)
    → All (Faulty IsFault) faults
    → let out = list host r read_dir (disk files faults) in
      Lists files host r out.0 × All (Still files) out.1.history
list-IsListing host r read_dir files faults coming =
    told _ _ ((list-Reads files host r read_dir).at (disk files faults) ((refl, tt), tt, coming))
  where
    told :
        (o : IoResult (List SessionMetadata)) (d : Disk)
        → Outcome
            (λ l. R files host r (IsListing files host r l))
            (λ _. R files host r (Unit {0}))
            o
            d
        → Lists files host r o × All (Still files) d.history
    told (ok l) d h = (h.0.1, h.1)
    told (err e) d h = (tt, h.1)
