-- ===== src/Registry/Reading.antt =====
-- src/registry.rs: what a file has been tested for when its contents are used.
use afk_cli.Prelude.{
  ℕ, ◌+◌, ◌%◌, ◌≤◌, ◌≡◌, refl, ap, ◌∙◌, List, Bool, true, false, ◌||◌, not, Option, none, some,
  if◌then◌else◌, arith, ltb, ◌==◌, length, take, take_all, bytes_eq, bytes_eq→eq, ok, err, IoError,
  io_error, permission_denied, other,
}
use afk_cli.Limits.{max_metadata_bytes}
use afk_cli.Identity.{SessionId, display}
use afk_cli.Prelude.Exec.{Exec, lift}
use afk_cli.Prelude.Ensures.{
  Ensures, Outcome, Ensures-attempt, Ensures-bind, Ensures-pure, Ensures-fail, Ensures-map,
  Ensures-lift, Ensures-if,
}
use afk_cli.Registry.Disk.{
  FilePath, Files, Entry, Disk, symlink_metadata, found, passes, read_file, is_symlink, is_regular,
}
use afk_cli.Registry.Disk.Calls.{Now, call-Ensures}
use afk_cli.Registry.Metadata.{SessionMetadata, session_id}
use afk_cli.Registry.Files.{
  PathKind, regular, owner_only_mode, type_matches, mode_matches, is_not_found, check_entry,
  verify_path, unless_missing, read_verified, read_bounded_file,
}
use afk_cli.Registry.Sessions.{
  Registry, RegistryHost, session_paths, paths, from_option, decode_metadata, read_metadata,
}

-- An entry that `verify_path` lets pass: no link, of this user, of the kind and the mode asked for.
pub record IsSafe (uid : ℕ) (kind : PathKind) (mode : ℕ) (e : Entry) : Type 0 where
  pub no_link : is_symlink e.kind ≡ false
  pub own : e.owner ≡ uid
  pub of_kind : type_matches kind e.kind ≡ true
  pub of_mode : mode_matches kind mode (e.mode % 512) ≡ true

-- The errors that the system makes up do not say that a file is missing.
abbrev pub IsFault : IoError → Type 0
IsFault e = is_not_found e.kind ≡ false

-- The files are as they were.
abbrev pub Still : Files → Files → Type 0
Still files fs = fs ≡ files

module _ (files : Files) where
  -- What `verify_path` has found.
  abbrev pub Verified : FilePath → ℕ → PathKind → ℕ → Entry → Type 0
  Verified p uid kind mode e = (files p ≡ some e) × IsSafe uid kind mode e

  -- The bytes of a file that has been verified, all of them.
  pub record IsContents (p : FilePath) (uid : ℕ) (kind : PathKind) (mode limit : ℕ) (bytes : List ℕ)
      : Type 0 where
    pub entry : Entry
    pub verified : Verified p uid kind mode entry
    pub all : bytes ≡ entry.bytes
    pub small : length bytes ≤ limit

  abbrev pub Contents : FilePath → ℕ → PathKind → ℕ → ℕ → Option (List ℕ) → Type 0
  Contents p uid kind mode limit none = files p ≡ none
  Contents p uid kind mode limit (some bytes) = IsContents p uid kind mode limit bytes

  module _ (host : RegistryHost) (r : Registry) (session : SessionId) where
    -- A record that the session's metadata file holds.
    pub record IsRecorded (m : SessionMetadata) : Type 0 where
      pub bytes : List ℕ
      pub contents :
          IsContents
            (session_paths r session).metadata
            r.uid
            regular
            owner_only_mode
            max_metadata_bytes
            bytes
      pub decoded : host.from_slice bytes ≡ some m
      pub own_name : session_id m ≡ display session

    abbrev pub Recorded : Option SessionMetadata → Type 0
    Recorded none = files (session_paths r session).metadata ≡ none
    Recorded (some m) = IsRecorded m

-- A success tells `Q`, a failure tells nothing; the files are the same all the time.
module _ (files : Files) (I : Files → Type 0) (here : (fs : Files) → fs ≡ files → I fs) where
  abbrev pub Reading : Type 0 → Disk → Type 0
  Reading R = Now IsFault I (λ fs. Still files fs × R)

  abbrev pub Reads :
      {A : Type 0} → Type 0 → Exec Disk A → (A → Type 0) → (IoError → Type 0) → Type 0
  Reads R m Q E = Ensures (Reading R) m (λ a. Reading (Q a)) (λ e. Reading (E e))

  symlink_metadata-Reads :
      (p : FilePath)
      → Reads
          (Unit {0})
          (symlink_metadata p)
          (λ e. files p ≡ some e)
          (λ e. (is_not_found e.kind ≡ true) → files p ≡ none)
  unfolding symlink_metadata
  symlink_metadata-Reads p =
      call-Ensures IsFault I (λ fs. Still files fs × Unit {0}) _ _ _
        (λ fs s. (here fs s.0, looked (files p) fs (ap (λ g. g p) s.0) s.0))
        (λ fs e f s. (here fs s.0, (s.0, λ m. cc)))
    where
      looked :
          (o : Option Entry) (fs : Files)
          → fs p ≡ o
          → Still files fs
          → Outcome
              (λ e gs. Still files gs × (o ≡ some e))
              (λ e gs. Still files gs × ((is_not_found e.kind ≡ true) → o ≡ none))
              (found (fs p))
              fs
      looked none fs e s = rw e ((s, λ m. refl))
      looked (some x) fs e s = rw e ((s, refl))

  pub given :
      {A : Type 0} {R : Type 0} {m : Exec Disk A} {Q : A → Disk → Type 0}
      {E : IoError → Disk → Type 0}
      → (R → Ensures (Reading (Unit {0})) m Q E)
      → Ensures (Reading R) m Q E
  given h = record { at = λ d p. (h p.0.1).at d ((p.0.0, tt), p.1, p.2) }

  check_entry-Reads :
      (uid : ℕ) (kind : PathKind) (mode : ℕ) (e : Entry)
      → Reads
          (Unit {0})
          (check_entry uid kind mode e)
          (λ x. (x ≡ e) × IsSafe uid kind mode e)
          (λ er. is_not_found er.kind ≡ false)
  unfolding check_entry
  check_entry-Reads uid kind mode e =
      Ensures-if (is_symlink e.kind || not (e.owner == uid)) _ _
        (λ _. Ensures-fail (io_error permission_denied) (λ d p. ((p.0.0, refl), p.1, p.2)))
        (λ n.
          Ensures-if _ _ _
            (λ _. Ensures-fail (io_error permission_denied) (λ d p. ((p.0.0, refl), p.1, p.2)))
            (λ k. Ensures-pure e (λ d p. ((p.0.0, (refl, safe n k)), p.1, p.2))))
    where
      safe :
          (is_symlink e.kind || not (e.owner == uid)) ≡ false
          → (not (type_matches kind e.kind) || not (mode_matches kind mode (e.mode % 512))) ≡ false
          → IsSafe uid kind mode e
      safe n k = record {
        no_link = ground arith;
        own = ground arith;
        of_kind = ground arith;
        of_mode = ground arith;
      }

  pub verify_path-Reads :
      (p : FilePath) (uid : ℕ) (kind : PathKind) (mode : ℕ)
      → Reads
          (Unit {0})
          (verify_path p uid kind mode)
          (Verified files p uid kind mode)
          (λ er. (is_not_found er.kind ≡ true) → files p ≡ none)
  unfolding verify_path
  verify_path-Reads p uid kind mode = Ensures-bind _ _ (symlink_metadata-Reads p) (λ e.
      given (λ there.
        Ensures-map (λ d p. p)
          (λ x d p. ((p.0.0, (rw p.0.1.0 there, rw p.0.1.0 p.0.1.1)), p.1, p.2))
          (λ er d p. ((p.0.0, λ m. cc), p.1, p.2)) (check_entry-Reads uid kind mode e)))

  passes-Reads : Reads (Unit {0}) passes (λ _. Unit {0}) (λ _. Unit {0})
  unfolding passes
  passes-Reads =
      call-Ensures IsFault I (λ fs. Still files fs × Unit {0}) _ _ _ (λ fs s. (here fs s.0, s))
        (λ fs e f s. (here fs s.0, s))

  read_file-Reads :
      (p : FilePath) (limit : ℕ) (e : Entry)
      → files p ≡ some e
      → Reads (Unit {0}) (read_file p limit) (λ bytes. bytes ≡ take limit e.bytes) (λ _. Unit {0})
  unfolding read_file
  read_file-Reads p limit e there =
      call-Ensures IsFault I (λ fs. Still files fs × Unit {0}) _ _ _
        (λ fs s.
          let same : fs p ≡ some e = ap (λ g. g p) s.0 ∙ there in
          (here fs s.0, rw same (opened (is_regular e.kind) fs s.0)))
        (λ fs er f s. (here fs s.0, s))
    where
      opened :
          (b : Bool) (fs : Files)
          → Still files fs
          → Outcome
              (λ bytes gs. Still files gs × (bytes ≡ take limit e.bytes))
              (λ _ gs. Still files gs × Unit {0})
              (if b then ok (take limit e.bytes) else err (io_error other))
              fs
      opened true fs s = (s, refl)
      opened false fs s = (s, tt)

  read_verified-Reads :
      (p : FilePath) (uid : ℕ) (kind : PathKind) (mode limit : ℕ) (e : Entry)
      → Verified files p uid kind mode e
      → length e.bytes ≤ limit
      → Reads
          (Unit {0})
          (read_verified p limit)
          (Contents files p uid kind mode limit)
          (λ _. Unit {0})
  unfolding read_verified
  read_verified-Reads p uid kind mode limit e v small = Ensures-bind _ _ passes-Reads (λ _.
      Ensures-bind _ _ (read_file-Reads p (limit + 1) e v.0) (λ bytes. given (λ same.
        Ensures-if (ltb limit (length bytes)) _ _ (λ _. Ensures-fail _ (λ d q. q))
          (λ _. Ensures-pure (some bytes) (λ d q. ((q.0.0, contents bytes same), q.1, q.2))))))
    where
      contents :
          (bytes : List ℕ)
          → bytes ≡ take (limit + 1) e.bytes
          → IsContents files p uid kind mode limit bytes
      contents bytes same =
          let whole : bytes ≡ e.bytes = same ∙ take_all (limit + 1) e.bytes (omega arith) in
          record { entry = e; verified = v; all = whole; small = rw whole small }

  pub read_bounded_file-Reads :
      (p : FilePath) (uid : ℕ) (kind : PathKind) (mode limit : ℕ)
      → Reads
          (Unit {0})
          (read_bounded_file p uid kind mode limit)
          (Contents files p uid kind mode limit)
          (λ _. Unit {0})
  unfolding read_bounded_file unless_missing
  read_bounded_file-Reads p uid kind mode limit =
      Ensures-attempt _ _ _ (verify_path-Reads p uid kind mode)
        (λ e. given (λ v.
          Ensures-if (ltb limit (length e.bytes)) _ _ (λ _. Ensures-fail _ (λ d q. q))
            (λ fits. read_verified-Reads p uid kind mode limit e v (ground arith))))
        (λ er. given (λ missing.
          Ensures-if (is_not_found er.kind) _ _
            (λ m. Ensures-pure none (λ d q. ((q.0.0, missing m), q.1, q.2)))
            (λ _. Ensures-fail er (λ d q. q))))

  module _ (host : RegistryHost) (r : Registry) (session : SessionId) where
    decode_metadata-Reads :
        (o : Option (List ℕ))
        → Contents files
            (session_paths r session).metadata
            r.uid
            regular
            owner_only_mode
            max_metadata_bytes
            o
        → Reads
            (Unit {0})
            (decode_metadata host r session o)
            (Recorded files host r session)
            (λ _. Unit {0})
    unfolding decode_metadata
    decode_metadata-Reads none c = Ensures-pure none (λ d q. ((q.0.0, c), q.1, q.2))
    decode_metadata-Reads (some bytes) c =
        Ensures-bind _ _ (decoding (host.from_slice bytes) refl) (λ m. given (λ decoded.
          Ensures-if (not (bytes_eq (session_id m) (display session))) _ _
            (λ _. Ensures-fail _ (λ d q. q))
            (λ same. Ensures-pure (some m) (λ d q. (
              (
                q.0.0,
                record {
                  bytes = bytes;
                  contents = c;
                  decoded = decoded;
                  own_name = bytes_eq→eq _ _ (ground arith);
                },
              ),
              q.1,
              q.2,
            )))))
      where
        decoding :
            (o : Option SessionMetadata)
            → host.from_slice bytes ≡ o
            → Reads (Unit {0}) (from_option o) (λ m. host.from_slice bytes ≡ some m) (λ _. Unit {0})
        decoding none e = Ensures-fail _ (λ d q. q)
        decoding (some m) e = Ensures-pure m (λ d q. ((q.0.0, e), q.1, q.2))

    pub paths-Reads :
        Reads
          (Unit {0})
          (lift (paths r session))
          (λ found. found ≡ session_paths r session)
          (λ _. Unit {0})
    unfolding paths
    paths-Reads = Ensures-lift _ (λ found d e q. ((q.0.0, ground arith), q.1, q.2)) (λ er d e q. q)

    pub read_metadata-Reads :
        Reads
          (Unit {0})
          (read_metadata host r session)
          (Recorded files host r session)
          (λ _. Unit {0})
    unfolding read_metadata
    read_metadata-Reads = Ensures-bind _ _ paths-Reads (λ found. given (λ same.
        Ensures-bind _ _
          (rw same (
            read_bounded_file-Reads (session_paths r session).metadata r.uid regular owner_only_mode
              max_metadata_bytes))
          (λ o. given (decode_metadata-Reads o))))
