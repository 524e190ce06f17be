-- ===== src/Registry/Frame.antt =====
-- src/registry.rs: an invariant of the files that survives every change of certain paths survives the
-- functions that change no others.
pub mod Sessions
use afk_cli.Prelude.{
  ◌%◌, io_error, permission_denied, ℕ, ◌≡◌, refl, ◌⊎◌, inl, inr, List, [], ◌∷◌, Bool, true, false,
  ◌||◌, not, Option, none, some, if◌then◌else◌, ltb, ◌==◌, length, bytes_eq, ok, err, IoError,
  IoResult, ErrorKind, Bool-cases,
}
use afk_cli.Limits.{max_metadata_bytes}
use afk_cli.Identity.{SessionId, display}
use afk_cli.Prelude.Exec.{Exec, pure, fail, lift, attempt, ◌>>=◌}
use afk_cli.Prelude.Ensures.{
  Ensures, Outcome, Ensures-attempt, Ensures-bind, Ensures-pure, Ensures-fail, Ensures-lift,
  Ensures-if,
}
use afk_cli.Registry.Disk.{
  FilePath, Files, Entry, Disk, set_entry, call, symlink_metadata, found, set_permissions,
  with_mode, create_file, bind_socket, create_directory, new_entry, remove_file, unlinked,
  read_file, read_entry, passes, is_directory, is_symlink,
}
use afk_cli.Registry.Disk.Calls.{Now, call-Ensures}
use afk_cli.Registry.Files.{
  PathKind, regular, socket, owner_only_mode, ignore, invalid, check_entry, verify_path,
  unless_missing, read_verified, read_bounded_file, path_entry_exists,
  remove_owned_entry_if_present, remove_if_present, is_not_found, type_matches, mode_matches,
}
use afk_cli.Registry.Sessions.{from_option}

module _ (F : IoError → Type 0) (I : Files → Type 0) where
  abbrev pub Holds : {A : Type 0} → Exec Disk A → Type 0
  Holds m = Ensures (Now F I I) m (λ _. Now F I I) (λ _. Now F I I)

  abbrev pub Survives : FilePath → Type 0
  Survives p = (e : Option Entry) (fs : Files) → I fs → I (set_entry p e fs)

  module _ {A : Type 0} where
    pub pure-Holds : (a : A) → Holds (pure a)
    pure-Holds a = Ensures-pure a (λ d h. h)

    pub fail-Holds : (e : IoError) → Holds (fail {A = A} e)
    fail-Holds e = Ensures-fail e (λ d h. h)

    pub lift-Holds : (r : IoResult A) → Holds (lift r)
    lift-Holds r = Ensures-lift r (λ a d _ h. h) (λ e d _ h. h)

    pub if-Holds : (b : Bool) (m n : Exec Disk A) → Holds m → Holds n → Holds (if b then m else n)
    if-Holds b m n hm hn = Ensures-if b m n (λ _. hm) (λ _. hn)

    pub from_option-Holds : (o : Option A) → Holds (from_option o)
    from_option-Holds none = fail-Holds _
    from_option-Holds (some a) = pure-Holds a

  module _ {A B : Type 0} where
    pub bind-Holds :
        (m : Exec Disk A) (f : A → Exec Disk B)
        → Holds m
        → ((a : A) → Holds (f a))
        → Holds (m >>= f)
    bind-Holds m f hm hf = Ensures-bind m f hm hf

    pub attempt-Holds :
        (m : Exec Disk A) (f : A → Exec Disk B) (g : IoError → Exec Disk B)
        → Holds m
        → ((a : A) → Holds (f a))
        → ((e : IoError) → Holds (g e))
        → Holds (attempt m f g)
    attempt-Holds m f g hm hf hg = Ensures-attempt m f g hm hf hg

  -- A call that leaves the files as they are, and one that sets an entry.
  looks-Holds : {A : Type 0} (f : Files → IoResult A) → Holds (call (λ fs. (f fs, fs)))
  looks-Holds {A} f =
      call-Ensures F I I (λ _. I) (λ _. I) _ (λ fs h. (h, told (f fs) fs h)) (λ fs e _ h. (h, h))
    where
      told : (r : IoResult A) (fs : Files) → I fs → Outcome (λ _. I) (λ _. I) r fs
      told (ok a) fs h = h
      told (err e) fs h = h

  module _ (p : FilePath) (survives : Survives p) where
    new_entry-Holds :
        (taken : ErrorKind) (e : Entry) → Holds (call (λ fs. new_entry taken p e (fs p) fs))
    new_entry-Holds taken e =
        call-Ensures F I I (λ _. I) (λ _. I) _ (λ fs h. made (fs p) fs h) (λ fs e _ h. (h, h))
      where
        made :
            (o : Option Entry) (fs : Files)
            → I fs
            → let out = new_entry taken p e o fs in
              I out.1 × Outcome (λ (_ : Unit {0}). I) (λ _. I) out.0 out.1
        made none fs h = (survives _ fs h, survives _ fs h)
        made (some _) fs h = (h, h)

    pub remove_file-Holds : Holds (remove_file p)
    unfolding remove_file
    remove_file-Holds =
        call-Ensures F I I (λ _. I) (λ _. I) _ (λ fs h. gone (fs p) fs h) (λ fs e _ h. (h, h))
      where
        gone :
            (o : Option Entry) (fs : Files)
            → I fs
            → let out = unlinked p o fs in
              I out.1 × Outcome (λ (_ : Unit {0}). I) (λ _. I) out.0 out.1
        gone none fs h = (h, h)
        gone (some e) fs h = elim (Bool-cases (is_directory e.kind)) [
          | inl y ↦ rw y ((h, h))
          | inr n ↦ rw n ((survives none fs h, survives none fs h))
        ]

    pub set_permissions-Holds : (mode : ℕ) → Holds (set_permissions p mode)
    unfolding set_permissions
    set_permissions-Holds mode =
        call-Ensures F I I (λ _. I) (λ _. I) _ (λ fs h. set (fs p) fs h) (λ fs e _ h. (h, h))
      where
        set :
            (o : Option Entry) (fs : Files)
            → I fs
            → let out = with_mode mode p o fs in
              I out.1 × Outcome (λ (_ : Unit {0}). I) (λ _. I) out.0 out.1
        set none fs h = (h, h)
        set (some e) fs h = (survives _ fs h, survives _ fs h)

    pub create_file-Holds : (uid mode : ℕ) → Holds (create_file uid p mode)
    unfolding create_file
    create_file-Holds uid mode = new_entry-Holds _ _

    pub bind_socket-Holds : (uid mode : ℕ) → Holds (bind_socket uid p mode)
    unfolding bind_socket
    bind_socket-Holds uid mode = new_entry-Holds _ _

    pub create_directory-Holds : (uid mode : ℕ) → Holds (create_directory uid p mode)
    unfolding create_directory
    create_directory-Holds uid mode = new_entry-Holds _ _

  pub symlink_metadata-Holds : (p : FilePath) → Holds (symlink_metadata p)
  unfolding symlink_metadata
  symlink_metadata-Holds p = looks-Holds (λ fs. found (fs p))

  pub passes-Holds : Holds passes
  unfolding passes
  passes-Holds = looks-Holds (λ fs. ok tt)

  read_file-Holds : (p : FilePath) (limit : ℕ) → Holds (read_file p limit)
  unfolding read_file
  read_file-Holds p limit = looks-Holds (λ fs. read_entry limit (fs p))

  unless_missing-Holds : {A : Type 0} (a : A) (e : IoError) → Holds (unless_missing a e)
  unfolding unless_missing
  unless_missing-Holds a e = if-Holds _ _ _ (pure-Holds a) (fail-Holds e)

  pub ignore-Holds : (m : Exec Disk (Unit {0})) → Holds m → Holds (ignore m)
  unfolding ignore
  ignore-Holds m h = attempt-Holds m pure _ h pure-Holds (λ e. pure-Holds tt)

  check_entry-Holds :
      (uid : ℕ) (kind : PathKind) (mode : ℕ) (e : Entry) → Holds (check_entry uid kind mode e)
  unfolding check_entry
  check_entry-Holds uid kind mode e =
      if-Holds (is_symlink e.kind || not (e.owner == uid)) _ _
        (fail-Holds (io_error permission_denied))
        (if-Holds (not (type_matches kind e.kind) || not (mode_matches kind mode (e.mode % 512))) _
          _ (fail-Holds (io_error permission_denied)) (pure-Holds e))

  pub verify_path-Holds :
      (p : FilePath) (uid : ℕ) (kind : PathKind) (mode : ℕ) → Holds (verify_path p uid kind mode)
  unfolding verify_path
  verify_path-Holds p uid kind mode =
      bind-Holds _ _ (symlink_metadata-Holds p) (check_entry-Holds uid kind mode)

  pub read_bounded_file-Holds :
      (p : FilePath) (uid : ℕ) (kind : PathKind) (mode limit : ℕ)
      → Holds (read_bounded_file p uid kind mode limit)
  unfolding read_bounded_file read_verified
  read_bounded_file-Holds p uid kind mode limit =
      attempt-Holds _ _ _ (verify_path-Holds p uid kind mode)
        (λ e. if-Holds _ _ _ (fail-Holds _) (
          bind-Holds _ _ passes-Holds (λ _.
            bind-Holds _ _ (read_file-Holds p _)
              (λ bs. if-Holds _ _ _ (fail-Holds _) (pure-Holds (some bs))))))
        (unless_missing-Holds none)

  pub path_entry_exists-Holds : (p : FilePath) → Holds (path_entry_exists p)
  unfolding path_entry_exists
  path_entry_exists-Holds p =
      attempt-Holds _ _ _ (symlink_metadata-Holds p) (λ _. pure-Holds true)
        (unless_missing-Holds false)

  module _ (p : FilePath) (survives : Survives p) where
    pub remove_if_present-Holds : Holds (remove_if_present p)
    unfolding remove_if_present
    remove_if_present-Holds =
        attempt-Holds _ _ _ (remove_file-Holds p survives) pure-Holds (unless_missing-Holds tt)

    pub remove_owned-Holds :
        (uid : ℕ) (kind : PathKind) (mode : ℕ)
        → Holds (remove_owned_entry_if_present p uid kind mode)
    unfolding remove_owned_entry_if_present
    remove_owned-Holds uid kind mode =
        attempt-Holds _ _ _ (verify_path-Holds p uid kind mode) (λ _. remove_file-Holds p survives)
          (unless_missing-Holds tt)
