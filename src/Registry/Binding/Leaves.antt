-- ===== src/Registry/Binding/Leaves.antt =====
-- src/registry.rs, `bind_session`: the files that it leaves.
use afk_cli.Prelude.{
  ℕ, ◌≡◌, refl, ◌∙◌, List, [], ◌∷◌, ◌++◌, false, Option, none, some, All, arith, IoError, codes,
  bytes_eq, addr_in_use, already_exists, String,
}
use afk_cli.Identity.{SessionId, display}
use afk_cli.Prelude.Exec.{Exec}
use afk_cli.Prelude.Ensures.{
  Ensures, Outcome, Ensures-attempt, Ensures-bind, Ensures-pure, Ensures-fail, Ensures-lift,
  Ensures-fact,
}
use afk_cli.Registry.Disk.{
  FilePath, path_eq, Files, FileKind, Entry, Disk, set_permissions, create_file, bind_socket,
  new_entry, passes, remove_file,
}
use afk_cli.Registry.Disk.Calls.{set_entry_same, set_entry_other, Now, call-Ensures}
use afk_cli.Registry.Files.{owner_only_mode, owner_directory_mode}
use afk_cli.Registry.Sessions.{
  Registry, RegistryHost, SessionPaths, session_path, session_paths, take_lock, secure_socket,
  bind_error, bind_session,
}
use afk_cli.Registry.Atomic.Moments.{own_file}
use afk_cli.Registry.Frame.{ignore-Holds, remove_file-Holds}
use afk_cli.Registry.Frame.Sessions.{SurvivesAll, paths-eq, read_metadata-Holds, make_room-Holds}

-- The files of a session.
abbrev pub all_paths : SessionPaths → List FilePath
all_paths p = p.socket ∷ p.metadata ∷ p.lock ∷ p.output ∷ p.trace ∷ []

abbrev pub IsOutside : SessionPaths → FilePath → Type 0
IsOutside p q = All (λ x. path_eq x q ≡ false) (all_paths p)

-- No file but those of the session has changed.
abbrev pub IsConfined : SessionPaths → Files → Files → Type 0
IsConfined p files fs = (q : FilePath) → IsOutside p q → fs q ≡ files q

-- The socket of a session that is bound.
abbrev pub own_socket : ℕ → Entry
own_socket uid = record { kind = FileKind.socket; owner = uid; mode = owner_only_mode; bytes = [] }

-- Both entries are there, for no other user to touch.
pub record IsBound (r : Registry) (session : SessionId) (found : SessionPaths) (fs : Files)
    : Type 0 where
  pub same : found ≡ session_paths r session
  pub socket : fs (session_paths r session).socket ≡ some (own_socket r.uid)
  pub lock : fs (session_paths r session).lock ≡ some (own_file r.uid [])

pub IsConfined-SurvivesAll :
    (F : IoError → Type 0) (p : SessionPaths) (files : Files) → SurvivesAll F (IsConfined p files) p
IsConfined-SurvivesAll F p files = record {
  socket = λ e fs h q o. set_entry_other _ q e fs o.0 ∙ h q o;
  metadata = λ e fs h q o. set_entry_other _ q e fs o.1.0 ∙ h q o;
  lock = λ e fs h q o. set_entry_other _ q e fs o.1.1.0 ∙ h q o;
  output = λ e fs h q o. set_entry_other _ q e fs o.1.1.1.0 ∙ h q o;
  trace = λ e fs h q o. set_entry_other _ q e fs o.1.1.1.1.0 ∙ h q o;
}

-- Extensions of the same length that differ.
suffix-ne : (xs ys zs : List ℕ) → bytes_eq ys zs ≡ false → bytes_eq (xs ++ ys) (xs ++ zs) ≡ false
suffix-ne [] ys zs h = h
suffix-ne (x ∷ xs) ys zs h = ground (arith, suffix-ne xs ys zs h)

pub session_path-ne :
    (r : Registry) (s : SessionId) (e f : String)
    → bytes_eq (codes e) (codes f) ≡ false
    → path_eq (session_path r s e) (session_path r s f) ≡ false
session_path-ne r s e f h = ground (arith, suffix-ne (display s) (codes e) (codes f) h)

abbrev pub Anything : Files → Type 0
Anything _ = Unit {0}

abbrev pub NoAssumption : IoError → Type 0
NoAssumption _ = Unit {0}

module _ (host : RegistryHost) (r : Registry) (session : SessionId) where
  abbrev pub own : SessionPaths
  own = session_paths r session

  abbrev pub HasSocket : ℕ → Files → Type 0
  HasSocket mode fs = fs own.socket ≡ some (record (own_socket r.uid) { mode = mode })

  -- What holds between two calls.
  abbrev pub Between : (Files → Type 0) → Disk → Type 0
  Between = Now NoAssumption Anything

  abbrev pub Gives : {A : Type 0} → (Files → Type 0) → Exec Disk A → (A → Files → Type 0) → Type 0
  Gives P m Q = Ensures (Between P) m (λ a. Between (Q a)) (λ _. Between Anything)

  bind_socket-Gives :
      Gives Anything
        (bind_socket r.uid own.socket owner_directory_mode)
        (λ _. HasSocket owner_directory_mode)
  unfolding bind_socket
  bind_socket-Gives =
      call-Ensures NoAssumption Anything Anything (λ _. Anything) _ _
        (λ fs h. (tt, made (fs own.socket) fs)) (λ fs e _ h. (tt, tt))
    where
      made :
          (o : Option Entry) (fs : Files)
          → let out =
              new_entry addr_in_use own.socket
                (record (own_socket r.uid) { mode = owner_directory_mode })
                o
                fs in
            Outcome (λ (_ : Unit {0}). HasSocket owner_directory_mode) (λ _. Anything) out.0 out.1
      made none fs = set_entry_same own.socket _ fs
      made (some e) fs = tt

  set_permissions-Gives :
      Gives
        (HasSocket owner_directory_mode)
        (set_permissions own.socket owner_only_mode)
        (λ _. HasSocket owner_only_mode)
  unfolding set_permissions
  set_permissions-Gives =
      call-Ensures NoAssumption Anything (HasSocket owner_directory_mode) (λ _. Anything)
        (λ _. HasSocket owner_only_mode) _ (λ fs h. (tt, rw h (set_entry_same own.socket _ fs)))
        (λ fs e _ h. (tt, tt))

  passes-Gives : Gives (HasSocket owner_only_mode) passes (λ _. HasSocket owner_only_mode)
  unfolding passes
  passes-Gives =
      call-Ensures NoAssumption Anything (HasSocket owner_only_mode) (λ _. Anything)
        (λ _. HasSocket owner_only_mode) _ (λ fs h. (tt, h)) (λ fs e _ h. (tt, tt))

  create_lock-Gives :
      Gives
        (HasSocket owner_only_mode)
        (create_file r.uid own.lock owner_only_mode)
        (λ _. IsBound r session own)
  unfolding create_file
  create_lock-Gives =
      call-Ensures NoAssumption Anything (HasSocket owner_only_mode) (λ _. Anything) _ _
        (λ fs h. (tt, made (fs own.lock) fs h)) (λ fs e _ h. (tt, tt))
    where
      made :
          (o : Option Entry) (fs : Files)
          → HasSocket owner_only_mode fs
          → let out = new_entry already_exists own.lock (own_file r.uid []) o fs in
            Outcome (λ (_ : Unit {0}). IsBound r session own) (λ _. Anything) out.0 out.1
      made (some e) fs h = tt
      made none fs h = record {
        same = refl;
        socket =
            set_entry_other own.lock own.socket _ fs
              (session_path-ne r session ".lock" ".sock" refl)
            ∙ h;
        lock = set_entry_same own.lock _ fs;
      }

  take_lock-Gives :
      Gives (HasSocket owner_only_mode) (take_lock host r own) (λ _. IsBound r session own)
  unfolding take_lock
  take_lock-Gives =
      Ensures-attempt _ _ _ create_lock-Gives (λ a. Ensures-pure a (λ d h. h))
        (λ e.
          Ensures-bind _ _
            (ignore-Holds NoAssumption Anything (remove_file own.socket)
              (remove_file-Holds NoAssumption Anything own.socket (λ _ _ _. tt)))
            (λ _. Ensures-fail e (λ d h. h)))

  secure_socket-Gives :
      Gives (HasSocket owner_directory_mode) (secure_socket host r own) (IsBound r session)
  unfolding secure_socket
  secure_socket-Gives = Ensures-bind _ _ set_permissions-Gives (λ _.
      Ensures-bind _ _ passes-Gives
        (λ _. Ensures-bind _ _ take_lock-Gives (λ _. Ensures-pure own (λ d h. h))))

  pub bind_session-Gives : Gives Anything (bind_session host r session) (IsBound r session)
  unfolding bind_session
  bind_session-Gives =
      Ensures-bind {Q = λ found d. (found ≡ own) × Between Anything d} _ _
        (Ensures-lift _ (λ found d e q. (paths-eq r session e, q)) (λ e d _ q. q))
        (λ found. Ensures-fact (λ same. rw same (
          Ensures-bind _ _ (read_metadata-Holds NoAssumption Anything host r session) (λ m.
            Ensures-bind _ _ (make_room-Holds NoAssumption Anything host r session own anywhere m)
              (λ _.
                Ensures-attempt _ _ _ bind_socket-Gives (λ _. secure_socket-Gives)
                  (λ e. Ensures-fail (bind_error host r e) (λ d h. h)))))))
    where
      anywhere : SurvivesAll NoAssumption Anything own
      anywhere = record {
        socket = λ _ _ _. tt;
        metadata = λ _ _ _. tt;
        lock = λ _ _ _. tt;
        output = λ _ _ _. tt;
        trace = λ _ _ _. tt;
      }
