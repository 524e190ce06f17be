-- ===== src/Registry/Binding.antt =====
-- src/registry.rs, `bind_session`: what it changes, what it leaves behind, and what stops it.
pub mod Leaves
use afk_cli.Prelude.{
  ok_inj, some_inj, ℕ, ◌≡◌, refl, ap, ◌∙◌, List, [], ◌∷◌, ◌++◌, Bool, true, false, Option, none,
  some, All, arith, ok, err, IoError, IoResult, codes, bytes_eq, if◌then◌else◌, addr_in_use,
  already_exists, io_error, ◌&&◌, sym, Bool-cases, inl, inr, append_split, String, length,
  bytes_eq→eq, bytes_eq_refl, some_not_none, leb,
}
use afk_cli.Identity.{SessionId, display}
use afk_cli.Prelude.Exec.{Exec, pure, fail, lift, attempt, ◌>>=◌}
use afk_cli.Prelude.Ensures.{
  Ensures, Outcome, Ensures-attempt, Ensures-bind, Ensures-pure, Ensures-fail, Ensures-lift,
  Ensures-if, Ensures-map, Keeps-after, Ensures-fact,
}
use afk_cli.Registry.Disk.{
  FilePath, path_eq, Files, FileKind, Entry, Disk, Fault, set_entry, call, set_permissions,
  with_mode, create_file, bind_socket, new_entry, passes, remove_file,
}
use afk_cli.Registry.Disk.Calls.{
  disk, path_eq→eq, path_eq_refl, set_entry_same, set_entry_other, Faulty, no_assumption, Now,
  call-Ensures,
}
use afk_cli.Registry.Metadata.{SessionMetadata, live, completed, Completed, is_expired}
use afk_cli.Registry.Files.{owner_only_mode, owner_directory_mode, ignore}
use afk_cli.Registry.Sessions.{
  Registry, RegistryHost, SessionPaths, session_path, session_paths, paths, remove_completed,
  replace_recorded, make_room, take_lock, secure_socket, bind_error, bind_session,
}
use afk_cli.Registry.Atomic.Moments.{own_file}
use afk_cli.Registry.Frame.{Holds, fail-Holds, bind-Holds, ignore-Holds, remove_file-Holds}
use afk_cli.Registry.Frame.Sessions.{
  SurvivesAll, paths-eq, read_metadata-Holds, make_room-Holds, bind_session-Holds,
}
use afk_cli.Registry.Reading.{
  IsFault, Still, Reading, IsContents, Recorded, IsRecorded, given, read_metadata-Reads,
  paths-Reads,
}
use afk_cli.Registry.Binding.Leaves.{
  IsConfined, IsConfined-SurvivesAll, IsBound, Anything, NoAssumption, bind_session-Gives,
}

abbrev pub Bindings : Registry → SessionId → IoResult SessionPaths → Files → Type 0
Bindings r session (ok found) fs = IsBound r session found fs
Bindings r session (err e) fs = Unit {0}

-- Whatever the system fails, and after each call: no file but the five of the session is touched. A
-- success leaves the socket and an empty lock, both for the user alone.
pub bind_session-IsConfined :
    (host : RegistryHost) (r : Registry) (session : SessionId) (files : Files) (faults : List Fault)
    → let out = bind_session host r session (disk files faults) in
      All (IsConfined (session_paths r session) files) out.1.history
      × IsConfined (session_paths r session) files out.1.files
      × Bindings r session out.0 out.1.files
bind_session-IsConfined host r session files faults =
    let I = IsConfined (session_paths r session) files in
    let kept =
      Keeps-after {s = disk files faults}
        (bind_session-Holds NoAssumption I host r session
          (IsConfined-SurvivesAll NoAssumption (session_paths r session) files))
        (λ q o. refl, tt, no_assumption faults) in
    (
      kept.1,
      kept.0,
      told _ _ (
          (bind_session-Gives host r session).at (disk files faults)
            (tt, tt, no_assumption faults)),
    )
  where
    told :
        (o : IoResult SessionPaths) (d : Disk)
        → Outcome
            (λ found. Now NoAssumption Anything (IsBound r session found))
            (λ _. Now NoAssumption Anything Anything)
            o
            d
        → Bindings r session o d.files
    told (ok found) d h = h.0
    told (err e) d h = tt

-- A session that has ended, and whose record is still to be kept.
pub record IsKept (host : RegistryHost) (r : Registry) (session : SessionId) (files : Files)
    (now : ℕ) (c : Completed) : Type 0 where
  pub recorded : IsRecorded files host r session (completed c)
  pub fresh : is_expired (completed c) now ≡ false

abbrev pub IsRefused : {A : Type 0} → IoResult A → Type 0
IsRefused (ok a) = ⊥
IsRefused (err e) = Unit {0}

-- A file holds one record.
pub recorded_unique :
    (files : Files) (host : RegistryHost) (r : Registry) (session : SessionId)
    (m n : SessionMetadata)
    → IsRecorded files host r session m
    → IsRecorded files host r session n
    → m ≡ n
recorded_unique files host r session m n a b =
    let same : a.contents.entry ≡ b.contents.entry =
      some_inj (sym a.contents.verified.0 ∙ b.contents.verified.0) in
    let bytes : a.bytes ≡ b.bytes =
      a.contents.all ∙ ap (λ (e : Entry). e.bytes) same ∙ sym b.contents.all in
    some_inj (sym a.decoded ∙ ap host.from_slice bytes ∙ b.decoded)

module _ (host : RegistryHost) (r : Registry) (session : SessionId) (files : Files) (now : ℕ)
    (c : Completed) (clock : host.now_seconds ≡ ok now)
    (kept : IsKept host r session files now c) where
  -- The files stay as they are, and there is no success.
  abbrev Refuses : {A : Type 0} → Exec Disk A → Type 0
  Refuses m =
      Ensures (Reading files (Still files) (λ _ h. h) (Unit {0})) m (λ _ _. ⊥)
        (λ _. Reading files (Still files) (λ _ h. h) (Unit {0}))

  make_room-Refuses :
      Refuses (make_room host r session (session_paths r session) (some (completed c)))
  unfolding make_room replace_recorded
  make_room-Refuses =
      Ensures-bind
        {Q = λ now' d. (now' ≡ now) × Reading files (Still files) (λ _ h. h) (Unit {0}) d} _ _
        (Ensures-lift _ (λ now' d e q. (ok_inj (sym e ∙ clock), q)) (λ e d _ q. q))
        (λ now'.
          Ensures-fact
            (λ same. rw (same, kept.fresh) (Ensures-fail (io_error already_exists) (λ d q. q))))

  bind_session-Refuses : Refuses (bind_session host r session)
  unfolding bind_session
  bind_session-Refuses =
      Ensures-bind _ _ (paths-Reads files (Still files) (λ _ h. h) host r session) (λ found.
        given files (Still files) (λ _ h. h)
          (λ same. rw same (
            Ensures-bind _ _ (read_metadata-Reads files (Still files) (λ _ h. h) host r session)
              (λ m.
                given files (Still files) (λ _ h. h)
                  (λ recorded.
                    Ensures-bind {Q = λ _ _. ⊥} _ _ (stopped m recorded)
                      (λ _. record { at = λ d p. absurd p }))))))
    where
      stopped :
          (m : Option SessionMetadata)
          → Recorded files host r session m
          → Refuses (make_room host r session (session_paths r session) m)
      stopped none missing =
          absurd (some_not_none (sym kept.recorded.contents.verified.0 ∙ missing))
      stopped (some m) there =
          rw (recorded_unique files host r session m (completed c) there kept.recorded)
            make_room-Refuses

-- A session that has ended cannot be started again while its record is to be kept: `bind_session`
-- fails, and no file changes at any moment. The system may fail its calls, but not by saying that a
-- file is missing.
pub bind_session_refuses :
    (host : RegistryHost) (r : Registry) (session : SessionId) (files : Files) (faults : List Fault)
    (now : ℕ) (c : Completed)
    → host.now_seconds ≡ ok now
    → IsKept host r session files now c
    → All (Faulty IsFault) faults
    → let out = bind_session host r session (disk files faults) in
      IsRefused out.0 × All (Still files) out.1.history
bind_session_refuses host r session files faults now c clock kept coming = told _ _ (
    (bind_session-Refuses host r session files now c clock kept).at (disk files faults)
      ((refl, tt), tt, coming))
  where
    told :
        (o : IoResult SessionPaths) (d : Disk)
        → Outcome (λ _ _. ⊥) (λ _. Reading files (Still files) (λ _ h. h) (Unit {0})) o d
        → IsRefused o × All (Still files) d.history
    told (ok found) d h = absurd h
    told (err e) d h = (tt, h.1)
