-- ===== src/Registry/Frame/Sessions.antt =====
-- src/registry.rs: the functions on the files of a session change no file but its five.
use afk_cli.Prelude.{
  ◌==◌, permission_denied, not, bytes_eq, invalid_data, io_error, ◌≡◌, true, Option, none, some, ok,
  IoError, List, ℕ, arith,
}
use afk_cli.Identity.{display, SessionId}
use afk_cli.Prelude.Exec.{Exec, lift, ◌>>=◌}
use afk_cli.Prelude.Ensures.{Ensures-bind, Ensures-lift, Ensures-fact}
use afk_cli.Registry.Disk.{Files, Disk}
use afk_cli.Registry.Disk.Calls.{Now}
use afk_cli.Registry.Metadata.{session_id, SessionMetadata, live, completed, is_expired}
use afk_cli.Registry.Files.{socket, owner_only_mode}
use afk_cli.Registry.Sessions.{
  Registry, RegistryHost, SessionPaths, session_paths, paths, check_peer, connect, decode_metadata,
  read_metadata, remove_completed, remove_stale_live, replace_stale, replace_recorded, make_room,
  take_lock, secure_socket, bind_session,
}
use afk_cli.Registry.Frame.{
  Holds, Survives, pure-Holds, fail-Holds, lift-Holds, if-Holds, from_option-Holds, bind-Holds,
  attempt-Holds, remove_file-Holds, set_permissions-Holds, create_file-Holds, bind_socket-Holds,
  passes-Holds, ignore-Holds, verify_path-Holds, read_bounded_file-Holds, path_entry_exists-Holds,
  remove_if_present-Holds, remove_owned-Holds,
}

pub paths-eq :
    (r : Registry) (s : SessionId) {found : SessionPaths}
    → paths r s ≡ ok found
    → found ≡ session_paths r s
unfolding paths
paths-eq r s e = ground arith

-- Each of the paths of a session may change.
pub record SurvivesAll (F : IoError → Type 0) (I : Files → Type 0) (found : SessionPaths)
    : Type 0 where
  pub socket : Survives F I found.socket
  pub metadata : Survives F I found.metadata
  pub lock : Survives F I found.lock
  pub output : Survives F I found.output
  pub trace : Survives F I found.trace

module _ (F : IoError → Type 0) (I : Files → Type 0) (host : RegistryHost) (r : Registry)
    (session : SessionId) where
  pub paths-Holds :
      {A : Type 0} (f : SessionPaths → Exec Disk A)
      → Holds F I (f (session_paths r session))
      → Holds F I (lift (paths r session) >>= f)
  paths-Holds f h =
      Ensures-bind {Q = λ found d. (found ≡ session_paths r session) × Now F I I d} _ _
        (Ensures-lift _ (λ found d e q. (paths-eq r session e, q)) (λ e d _ q. q))
        (λ found. Ensures-fact (λ same. rw same h))

  check_peer-Holds : (stream peer : ℕ) → Holds F I (check_peer host r stream peer)
  unfolding check_peer
  check_peer-Holds stream peer =
      if-Holds F I (not (peer == r.uid)) _ _ (fail-Holds F I (io_error permission_denied))
        (pure-Holds F I stream)

  pub connect-Holds : Holds F I (connect host r session)
  unfolding connect
  connect-Holds =
      let socket_path = (session_paths r session).socket in
      paths-Holds _ (
        bind-Holds F I _ _ (verify_path-Holds F I socket_path r.uid socket owner_only_mode) (λ _.
          bind-Holds F I _ _ (lift-Holds F I (host.connect socket_path)) (λ stream.
            bind-Holds F I _ _ (lift-Holds F I (host.peer_uid stream)) (check_peer-Holds stream))))

  decode_metadata-Holds : (o : Option (List ℕ)) → Holds F I (decode_metadata host r session o)
  unfolding decode_metadata
  decode_metadata-Holds none = pure-Holds F I none
  decode_metadata-Holds (some bytes) =
      bind-Holds F I _ _ (from_option-Holds F I (host.from_slice bytes)) (λ m.
        if-Holds F I (not (bytes_eq (session_id m) (display session))) _ _
          (fail-Holds F I (io_error invalid_data)) (pure-Holds F I (some m)))

  pub read_metadata-Holds : Holds F I (read_metadata host r session)
  unfolding read_metadata
  read_metadata-Holds =
      paths-Holds _
        (bind-Holds F I _ _ (read_bounded_file-Holds F I _ _ _ _ _) decode_metadata-Holds)

  module _ (found : SessionPaths) (all : SurvivesAll F I found) where
    pub remove_completed-Holds : Holds F I (remove_completed host r found)
    unfolding remove_completed
    remove_completed-Holds = bind-Holds F I _ _ (remove_if_present-Holds F I _ all.output) (λ _.
        bind-Holds F I _ _ (remove_if_present-Holds F I _ all.trace)
          (λ _. remove_if_present-Holds F I _ all.metadata))

    remove_stale_live-Holds : Holds F I (remove_stale_live host r found)
    unfolding remove_stale_live
    remove_stale_live-Holds = bind-Holds F I _ _ (remove_owned-Holds F I _ all.socket _ _ _) (λ _.
        bind-Holds F I _ _ (remove_owned-Holds F I _ all.lock _ _ _) (λ _.
          bind-Holds F I _ _ (remove_owned-Holds F I _ all.trace _ _ _)
            (λ _. remove_owned-Holds F I _ all.metadata _ _ _)))

    replace_stale-Holds : Holds F I (replace_stale host r session found)
    unfolding replace_stale
    replace_stale-Holds =
        attempt-Holds F I _ _ _ connect-Holds (λ _. fail-Holds F I _) (λ _. remove_stale_live-Holds)

    replace_recorded-Holds :
        (m : SessionMetadata) → Holds F I (replace_recorded host r session found m)
    unfolding replace_recorded
    replace_recorded-Holds (completed _) = fail-Holds F I _
    replace_recorded-Holds (live _) = replace_stale-Holds

    pub make_room-Holds :
        (m : Option SessionMetadata) → Holds F I (make_room host r session found m)
    unfolding make_room
    make_room-Holds (some m) = bind-Holds F I _ _ (lift-Holds F I host.now_seconds) (λ now.
        if-Holds F I (is_expired m now) _ _ remove_completed-Holds (replace_recorded-Holds m))
    make_room-Holds none =
        bind-Holds F I _ _ (path_entry_exists-Holds F I found.socket) (λ has_socket.
          bind-Holds F I _ _
            (if-Holds F I has_socket _ _ (pure-Holds F I true)
              (path_entry_exists-Holds F I found.lock))
            (λ taken. if-Holds F I taken _ _ replace_stale-Holds (pure-Holds F I tt)))

    take_lock-Holds : Holds F I (take_lock host r found)
    unfolding take_lock
    take_lock-Holds =
        attempt-Holds F I _ _ _ (create_file-Holds F I _ all.lock _ _) (pure-Holds F I) (λ e.
          bind-Holds F I _ _ (ignore-Holds F I _ (remove_file-Holds F I _ all.socket))
            (λ _. fail-Holds F I e))

    secure_socket-Holds : Holds F I (secure_socket host r found)
    unfolding secure_socket
    secure_socket-Holds = bind-Holds F I _ _ (set_permissions-Holds F I _ all.socket _) (λ _.
        bind-Holds F I _ _ (passes-Holds F I)
          (λ _. bind-Holds F I _ _ take_lock-Holds (λ _. pure-Holds F I found)))

  pub bind_session-Holds :
      SurvivesAll F I (session_paths r session) → Holds F I (bind_session host r session)
  unfolding bind_session
  bind_session-Holds all = paths-Holds _ (
      bind-Holds F I _ _ read_metadata-Holds (λ m.
        bind-Holds F I _ _ (make_room-Holds _ all m) (λ _.
          attempt-Holds F I _ _ _ (bind_socket-Holds F I _ all.socket _ _)
            (λ _. secure_socket-Holds _ all) (λ e. fail-Holds F I _))))
