-- ===== src/Registry/Listing/Sparing.antt =====
-- src/registry.rs, `cleanup_expired`: what it does not touch.
use afk_cli.Prelude.{
  ℕ, ◌≡◌, refl, ◌∙◌, sym, List, [], ◌∷◌, true, false, Option, none, some, All, ok, IoResult, take,
  bytes_eq, bytes_eq→eq, bytes_eq_refl, Bool-cases, inl, inr, ok_inj,
}
use afk_cli.Limits.{max_session_list_entries}
use afk_cli.Identity.{SessionId, IsSessionId, display}
use afk_cli.Identity.RoundTrip.{length-display}
use afk_cli.Prelude.Exec.{Exec}
use afk_cli.Prelude.Ensures.{
  Ensures, Ensures-bind, Ensures-lift, Ensures-map, Ensures-fact, Keeps-after,
}
use afk_cli.Registry.Disk.{Files, Disk, Fault}
use afk_cli.Registry.Disk.Calls.{disk, Faulty, Now}
use afk_cli.Registry.Metadata.{SessionMetadata, is_expired}
use afk_cli.Registry.Sessions.{Registry, RegistryHost, session_paths}
use afk_cli.Registry.Listing.{
  session_from_metadata_name, ReadDir, remove_if_expired, clean_session, clean_entries,
  cleanup_expired,
}
use afk_cli.Registry.Binding.{recorded_unique}
use afk_cli.Registry.Frame.{Holds, lift-Holds, pure-Holds, bind-Holds, if-Holds}
use afk_cli.Registry.Frame.Sessions.{remove_completed-Holds}
use afk_cli.Registry.Reading.{
  IsFault, Reading, Recorded, IsRecorded, given, read_metadata-Reads, paths-Reads,
}
use afk_cli.Registry.Listing.Names.{
  AreSame, other-SurvivesAll, session_from_metadata_name-IsSessionId, display-inj,
}

module _ (host : RegistryHost) (r : Registry) (t : SessionId) (files : Files) (now : ℕ)
    (m : SessionMetadata) (is_id : IsSessionId t) (recorded : IsRecorded files host r t m)
    (fresh : is_expired m now ≡ false) where
  abbrev Same : Files → Type 0
  Same = AreSame r t files

  abbrev Spares : {A : Type 0} → Exec Disk A → Type 0
  Spares n = Holds IsFault Same n

  -- The record of the session is still there.
  still-IsRecorded : (fs : Files) → Same fs → IsRecorded fs host r t m
  still-IsRecorded fs h = record {
    bytes = recorded.bytes;
    contents = record {
      entry = recorded.contents.entry;
      verified = (h.1.0 ∙ recorded.contents.verified.0, recorded.contents.verified.1);
      all = recorded.contents.all;
      small = recorded.contents.small;
    };
    decoded = recorded.decoded;
    own_name = recorded.own_name;
  }

  module _ (fs : Files) (same : Same fs) where
    here : (gs : Files) → gs ≡ fs → Same gs
    here gs e = rw e same

    -- Behind a read of the metadata of a session.
    remove_if_expired-Spares :
        (s : SessionId) (o : Option SessionMetadata)
        → IsSessionId s
        → Recorded fs host r s o
        → Spares (remove_if_expired host r now (session_paths r s) o)
    unfolding remove_if_expired
    remove_if_expired-Spares s none is_id' h = pure-Holds IsFault Same tt
    remove_if_expired-Spares s (some m') is_id' h =
        elim (Bool-cases (bytes_eq (display s) (display t))) [
          | inl y ↦
              let same_id : s ≡ t = display-inj s t is_id' is_id (bytes_eq→eq _ _ y) in
              let same_record : m' ≡ m =
                recorded_unique fs host r t m' m (rw same_id at h) (still-IsRecorded fs same) in
              rw (same_record, fresh) (pure-Holds IsFault Same tt)
          | inr n ↦
              if-Holds IsFault Same (is_expired m' now) _ _
                (remove_completed-Holds IsFault Same host r s (session_paths r s) (
                  other-SurvivesAll IsFault r s t files
                    (length-display s is_id' ∙ sym (length-display t is_id))
                    (λ e. absurd_eq s e n)))
                (pure-Holds IsFault Same tt)
        ]
      where
        absurd_eq :
            (s : SessionId) → display s ≡ display t → bytes_eq (display s) (display t) ≡ false → ⊥
        absurd_eq s e n =
            let y : bytes_eq (display s) (display t) ≡ true = rw e (bytes_eq_refl (display t)) in cc

    clean_session-at :
        (s : SessionId)
        → IsSessionId s
        → Ensures
            (Reading fs Same here (Unit {0}))
            (clean_session host r now (some s))
            (λ _. Now IsFault Same Same)
            (λ _. Now IsFault Same Same)
    unfolding clean_session
    clean_session-at s is_id' =
        Ensures-bind _ _
          (Ensures-map (λ d q. q) (λ a d q. q) (λ e d q. (here _ q.0.0, q.1, q.2))
            (paths-Reads fs Same here host r s))
          (λ found. given fs Same here (λ eq. rw eq (
            Ensures-bind _ _
              (Ensures-map (λ d q. q) (λ a d q. q) (λ e d q. (here _ q.0.0, q.1, q.2))
                (read_metadata-Reads fs Same here host r s))
              (λ o. given fs Same here (λ h.
                Ensures-map (λ d q. (here _ q.0.0, q.1, q.2)) (λ a d q. q) (λ e d q. q)
                  (remove_if_expired-Spares s o is_id' h))))))

  no_session : Spares (clean_session host r now none)
  unfolding clean_session
  no_session = pure-Holds IsFault Same tt

  clean_session-Spares :
      (o : Option SessionId)
      → ((s : SessionId) → o ≡ some s → IsSessionId s)
      → Spares (clean_session host r now o)
  clean_session-Spares none h = no_session
  clean_session-Spares (some s) h = record {
    at = λ d p. (clean_session-at d.files p.0 s (h s refl)).at d ((refl, tt), p.1, p.2);
  }

  clean_entries-Spares :
      (entries : List (IoResult (List ℕ))) → Spares (clean_entries host r now entries)
  unfolding clean_entries
  clean_entries-Spares [] = pure-Holds IsFault Same tt
  clean_entries-Spares (entry ∷ entries) =
      bind-Holds IsFault Same _ _ (lift-Holds IsFault Same entry) (λ name.
        bind-Holds IsFault Same _ _
          (clean_session-Spares (session_from_metadata_name name)
            (session_from_metadata_name-IsSessionId name))
          (λ _. clean_entries-Spares entries))

  cleanup_expired-Holds :
      (read_dir : ReadDir) → host.now_seconds ≡ ok now → Spares (cleanup_expired host r read_dir)
  unfolding cleanup_expired
  cleanup_expired-Holds read_dir clock =
      Ensures-bind {Q = λ now' d. (now' ≡ now) × Now IsFault Same Same d} _ _
        (Ensures-lift _ (λ now' d e q. (ok_inj (sym e ∙ clock), q)) (λ e d _ q. q))
        (λ now'. Ensures-fact (λ eq. rw eq (
          bind-Holds IsFault Same _ _ (lift-Holds IsFault Same read_dir)
            (λ entries. clean_entries-Spares (take max_session_list_entries entries)))))

-- A session whose record has not expired keeps all its files, unchanged and at every moment of a cleanup,
-- whatever else the directory holds: live, or ended less than a day ago. The system may fail its
-- calls, but not by saying that a file is missing.
pub cleanup_expired_spares :
    (host : RegistryHost) (r : Registry) (t : SessionId) (files : Files) (now : ℕ)
    (m : SessionMetadata) (read_dir : ReadDir) (faults : List Fault)
    → IsSessionId t
    → IsRecorded files host r t m
    → is_expired m now ≡ false
    → host.now_seconds ≡ ok now
    → All (Faulty IsFault) faults
    → let out = cleanup_expired host r read_dir (disk files faults) in
      AreSame r t files out.1.files × All (AreSame r t files) out.1.history
cleanup_expired_spares host r t files now m read_dir faults is_id recorded fresh clock coming =
    let kept =
      Keeps-after {s = disk files faults}
        (cleanup_expired-Holds host r t files now m is_id recorded fresh read_dir clock)
        ((refl, (refl, (refl, (refl, (refl, tt))))), tt, coming) in
    (kept.0, kept.1)
