-- ===== src/Registry/Listing/Names.antt =====
-- src/registry.rs: the files of different sessions have different names.
use afk_cli.Prelude.{
  ℕ, ◌≡◌, refl, ap, ◌∙◌, sym, List, ◌++◌, false, Option, some, All, arith, ok, err, Result, IoError,
  length, take, take-append_len, Bool-cases, inl, inr, codes, String, ok_inj, some_inj,
}
use afk_cli.Identity.{SessionId, IsSessionId, InvalidSessionId, parse_bytes, display}
use afk_cli.Identity.RoundTrip.{display-parse_bytes, parse_bytes-display}
use afk_cli.Registry.Disk.{FilePath, path_eq, Files, Entry, set_entry}
use afk_cli.Registry.Disk.Calls.{path_eq→eq, set_entry_other}
use afk_cli.Registry.Sessions.{Registry, session_path, session_paths}
use afk_cli.Registry.Listing.{ok_of, session_from_metadata_name}
use afk_cli.Registry.Binding.Leaves.{all_paths}
use afk_cli.Registry.Frame.Sessions.{SurvivesAll}

-- Names with the same length before their extensions.
pub session_path-apart :
    (r : Registry) (s t : SessionId) (e f : String)
    → length (display s) ≡ length (display t)
    → session_path r s e ≡ session_path r t f
    → display s ≡ display t
session_path-apart r s t e f len same =
    let names : display s ++ codes e ≡ display t ++ codes f =
      ap (λ (p : FilePath). p.file_name) same in
    sym (take-append_len (length (display s)) (display s) (codes e) refl)
    ∙ ap (take (length (display s))) names
    ∙ take-append_len (length (display s)) (display t) (codes f) len

pub session_path-distinct :
    (r : Registry) (s t : SessionId) (e f : String)
    → length (display s) ≡ length (display t)
    → (display s ≡ display t → ⊥)
    → path_eq (session_path r s e) (session_path r t f) ≡ false
session_path-distinct r s t e f len apart =
    elim (Bool-cases (path_eq (session_path r s e) (session_path r t f))) [
      | inr n ↦ n
      | inl y ↦ absurd (apart (session_path-apart r s t e f len (path_eq→eq _ _ y)))
    ]

-- The files of a session are as they were.
abbrev pub AreSame : Registry → SessionId → Files → Files → Type 0
AreSame r t files fs = All (λ p. fs p ≡ files p) (all_paths (session_paths r t))

module _ (F : IoError → Type 0) (r : Registry) (s t : SessionId) (files : Files)
    (len : length (display s) ≡ length (display t)) (apart : display s ≡ display t → ⊥) where
  set_other :
      (e : String)
      → (o : Option Entry) (fs : Files) → AreSame r t files fs
      → AreSame r t files (set_entry (session_path r s e) o fs)
  set_other e o fs h =
      let other = λ (f : String).
        set_entry_other (session_path r s e) (session_path r t f) o fs
          (session_path-distinct r s t e f len apart) in
      (
        other ".sock" ∙ h.0,
        (
          other ".json" ∙ h.1.0,
          (other ".lock" ∙ h.1.1.0, (other ".out" ∙ h.1.1.1.0, (other ".trace" ∙ h.1.1.1.1.0, tt))),
        ),
      )

  pub other-SurvivesAll : SurvivesAll F (AreSame r t files) (session_paths r s)
  other-SurvivesAll = record {
    socket = set_other ".sock";
    metadata = set_other ".json";
    lock = set_other ".lock";
    output = set_other ".out";
    trace = set_other ".trace";
  }

pub session_from_metadata_name-IsSessionId :
    (name : List ℕ) (s : SessionId) → session_from_metadata_name name ≡ some s → IsSessionId s
unfolding session_from_metadata_name
session_from_metadata_name-IsSessionId name s e =
    parsed (parse_bytes (take 32 name)) refl (ground arith)
  where
    parsed :
        (o : Result InvalidSessionId SessionId)
        → parse_bytes (take 32 name) ≡ o
        → ok_of o ≡ some s
        → IsSessionId s
    parsed (err x) p q = cc
    parsed (ok x) p q = rw (some_inj (sym q)) ((display-parse_bytes (take 32 name) x p).0)

pub display-inj : (s t : SessionId) → IsSessionId s → IsSessionId t → display s ≡ display t → s ≡ t
display-inj s t hs ht e =
    ok_inj (sym (parse_bytes-display s hs) ∙ ap parse_bytes e ∙ parse_bytes-display t ht)
