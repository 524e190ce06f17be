-- ===== src/Cli/Sound.antt =====
-- src/cli.rs: what an accepted command line says.
use afk_cli.Prelude.{
  ℕ, ◌≡◌, refl, ap, sym, ◌∙◌, List, [], ◌∷◌, true, bytes_eq, bytes_eq→eq, codes, is_empty, ok, err,
  >>=-eq-ok, arith, inl, inr, ◌⊎◌, ◌&&◌, ◌||◌, if◌then◌else◌, Bool-cases, ok_inj, ok_not_err,
}
use afk_cli.Identity.{SessionId, IsSessionId, display}
use afk_cli.Identity.RoundTrip.{display-parse_bytes}
use afk_cli.Cli.{
  Command, help, version, stop, hidden_runner, unsupported_command, validate_command,
  parse_session_id, parse_session_command, parse_sessions, parse_hidden_child, parse_remaining,
  split_trace, parse_session, parse,
}
use afk_cli.Cli.Accepts.{
  IsBounded, IsBounded-validate_command, separated, flagged, arguments, IsCommand,
}

-- The short options are the only other spelling.
abbrev pub Spells : List (List ℕ) → Command → Type 0
Spells args c =
    (args ≡ arguments c)
    ⊎ ((args ≡ codes "-h" ∷ []) × (c ≡ help))
    ⊎ ((args ≡ codes "-V" ∷ []) × (c ≡ version))

-- What is accepted: a command within the bounds, as it is written.
pub record Accepted (args : List (List ℕ)) (c : Command) : Type 0 where
  pub valid : IsCommand c
  pub spelled : Spells args c

parse_session_id-inv :
    (value : List ℕ) (id : SessionId)
    → parse_session_id value ≡ ok id
    → IsSessionId id × (display id ≡ value)
unfolding parse_session_id
parse_session_id-inv value id e = display-parse_bytes value id (ground arith)

parse_remaining-inv :
    (rest command : List (List ℕ))
    → parse_remaining rest ≡ ok command
    → IsBounded command × (separated command ≡ rest)
unfolding parse_remaining
parse_remaining-inv [] command e = rw (sym (ok_inj e)) ((omega arith, omega arith), refl)
parse_remaining-inv (separator ∷ []) command e = ground arith
parse_remaining-inv (separator ∷ first ∷ rest) command e =
    elim (Bool-cases (bytes_eq separator (codes "--"))) [
      | inl dashes ↦
          let (u, bounded, same) = >>=-eq-ok (validate_command (first ∷ rest)) _ (rw dashes at e) in
          rw (sym (ok_inj same)) (
            IsBounded-validate_command (first ∷ rest) u bounded,
            ap (λ l. l ∷ first ∷ rest) (sym (bytes_eq→eq separator (codes "--") dashes)),
          )
      | inr other ↦ ground (arith, rw other at e)
    ]

split_trace-inv : (rest : List (List ℕ)) → flagged (split_trace rest).0 (split_trace rest).1 ≡ rest
split_trace-inv [] = refl
split_trace-inv (option ∷ rest) = elim (Bool-cases (bytes_eq option (codes "--trace"))) [
  | inl flag ↦ rw flag (ap (λ l. l ∷ rest) (sym (bytes_eq→eq option (codes "--trace") flag)))
  | inr other ↦ rw other refl
]

-- Behind its first word, a command is its arguments.
record Parsed (word : List ℕ) (rest : List (List ℕ)) (c : Command) : Type 0 where
  valid : IsCommand c
  written : word ∷ rest ≡ arguments c

parse_session-inv :
    (rest : List (List ℕ)) (c : Command)
    → parse_session rest ≡ ok c
    → Parsed (codes "session") rest c
unfolding parse_session
parse_session-inv [] c e = ground arith
parse_session-inv (value ∷ rest) c e =
    let (id, ei, e1) = >>=-eq-ok (parse_session_id value) _ e in
    let (command, ec, e2) = >>=-eq-ok (parse_remaining (split_trace rest).1) _ e1 in
    let (hi, di) = parse_session_id-inv value id ei in
    let (hc, dc) = parse_remaining-inv (split_trace rest).1 command ec in
    rw (sym (ok_inj e2)) (record {
      valid = (hi, hc);
      written = rw (di, dc) (ap (λ l. codes "session" ∷ value ∷ l) (sym (split_trace-inv rest)));
    })

parse_sessions-inv :
    (rest : List (List ℕ)) (c : Command)
    → parse_sessions rest ≡ ok c
    → Parsed (codes "sessions") rest c
unfolding parse_sessions
parse_sessions-inv [] c e = rw (sym (ok_inj e)) (record { valid = tt; written = refl })
parse_sessions-inv (option ∷ []) c e = elim (Bool-cases (bytes_eq option (codes "--json"))) [
  | inl json ↦ rw (sym (ok_inj (rw json at e))) (record {
    valid = tt;
    written = ap (λ l. codes "sessions" ∷ l ∷ []) (bytes_eq→eq option (codes "--json") json);
  })
  | inr other ↦ ground (arith, rw other at e)
]
parse_sessions-inv (option ∷ more ∷ rest) c e = ground arith

parse_hidden_child-inv :
    (rest : List (List ℕ)) (c : Command)
    → parse_hidden_child rest ≡ ok c
    → Parsed (codes "__child") rest c
unfolding parse_hidden_child
parse_hidden_child-inv [] c e = ground arith
parse_hidden_child-inv (first ∷ rest) c e =
    let (u, bounded, same) = >>=-eq-ok (validate_command (first ∷ rest)) _ e in
    rw (sym (ok_inj same)) (record {
      valid = (refl, IsBounded-validate_command (first ∷ rest) u bounded);
      written = refl;
    })

parse_command-inv :
    (rest : List (List ℕ)) (command : SessionId → Command) (word : List ℕ) (c : Command)
    → ((id : SessionId) → IsSessionId id → IsCommand (command id))
    → ((id : SessionId) → arguments (command id) ≡ word ∷ display id ∷ [])
    → parse_session_command rest command ≡ ok c
    → Parsed word rest c
unfolding parse_session_command
parse_command-inv [] command word c hv hw e = ground arith
parse_command-inv (value ∷ []) command word c hv hw e =
    let (id, ei, e1) = >>=-eq-ok (parse_session_id value) _ e in
    let (hi, di) = parse_session_id-inv value id ei in
    rw (sym (ok_inj e1))
      (record { valid = hv id hi; written = sym (hw id ∙ ap (λ l. word ∷ l ∷ []) di) })
parse_command-inv (value ∷ more ∷ rest) command word c hv hw e = ground arith

accept :
    (first word : List ℕ) (rest : List (List ℕ)) (c : Command)
    → bytes_eq first word ≡ true
    → Parsed word rest c
    → Accepted (first ∷ rest) c
accept first word rest c e p = record {
  valid = p.valid;
  spelled = inl (ap (λ l. l ∷ rest) (bytes_eq→eq first word e) ∙ p.written);
}

-- An option that stands alone, in one of its two spellings.
option_alone :
    (first long short : List ℕ) (rest : List (List ℕ))
    → ((bytes_eq first long || bytes_eq first short) && is_empty rest) ≡ true
    → (first ∷ rest ≡ long ∷ []) ⊎ (first ∷ rest ≡ short ∷ [])
option_alone first long short [] h = elim (Bool-cases (bytes_eq first long)) [
  | inl e ↦ inl (ap (λ l. l ∷ []) (bytes_eq→eq first long e))
  | inr e ↦ inr (ap (λ l. l ∷ []) (bytes_eq→eq first short (ground arith)))
]
option_alone first long short (more ∷ rest) h = ground arith

help-Accepted :
    (args : List (List ℕ)) (c : Command)
    → (args ≡ codes "--help" ∷ []) ⊎ (args ≡ codes "-h" ∷ [])
    → help ≡ c
    → Accepted args c
help-Accepted args c (inl e) ec = rw (← ec) (record { valid = tt; spelled = inl e })
help-Accepted args c (inr e) ec = rw (← ec) (record { valid = tt; spelled = inr (inl (e, refl)) })

version-Accepted :
    (args : List (List ℕ)) (c : Command)
    → (args ≡ codes "--version" ∷ []) ⊎ (args ≡ codes "-V" ∷ [])
    → version ≡ c
    → Accepted args c
version-Accepted args c (inl e) ec = rw (← ec) (record { valid = tt; spelled = inl e })
version-Accepted args c (inr e) ec =
    rw (← ec) (record { valid = tt; spelled = inr (inr (e, refl)) })

-- The words behind the options.
words-Accepted :
    (first : List ℕ) (rest : List (List ℕ)) (c : Command)
    → (if bytes_eq first (codes "session")
        then parse_session rest
        else if bytes_eq first (codes "sessions")
        then parse_sessions rest
        else if bytes_eq first (codes "stop")
        then parse_session_command rest stop
        else if bytes_eq first (codes "__runner")
        then parse_session_command rest hidden_runner
        else if bytes_eq first (codes "__child")
        then parse_hidden_child rest
        else err unsupported_command)
      ≡ ok c
    → Accepted (first ∷ rest) c
words-Accepted first rest c e = elim (Bool-cases (bytes_eq first (codes "session"))) [
  | inl w ↦ accept first (codes "session") rest c w (parse_session-inv rest c (rw w at e))
  | inr n1 ↦ elim (Bool-cases (bytes_eq first (codes "sessions"))) [
    | inl w ↦ accept first (codes "sessions") rest c w (parse_sessions-inv rest c (rw (n1, w) at e))
    | inr n2 ↦ elim (Bool-cases (bytes_eq first (codes "stop"))) [
      | inl w ↦ accept first (codes "stop") rest c w (
          parse_command-inv rest stop (codes "stop") c (λ id h. h) (λ id. refl)
            (rw (n1, n2, w) at e))
      | inr n3 ↦ elim (Bool-cases (bytes_eq first (codes "__runner"))) [
        | inl w ↦ accept first (codes "__runner") rest c w (
            parse_command-inv rest hidden_runner (codes "__runner") c (λ id h. h) (λ id. refl)
              (rw (n1, n2, n3, w) at e))
        | inr n4 ↦ elim (Bool-cases (bytes_eq first (codes "__child"))) [
          | inl w ↦
              accept first (codes "__child") rest c w
                (parse_hidden_child-inv rest c (rw (n1, n2, n3, n4, w) at e))
          | inr n5 ↦ absurd (ok_not_err (sym (rw (n1, n2, n3, n4, n5) at e)))
        ]
      ]
    ]
  ]
]

-- Whatever is accepted is a command within the bounds, and the arguments are that command as it is
-- written, or the short form of an option.
pub parse-Accepted : (args : List (List ℕ)) (c : Command) → parse args ≡ ok c → Accepted args c
unfolding parse
parse-Accepted [] c e = ground arith
parse-Accepted (first ∷ rest) c e =
    elim (Bool-cases
      ((bytes_eq first (codes "--help") || bytes_eq first (codes "-h")) && is_empty rest)) [
        | inl h ↦
            help-Accepted _ c (option_alone first (codes "--help") (codes "-h") rest h)
              (ok_inj (rw h at e))
        | inr n1 ↦
            elim (Bool-cases (
              (bytes_eq first (codes "--version") || bytes_eq first (codes "-V"))
              && is_empty rest)) [
                | inl v ↦
                    version-Accepted _ c
                      (option_alone first (codes "--version") (codes "-V") rest v)
                      (ok_inj (rw (n1, v) at e))
                | inr n2 ↦ words-Accepted first rest c (rw (n1, n2) at e)
              ]
      ]
