-- ===== src/Runner/Stopping/Patience.antt =====
-- src/runner.rs, `stop_child`: who is killed.
use mathlib.Core.Path.{subst}
use afk_cli.Prelude.{
  ◌≡◌, refl, ap, sym, ◌∙◌, List, [], ◌∷◌, Bool, true, false, Option, none, some, ℕ, All, ok, err,
  IoResult, Result-cases, inl, inr, arith,
}
use afk_cli.Runner.State.{ExitStatus}
use afk_cli.Runner.Stopping.{
  Signal, terminate, kill, ChildHost, force_child, await_child, ask_child, stop_child,
}

abbrev pub has_kill : List Signal → Bool
has_kill [] = false
has_kill (kill ∷ signals) = true
has_kill (terminate ∷ signals) = has_kill signals

-- The child was found running.
abbrev pub IsAlive : IoResult (Option ExitStatus) → Type 0
IsAlive answer = answer ≡ ok none

-- A child that ran at the start, was asked to end, and still ran at every look and at the last.
pub record WasPatient (host : ChildHost) (signals : List Signal) : Type 0 where
  pub alive : IsAlive host.try_wait
  pub asked : host.kill_term ≡ ok tt
  pub waited : All IsAlive host.polls
  pub still_alive : IsAlive host.last_try_wait
  pub order : signals ≡ terminate ∷ kill ∷ []

record Forced (host : ChildHost) (polls : List (IoResult (Option ExitStatus)))
    (signals : List Signal) : Type 0 where
  waited : All IsAlive polls
  still_alive : IsAlive host.last_try_wait
  order : signals ≡ kill ∷ []

force_child-kill :
    (host : ChildHost) (found : Option ExitStatus)
    → has_kill (force_child host found).1 ≡ true
    → (found ≡ none) × ((force_child host found).1 ≡ kill ∷ [])
unfolding force_child
force_child-kill host (some status) h = ground (arith, h)
force_child-kill host none h = elim (Result-cases host.kill_kill) [
  | inl (u, e) ↦ (refl, rw (e, force_child) refl)
  | inr (error, e) ↦ ground (arith, rw (e, force_child) at h)
]

await_child-force :
    (host : ChildHost) (found : Option ExitStatus)
    → host.last_try_wait ≡ ok found
    → (await_child host []).1 ≡ (force_child host found).1
unfolding await_child force_child
await_child-force host found e = rw e refl

ask_child-await :
    (host : ChildHost) (pid : ℕ) (u : Unit {0})
    → host.pid ≡ ok pid
    → host.kill_term ≡ ok u
    → (ask_child host none).1 ≡ terminate ∷ (await_child host host.polls).1
unfolding ask_child await_child force_child
ask_child-await host pid u ep et = rw (ep, et) refl

stop_child-ask :
    (host : ChildHost) (found : Option ExitStatus)
    → host.try_wait ≡ ok found
    → (stop_child host).1 ≡ (ask_child host found).1
unfolding stop_child ask_child await_child force_child
stop_child-ask host found e = rw e refl

await_child-Forced :
    (host : ChildHost) (polls : List (IoResult (Option ExitStatus)))
    → has_kill (await_child host polls).1 ≡ true
    → Forced host polls (await_child host polls).1
unfolding await_child
await_child-Forced host [] h = elim (Result-cases host.last_try_wait) [
  | inr (error, e) ↦ ground (arith, rw (e, await_child) at h)
  | inl (found, e) ↦
      let (gone, order) = force_child-kill host found (rw (e, await_child) at h) in
      record {
        waited = tt;
        still_alive = e ∙ ap ok gone;
        order = await_child-force host found e ∙ order;
      }
]
await_child-Forced host (err e ∷ polls) h = ground (arith, h)
await_child-Forced host (ok (some status) ∷ polls) h = ground (arith, h)
await_child-Forced host (ok none ∷ polls) h =
    let f = await_child-Forced host polls h in
    record { waited = (refl, f.waited); still_alive = f.still_alive; order = f.order }

ask_child-WasPatient :
    (host : ChildHost) (found : Option ExitStatus)
    → host.try_wait ≡ ok found
    → has_kill (ask_child host found).1 ≡ true
    → WasPatient host (ask_child host found).1
unfolding ask_child
ask_child-WasPatient host (some status) e h = ground (arith, h)
ask_child-WasPatient host none e h = elim (Result-cases host.pid) [
  | inr (error, ep) ↦ ground (arith, rw (ep, ask_child) at h)
  | inl (pid, ep) ↦ elim (Result-cases host.kill_term) [
    | inr (error, et) ↦ ground (arith, rw (ep, ask_child, et, ask_child) at h)
    | inl (u, et) ↦
        let f = await_child-Forced host host.polls (rw (ep, ask_child, et, ask_child) at h) in
        (record {
          alive = e;
          asked = et;
          waited = f.waited;
          still_alive = f.still_alive;
          order = ask_child-await host pid u ep et ∙ ap (λ l. terminate ∷ l) f.order;
        })
  ]
]

-- A child is killed only if it ran when the stop began, had been asked to end, and still ran each time
-- that it was looked at in the period of grace and once more behind it.
pub stop_child-WasPatient :
    (host : ChildHost) → has_kill (stop_child host).1 ≡ true → WasPatient host (stop_child host).1
unfolding stop_child
stop_child-WasPatient host h = elim (Result-cases host.try_wait) [
  | inr (error, e) ↦ ground (arith, rw (e, stop_child) at h)
  | inl (found, e) ↦
      subst (WasPatient host) (sym (stop_child-ask host found e))
        (ask_child-WasPatient host found e (rw (e, stop_child) at h))
]
