-- ===== src/Gateway/Supervisor/Ended.antt =====
-- gateway/supervisor.py: how a stop ends, and what the next calls see then.
use gmail_b1_gateway.Prelude.{
  ℕ, String, Bool, true, false, Option, none, some, ℤ, ◌≡◌, refl, inl, inr, ◌⊎◌, arith, Bool-cases,
}
use gmail_b1_gateway.Errors.{Result, ok, err, escaped}
use gmail_b1_gateway.Gateway.Supervisor.{
  terminate, kill, Os, Config, Supervisor, Library, Start, Stop, running, is_running, signal,
  reuse_or_summon, start, health, unsupervised, stop_child, stop,
}
use gmail_b1_gateway.Gateway.Supervisor.Kept.{running-without_self}

module _ (lib : Library) (c : Config) (tcp_open : String → ℤ → Bool) where
  -- Nothing is supervised, and a further stop does nothing.
  pub record IsIdle (s : Supervisor) : Type 0 where
    pub unhealthy :
        health tcp_open c s ≡ record { running = false; listening = false; pid = none; port = none }
    pub again : (m : Stop) → stop m s ≡ (ok tt, s)

  -- The child still runs and is still supervised: it is reported, a start returns it, and a stop
  -- whose kill ends it returns.
  pub record IsStuck (s s' : Supervisor) : Type 0 where
    pub same : health tcp_open c s' ≡ health tcp_open c s
    pub up : is_running s'.proc s'.os ≡ true
    pub reused :
        (m : Start) (p : ℕ)
        → s.proc ≡ some p
        → start lib c m s' ≡ (ok (record { pid = p; port = s.port; bearer = s.bearer }), s')
    pub retry : (m : Stop) → m.kill_ends ≡ true → (stop m s').0 ≡ ok tt

  abbrev pub StopTold : Stop → Supervisor → Result (Unit {0}) × Supervisor → Type 0
  StopTold m s (r, s') =
      ((r ≡ ok tt) × (is_running s.proc s'.os ≡ false) × IsIdle s')
      ⊎ ((r ≡ err escaped) × (m.terminate_ends ≡ false) × (m.kill_ends ≡ false) × IsStuck s s')

  unsupervised-IsIdle : (os : Os) → IsIdle (unsupervised os)
  unfolding health stop
  unsupervised-IsIdle os = record { unhealthy = refl; again = λ m. refl }

  start_running :
      (m : Start) (p : ℕ) (proc : Option ℕ) (s : Supervisor)
      → proc ≡ some p
      → running p s.os.alive ≡ true
      → reuse_or_summon lib c m proc s
        ≡ (ok (record { pid = p; port = s.port; bearer = s.bearer }), s)
  start_running m p proc s at up = rw at (rw up refl)

  stop_kills :
      (m : Stop) (p : ℕ) (proc : Option ℕ) (s : Supervisor)
      → proc ≡ some p
      → m.kill_ends ≡ true
      → (stop_child m proc s).0 ≡ ok tt
  stop_kills m p proc s at ends = rw at (ground (arith, ends))

  -- Two signals that the child outlives.
  abbrev outlives : ℕ → Supervisor → Supervisor
  outlives p s = record s { os = signal (kill p) false p (signal (terminate p) false p s.os) }

  outlives-IsStuck :
      (p : ℕ) (s : Supervisor)
      → s.proc ≡ some p
      → running p s.os.alive ≡ true
      → IsStuck s (outlives p s)
  unfolding health start stop signal
  outlives-IsStuck p s at up = record {
    same = rw at refl;
    up = rw at up;
    reused = λ m q e. start_running m q s.proc (outlives p s) e (ground (arith, at, e, up));
    retry = λ m ends. stop_kills m p s.proc (outlives p s) at ends;
  }

  stop_cases :
      (m : Stop) (proc : Option ℕ) (s : Supervisor)
      → s.proc ≡ proc
      → StopTold m s (stop_child m proc s)
  unfolding signal
  stop_cases m none s at = inl (refl, rw at refl, unsupervised-IsIdle s.os)
  stop_cases m (some p) s at = elim (Bool-cases (running p s.os.alive)) [
    | inr late ↦ rw late (inl (refl, rw at late, unsupervised-IsIdle s.os))
    | inl up ↦ rw up (elim (Bool-cases m.terminate_ends) [
      | inl gone ↦
          rw gone (inl (refl, rw at (running-without_self p s.os.alive), unsupervised-IsIdle _))
      | inr stays ↦ rw stays (elim (Bool-cases m.kill_ends) [
        | inl gone ↦
            rw gone (inl (refl, rw at (running-without_self p s.os.alive), unsupervised-IsIdle _))
        | inr stays' ↦ rw stays' (inr (refl, refl, refl, outlives-IsStuck p s at up))
      ])
    ])
  ]

  -- A stop returns, and then its child does not run, nothing is supervised or reported, and a further
  -- stop does nothing; or it raises, which it does only where the child outlives both signals, and then the
  -- supervisor still reports that child, a start returns it with its port and bearer, and a later stop whose kill ends it
  -- returns.
  pub stop_told : (m : Stop) (s : Supervisor) → StopTold m s (stop m s)
  unfolding stop
  stop_told m s = stop_cases m s.proc s refl
