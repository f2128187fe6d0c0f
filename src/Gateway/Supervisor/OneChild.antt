-- ===== src/Gateway/Supervisor/OneChild.antt =====
-- gateway/supervisor.py: no child outlives the supervisor's knowledge of it.
use gmail_b1_gateway.Prelude.{
  ℕ, String, Bool, true, false, Option, none, some, List, [], ◌∷◌, ◌≡◌, refl, sym, ap, inl, inr,
  arith, Bool-cases, subst,
}
use gmail_b1_gateway.Gateway.Supervisor.{
  Call, popen, terminate, kill, Os, Config, Supervisor, ReadyPort, malformed, uncaught, ready,
  Library, Start, Stop, running, without, is_running, idle, argv_of, signal, kill_quietly, spawned,
  outlived, read_ready_line, settle_port, await_line, await_ready, keep, summon, reuse_or_summon,
  start, unsupervised, stop_child, stop, Event, starts, stops, exits, happen, happen_all,
}
use gmail_b1_gateway.Gateway.Supervisor.Kept.{
  IsCalled, IsCalled-last, running-without, running-without_self, IsKept, AreSupervised,
  IsSupervising, IsKept-called, signal-IsSupervising, none_runs, IsOnly, spawned-IsOnly,
  killed_quiet, outlived-calls, kill_quietly-IsKept,
}

abbrev pub is_caught : ReadyPort → Bool
is_caught uncaught = false
is_caught _ = true

module _ (lib : Library) (c : Config) where
  -- The line of the ready port has a number, or one of the exceptions that are caught; and a child that is
  -- killed at the start ends in time.
  abbrev IsCaught : Option String → Type 0
  IsCaught none = Unit {0}
  IsCaught (some line) = is_caught (lib.ready_port line) ≡ true

  abbrev pub IsOrderly : Event → Type 0
  IsOrderly (starts m) = (m.kill_ends ≡ true) × IsCaught (read_ready_line lib m.line)
  IsOrderly (stops m) = Unit {0}
  IsOrderly (exits p) = Unit {0}

  abbrev pub AreOrderly : List Event → Type 0
  AreOrderly [] = Unit {0}
  AreOrderly (e ∷ events) = IsOrderly e × AreOrderly events

  refused-IsSupervising :
      (m : Start) (p : ℕ) (s : Supervisor) (os : Os)
      → IsOnly p os
      → IsKept c s.proc s.port s.bearer os.calls
      → IsSupervising c (record s { os = kill_quietly true p os })
  refused-IsSupervising m p s os only kept = record {
    children = λ q h. absurd (ground (arith, killed_quiet p os only q, h));
    kept = kill_quietly-IsKept c s true p os kept;
  }

  keep-IsSupervising :
      (m : Start) (p : ℕ) (s : Supervisor) (os : Os) (line : Option String)
      → IsCaught line
      → IsOnly p os
      → IsKept c s.proc s.port s.bearer os.calls
      → IsCalled (popen (record { argv = argv_of c; env_bearer = m.bearer }) p) os.calls
      → IsSupervising c (keep lib c m p s (await_line lib true p line os)).1
  keep-IsSupervising m p s os none caught only kept born = refused-IsSupervising m p s os only kept
  keep-IsSupervising m p s os (some line) caught only kept born =
      port_cases (lib.ready_port line) refl
    where
      port_cases :
          (r : ReadyPort)
          → lib.ready_port line ≡ r
          → IsSupervising c (keep lib c m p s (settle_port lib true p r os)).1
      port_cases malformed e = refused-IsSupervising m p s os only kept
      port_cases uncaught e = absurd (ground (arith, caught, e))
      port_cases (ready n) e = record { children = λ q h. ap some (sym (only q h)); kept = born }

  summon-IsSupervising :
      (m : Start) (child : Option ℕ) (s : Supervisor)
      → IsOrderly (starts m)
      → IsSupervising c s
      → is_running s.proc s.os ≡ false
      → IsSupervising c (summon lib c m child s).1
  unfolding await_ready
  summon-IsSupervising m none s h good late = good
  summon-IsSupervising m (some p) s h good late =
      let quiet = none_runs s good.children late in
      let os = outlived m.ended p (spawned c m.bearer p s.os) in
      let call = popen (record { argv = argv_of c; env_bearer = m.bearer }) p in
      let same = sym (outlived-calls m.ended p (spawned c m.bearer p s.os)) in
      rw h.0 (
        keep-IsSupervising m p s os (read_ready_line lib m.line) h.1
          (spawned-IsOnly c m.bearer p m.ended s.os quiet)
          (subst (λ x. IsKept c s.proc s.port s.bearer x) same
            (IsKept-called c s.proc s.port s.bearer s.os.calls call good.kept))
          (subst (λ x. IsCalled call x) same (IsCalled-last call s.os.calls)))

  start_cases :
      (m : Start) (proc : Option ℕ) (s : Supervisor)
      → s.proc ≡ proc
      → IsOrderly (starts m)
      → IsSupervising c s
      → IsSupervising c (reuse_or_summon lib c m proc s).1
  start_cases m none s at h good = summon-IsSupervising m m.child s h good (rw at refl)
  start_cases m (some p) s at h good = elim (Bool-cases (running p s.os.alive)) [
    | inl up ↦ rw up good
    | inr late ↦ rw late (summon-IsSupervising m m.child s h good (rw at late))
  ]

  unsupervised-IsSupervising :
      (os : Os) → ((q : ℕ) → running q os.alive ≡ false) → IsSupervising c (unsupervised os)
  unsupervised-IsSupervising os quiet = record {
    children = λ q h. absurd (ground (arith, quiet q, h));
    kept = tt;
  }

  ended_quiet :
      (p : ℕ) (call : Call) (s : Supervisor)
      → AreSupervised s
      → s.proc ≡ some p
      → (q : ℕ) → running q (signal call true p s.os).alive ≡ false
  unfolding signal
  ended_quiet p call s children at q = elim (Bool-cases (running q (without p s.os.alive))) [
    | inr h ↦ h
    | inl h ↦
        let same : q ≡ p = ground (arith, at, children q (running-without p q s.os.alive h)) in
        rw same (running-without_self p s.os.alive)
  ]

  stop_cases :
      (m : Stop) (proc : Option ℕ) (s : Supervisor)
      → s.proc ≡ proc
      → IsSupervising c s
      → IsSupervising c (stop_child m proc s).1
  stop_cases m none s at good =
      unsupervised-IsSupervising s.os (none_runs s good.children (rw at refl))
  stop_cases m (some p) s at good = elim (Bool-cases (running p s.os.alive)) [
    | inr late ↦ rw late (unsupervised-IsSupervising s.os (none_runs s good.children (rw at late)))
    | inl up ↦ rw up (elim (Bool-cases m.terminate_ends) [
      | inl gone ↦
          rw gone (unsupervised-IsSupervising _ (ended_quiet p (terminate p) s good.children at))
      | inr stays ↦ rw stays (
          let asked = signal-IsSupervising c (terminate p) false p s good in
          elim (Bool-cases m.kill_ends) [
            | inl gone ↦ rw gone (
                unsupervised-IsSupervising _ (
                  ended_quiet p (kill p) (record s { os = signal (terminate p) false p s.os })
                    asked.children at))
            | inr stays' ↦ rw stays' (
                signal-IsSupervising c (kill p) false p
                  (record s { os = signal (terminate p) false p s.os }) asked)
          ])
    ])
  ]

  happen-IsSupervising :
      (e : Event) (s : Supervisor)
      → IsOrderly e
      → IsSupervising c s
      → IsSupervising c (happen lib c e s)
  unfolding happen start stop
  happen-IsSupervising (starts m) s h good = start_cases m s.proc s refl h good
  happen-IsSupervising (stops m) s h good = stop_cases m s.proc s refl good
  happen-IsSupervising (exits p) s h good = record {
    children = λ q k. good.children q (running-without p q s.os.alive k);
    kept = good.kept;
  }

  happen_all-IsSupervising :
      (events : List Event) (s : Supervisor)
      → AreOrderly events
      → IsSupervising c s
      → IsSupervising c (happen_all lib c events s)
  unfolding happen_all
  happen_all-IsSupervising [] s h good = good
  happen_all-IsSupervising (e ∷ events) s h good =
      happen_all-IsSupervising events (happen lib c e s) h.1 (happen-IsSupervising e s h.0 good)

  -- Whatever is started, stopped, and ends on its own, in whatever order, only the supervised child runs, so
  -- there is never a second one; and the supervisor has either no child, port and bearer, or a child
  -- that it spawned itself with its own arguments and with the very bearer that it keeps in the child's environment. The conditions are
  -- on the starts alone: a kill ends its child in time, and a line that is no port is one of the malformed ones that `start` catches.
  pub one_child :
      (events : List Event) → AreOrderly events → IsSupervising c (happen_all lib c events idle)
  unfolding idle
  one_child events h =
      happen_all-IsSupervising events idle h
        (record { children = λ q k. absurd (ground (arith, k)); kept = tt })
