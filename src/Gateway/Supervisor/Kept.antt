-- ===== src/Gateway/Supervisor/Kept.antt =====
-- gateway/supervisor.py: what the supervisor knows of its child, and that signals and spawns keep it.
use gmail_b1_gateway.Prelude.{
  ℕ, String, Bool, true, false, Option, none, some, List, [], ◌∷◌, ◌++◌, ℤ, ◌≡◌, refl, inl, inr,
  ◌⊎◌, arith, Bool-cases,
}
use gmail_b1_gateway.Gateway.Supervisor.{
  Call, popen, kill, Os, Config, Supervisor, running, without, is_running, argv_of, signal,
  kill_quietly, spawned, outlived,
}

-- The call is among the calls.
abbrev pub IsCalled : Call → List Call → Type 0
IsCalled call [] = ⊥
IsCalled call (x ∷ calls) = (x ≡ call) ⊎ IsCalled call calls

IsCalled-first :
    (call x : Call) (calls : List Call) → IsCalled call calls → IsCalled call (calls ++ x ∷ [])
IsCalled-first call x [] h = absurd h
IsCalled-first call x (y ∷ calls) (inl e) = inl e
IsCalled-first call x (y ∷ calls) (inr h) = inr (IsCalled-first call x calls h)

pub IsCalled-last : (call : Call) (calls : List Call) → IsCalled call (calls ++ call ∷ [])
IsCalled-last call [] = inl refl
IsCalled-last call (x ∷ calls) = inr (IsCalled-last call calls)

pub running-without :
    (p q : ℕ) (alive : List ℕ) → running q (without p alive) ≡ true → running q alive ≡ true
running-without p q [] h = h
running-without p q (r ∷ alive) h = ground (arith, running-without p q alive)

pub running-without_self : (p : ℕ) (alive : List ℕ) → running p (without p alive) ≡ false
running-without_self p [] = refl
running-without_self p (r ∷ alive) = ground (arith, running-without_self p alive)

-- The fields of a supervisor: all unset, or a child with its port, which was spawned with the
-- bearer in its environment.
abbrev pub IsKept : Config → Option ℕ → Option ℤ → Option String → List Call → Type 0
IsKept c none none none calls = Unit {0}
IsKept c (some p) (some port) (some b) calls =
    IsCalled (popen (record { argv = argv_of c; env_bearer = b }) p) calls
IsKept c _ _ _ calls = ⊥

-- Every child that runs is the supervised one.
abbrev pub AreSupervised : Supervisor → Type 0
AreSupervised s = (p : ℕ) → running p s.os.alive ≡ true → s.proc ≡ some p

pub record IsSupervising (c : Config) (s : Supervisor) : Type 0 where
  pub children : AreSupervised s
  pub kept : IsKept c s.proc s.port s.bearer s.os.calls

pub IsKept-called :
    (c : Config) (proc : Option ℕ) (port : Option ℤ) (bearer : Option String) (calls : List Call)
    (x : Call)
    → IsKept c proc port bearer calls
    → IsKept c proc port bearer (calls ++ x ∷ [])
IsKept-called c none none none calls x h = tt
IsKept-called c (some p) (some n) (some b) calls x h =
    IsCalled-first (popen (record { argv = argv_of c; env_bearer = b }) p) x calls h
IsKept-called c none none (some b) calls x h = absurd h
IsKept-called c none (some n) none calls x h = absurd h
IsKept-called c none (some n) (some b) calls x h = absurd h
IsKept-called c (some p) none none calls x h = absurd h
IsKept-called c (some p) none (some b) calls x h = absurd h
IsKept-called c (some p) (some n) none calls x h = absurd h

pub signal-IsSupervising :
    (c : Config) (call : Call) (ends : Bool) (p : ℕ) (s : Supervisor)
    → IsSupervising c s
    → IsSupervising c (record s { os = signal call ends p s.os })
unfolding signal
signal-IsSupervising c call true p s good = record {
  children = λ q h. good.children q (running-without p q s.os.alive h);
  kept = IsKept-called c s.proc s.port s.bearer s.os.calls call good.kept;
}
signal-IsSupervising c call false p s good = record {
  children = good.children;
  kept = IsKept-called c s.proc s.port s.bearer s.os.calls call good.kept;
}

-- Where the supervised child does not run, none does.
pub none_runs :
    (s : Supervisor)
    → AreSupervised s
    → is_running s.proc s.os ≡ false
    → (q : ℕ) → running q s.os.alive ≡ false
none_runs s children late q = elim (Bool-cases (running q s.os.alive)) [
  | inr h ↦ h
  | inl h ↦ let at : running q s.os.alive ≡ false = rw (children q h) at late in at
]

-- Only that child may run.
abbrev pub IsOnly : ℕ → Os → Type 0
IsOnly p os = (q : ℕ) → running q os.alive ≡ true → q ≡ p

pub spawned-IsOnly :
    (c : Config) (b : String) (p : ℕ) (ended : Bool) (os : Os)
    → ((q : ℕ) → running q os.alive ≡ false)
    → IsOnly p (outlived ended p (spawned c b p os))
spawned-IsOnly c b p true os quiet q h =
    ground (arith, quiet q, running-without p q (p ∷ os.alive) h)
spawned-IsOnly c b p false os quiet q h = ground (arith, quiet q, h)

pub killed_quiet :
    (p : ℕ) (os : Os) → IsOnly p os → (q : ℕ) → running q (kill_quietly true p os).alive ≡ false
unfolding kill_quietly signal
killed_quiet p os only q = elim (Bool-cases (running p os.alive)) [
  | inr late ↦ rw late (elim (Bool-cases (running q os.alive)) [
    | inr h ↦ h
    | inl h ↦ let same = only q h in rw same late
  ])
  | inl up ↦ rw up (elim (Bool-cases (running q (without p os.alive))) [
    | inr h ↦ h
    | inl h ↦
        let same = only q (running-without p q os.alive h) in
        rw same (running-without_self p os.alive)
  ])
]

pub outlived-calls : (ended : Bool) (p : ℕ) (os : Os) → (outlived ended p os).calls ≡ os.calls
outlived-calls true p os = refl
outlived-calls false p os = refl

pub kill_quietly-IsKept :
    (c : Config) (s : Supervisor) (ends : Bool) (p : ℕ) (os : Os)
    → IsKept c s.proc s.port s.bearer os.calls
    → IsKept c s.proc s.port s.bearer (kill_quietly ends p os).calls
unfolding kill_quietly signal
kill_quietly-IsKept c s ends p os h = elim (Bool-cases (running p os.alive)) [
  | inr late ↦ rw late h
  | inl up ↦ rw up (IsKept-called c s.proc s.port s.bearer os.calls (kill p) h)
]
