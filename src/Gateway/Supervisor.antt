-- ===== src/Gateway/Supervisor.antt =====
-- gateway/supervisor.py: the supervisor that starts, probes and stops the gateway's process. The process
-- table is what the supervisor can see of it; a child is named by its pid, which stands for its handle.
pub mod Kept
pub mod OneChild
pub mod Ended
use gmail_b1_gateway.Prelude.{
  ℕ, String, Bool, true, false, not, Option, none, some, is_some, List, [], ◌∷◌, ◌++◌, ℤ, beq, ◌==◌,
  ◌&&◌, ◌||◌, if◌then◌else◌,
}
use gmail_b1_gateway.Errors.{Result, ok, err, escaped, supervisor_error, Action}

-- The argument vector and the bearer in the environment of a spawned child.
pub record Spawn : Type 0 where
  pub argv : List String
  pub env_bearer : String

-- What the supervisor does to processes.
pub data Call : Type 0 where
  popen : Spawn → ℕ → Call
  terminate kill : ℕ → Call

-- The children that run, and the calls so far.
pub record Os : Type 0 where
  pub alive : List ℕ
  pub calls : List Call

-- `GatewaySupervisor.__init__`'s configuration, and its mutable fields.
pub record Config : Type 0 where
  pub data_root : String
  pub host : String
  pub python : String
  pub message_id_domain : Option String

pub record Supervisor : Type 0 where
  pub proc : Option ℕ
  pub port : Option ℤ
  pub bearer : Option String
  pub os : Os

pub record Descriptor : Type 0 where
  pub pid : ℕ
  pub port : Option ℤ
  pub bearer : Option String

pub record Health : Type 0 where
  pub running : Bool
  pub listening : Bool
  pub pid : Option ℕ
  pub port : Option ℤ

-- `int(json.loads(line)["port"])`: a port, one of the three exceptions that are caught, or another one.
pub data ReadyPort : Type 0 where
  malformed uncaught : ReadyPort
  ready : ℤ → ReadyPort

-- `str.strip` and the reading of the ready line.
pub record Library : Type 0 where
  pub strip : String → String
  pub ready_port : String → ReadyPort

-- What a start meets: the minted bearer, the new child (`none` is an `OSError`), the line it prints in
-- time (`none` is a timeout, the empty one its end), whether it has ended by then, and whether a kill ends it
-- within its wait.
pub record Start : Type 0 where
  pub bearer : String
  pub child : Option ℕ
  pub ended : Bool
  pub line : Option String
  pub kill_ends : Bool

-- Whether each of the two waits of a stop sees the child end.
pub record Stop : Type 0 where
  pub terminate_ends : Bool
  pub kill_ends : Bool

abbrev pub running : ℕ → List ℕ → Bool
running p [] = false
running p (q ∷ alive) = beq q p || running p alive

abbrev pub without : ℕ → List ℕ → List ℕ
without p [] = []
without p (q ∷ alive) = if beq q p then without p alive else q ∷ without p alive

-- `proc is not None and proc.poll() is None`
abbrev pub is_running : Option ℕ → Os → Bool
is_running none os = false
is_running (some p) os = running p os.alive

unfoldable pub idle : Supervisor
idle = record { proc = none; port = none; bearer = none; os = record { alive = []; calls = [] } }

abbrev pub domain_args : Option String → List String
domain_args none = []
domain_args (some domain) = if domain == "" then [] else "--message-id-domain" ∷ domain ∷ []

abbrev pub argv_of : Config → List String
argv_of c =
    c.python
    ∷ "-m"
    ∷ "gateway.entrypoint"
    ∷ "--data-root"
    ∷ c.data_root
    ∷ "--host"
    ∷ c.host
    ∷ domain_args c.message_id_domain

-- A signal to a child, which ends it or not.
unfoldable pub signal : Call → Bool → ℕ → Os → Os
signal call ends p os = record {
  alive = if ends then without p os.alive else os.alive;
  calls = os.calls ++ call ∷ [];
}

-- `_kill_quietly`
unfoldable pub kill_quietly : Bool → ℕ → Os → Os
unfolding signal
kill_quietly ends p os = if running p os.alive then signal (kill p) ends p os else os

abbrev pub spawned : Config → String → ℕ → Os → Os
spawned c bearer p os = record {
  alive = p ∷ os.alive;
  calls = os.calls ++ popen (record { argv = argv_of c; env_bearer = bearer }) p ∷ [];
}

-- The child when its line was read.
abbrev pub outlived : Bool → ℕ → Os → Os
outlived ended p os = if ended then record os { alive = without p os.alive } else os

module _ (lib : Library) where
  -- `_read_ready_line`
  unfoldable pub read_ready_line : Option String → Option String
  read_ready_line none = none
  read_ready_line (some line) = if line == "" then none else some (lib.strip line)

  -- `_await_ready`, at what the line holds.
  abbrev pub settle_port : Bool → ℕ → ReadyPort → Action Os ℤ
  settle_port ends p (ready port) os = (ok port, os)
  settle_port ends p malformed os = (err supervisor_error, kill_quietly ends p os)
  settle_port ends p uncaught os = (err escaped, os)

  abbrev pub await_line : Bool → ℕ → Option String → Action Os ℤ
  await_line ends p none os = (err supervisor_error, kill_quietly ends p os)
  await_line ends p (some line) os = settle_port ends p (lib.ready_port line) os

  unfoldable pub await_ready : Start → ℕ → Action Os ℤ
  unfolding read_ready_line kill_quietly
  await_ready m p os = await_line m.kill_ends p (read_ready_line m.line) os

  module _ (c : Config) where
    -- What `start` keeps of a child that reported its port, or of one that did not.
    abbrev pub keep : Start → ℕ → Supervisor → Result ℤ × Os → Result Descriptor × Supervisor
    keep m p s (ok port, os) = (
      ok (record { pid = p; port = some port; bearer = some m.bearer }),
      record { proc = some p; port = some port; bearer = some m.bearer; os = os },
    )
    keep m p s (err e, os) = (err e, record s { os = os })

    abbrev pub summon : Start → Option ℕ → Action Supervisor Descriptor
    summon m none s = (err escaped, s)
    summon m (some p) s =
        keep m p s (await_ready m p (outlived m.ended p (spawned c m.bearer p s.os)))

    -- `_descriptor` of a running child, or a new one.
    abbrev pub reuse_or_summon : Start → Option ℕ → Action Supervisor Descriptor
    reuse_or_summon m none s = summon m m.child s
    reuse_or_summon m (some p) s =
        if running p s.os.alive
        then (ok (record { pid = p; port = s.port; bearer = s.bearer }), s)
        else summon m m.child s

    unfoldable pub start : Start → Action Supervisor Descriptor
    unfolding await_ready
    start m s = reuse_or_summon m s.proc s

-- `health`, where the probe says whether the port accepts a connection.
unfoldable pub health : (String → ℤ → Bool) → Config → Supervisor → Health
health tcp_open c s = record {
  running = is_running s.proc s.os;
  listening =
      is_running s.proc s.os && elim s.port [ some port ↦ tcp_open c.host port | none ↦ false ];
  pid = s.proc;
  port = s.port;
}

-- `self._proc = self._port = self._bearer = None`
abbrev pub unsupervised : Os → Supervisor
unsupervised os = record { proc = none; port = none; bearer = none; os = os }

abbrev pub stop_running : Stop → ℕ → Action Supervisor (Unit {0})
stop_running m p s =
    let asked = signal (terminate p) m.terminate_ends p s.os in
    if m.terminate_ends
    then (ok tt, unsupervised asked)
    else let killed = signal (kill p) m.kill_ends p asked in
      if m.kill_ends then (ok tt, unsupervised killed) else (err escaped, record s { os = killed })

abbrev pub stop_child : Stop → Option ℕ → Action Supervisor (Unit {0})
stop_child m none s = (ok tt, unsupervised s.os)
stop_child m (some p) s =
    if running p s.os.alive then stop_running m p s else (ok tt, unsupervised s.os)

unfoldable pub stop : Stop → Action Supervisor (Unit {0})
unfolding signal
stop m s = stop_child m s.proc s

-- A call, or a child that ends on its own.
pub data Event : Type 0 where
  starts : Start → Event
  stops : Stop → Event
  exits : ℕ → Event

module _ (lib : Library) (c : Config) where
  unfoldable pub happen : Event → Supervisor → Supervisor
  unfolding start stop
  happen (starts m) s = (start lib c m s).1
  happen (stops m) s = (stop m s).1
  happen (exits p) s = record s { os = record (s.os) { alive = without p s.os.alive } }

  unfoldable pub happen_all : List Event → Supervisor → Supervisor
  happen_all [] s = s
  happen_all (e ∷ events) s = happen_all events (happen e s)
