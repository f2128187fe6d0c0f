-- ===== src/Tests/Supervisor.antt =====
-- gateway/supervisor.py: a child that is started, reused, ends and is started again, and one that no signal ends.
use gmail_b1_gateway.Prelude.{
  ◌≡◌, refl, true, false, none, some, List, [], ◌∷◌, pos, ◌==◌, if◌then◌else◌,
}
use gmail_b1_gateway.Errors.{err, escaped}
use gmail_b1_gateway.Gateway.Supervisor.{
  Config, Supervisor, Library, Start, Stop, malformed, uncaught, ready, idle, running, start, stop,
  health, signal, await_ready, read_ready_line, Event, starts, exits, happen, happen_all,
}
use gmail_b1_gateway.Gateway.Supervisor.OneChild.{AreOrderly, one_child}
use gmail_b1_gateway.Gateway.Supervisor.Kept.{IsSupervising}
use gmail_b1_gateway.Gateway.Supervisor.Ended.{StopTold, stop_told}

abbrev lib : Library
lib = record {
  strip = λ s. s;
  ready_port = λ line. if line == "8000" then ready (pos 8000) else malformed;
}

abbrev config : Config
config = record {
  data_root = "/data";
  host = "127.0.0.1";
  python = "python3";
  message_id_domain = some "example.com";
}

abbrev first : Start
first = record {
  bearer = "b1";
  child = some 11;
  ended = false;
  line = some "8000";
  kill_ends = true;
}

abbrev garbled : Start
garbled = record {
  bearer = "b2";
  child = some 12;
  ended = false;
  line = some "Traceback";
  kill_ends = true;
}

abbrev third : Start
third = record {
  bearer = "b3";
  child = some 13;
  ended = false;
  line = some "8000";
  kill_ends = true;
}

-- The second start reuses the child; after it has exited one start fails and the next one succeeds.
abbrev day : List Event
day = starts first ∷ starts garbled ∷ exits 11 ∷ starts garbled ∷ starts third ∷ []

abbrev evening : Supervisor
unfolding happen_all
evening = happen_all lib config day idle

evening-health :
    health (λ host port. true) config evening
    ≡ record { running = true; listening = true; pid = some 13; port = some (pos 8000) }
unfolding health happen_all happen start await_ready read_ready_line idle
evening-health = refl

day-AreOrderly : AreOrderly lib config day
unfolding read_ready_line
day-AreOrderly = ((refl, refl), ((refl, refl), (tt, ((refl, refl), ((refl, refl), tt)))))

one_child_example : IsSupervising config (happen_all lib config day idle)
one_child_example = one_child lib config day day-AreOrderly

abbrev unkillable : Stop
unkillable = record { terminate_ends = false; kill_ends = false }

raises : (stop unkillable evening).0 ≡ err escaped
unfolding stop signal happen_all happen start await_ready read_ready_line idle
raises = refl

stop_told_example :
    StopTold lib config (λ host port. true) unkillable evening (stop unkillable evening)
stop_told_example = stop_told lib config (λ host port. true) unkillable evening

-- A port that is Infinity ends the start in an exception that leaves its child behind.
abbrev odd : Library
odd = record { strip = λ s. s; ready_port = λ line. uncaught }

abbrev left : Supervisor
left = (start odd config first idle).1

leaks : (left.proc ≡ none) × (running 11 left.os.alive ≡ true)
unfolding start await_ready read_ready_line idle
leaks = (refl, refl)
