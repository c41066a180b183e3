-- ===== src/Conductor/Runner/Events.antt =====
-- The runner over time: rounds, new processes, and cancelled futures, in any order.
pub mod Invariant
pub mod Drains
use emucpu.Prelude.{ℕ, ◌==◌, Bool, true, false, if◌then◌else◌, List, [], ◌∷◌, ◌++◌, map}
use emucpu.Conductor.Process.{Process, cancel}
use emucpu.Conductor.Runner.{Runner, Settings, Machine, append, poll_round}

-- `shell` hands a new process to the runner, the event loop calls for a round, and a task that is
-- no longer wanted cancels its process's future.
pub data Event : Type 0 where
  shell : Process → Event
  round : Machine → Event
  give_up : ℕ → Event

-- The runner with the processes that have left it.
pub record System : Type 0 where
  pub runner : Runner
  pub left : List Process

-- The object of that identity is shared by the runner's lists and the one who cancels.
unfoldable pub cancel_if : ℕ → Process → Process
unfolding cancel
cancel_if n p = if p.ident == n then cancel p else p

unfoldable pub cancel_in : ℕ → Runner → Runner
unfolding cancel_if
cancel_in n r = record {
  pending = map (cancel_if n) r.pending;
  running = map (cancel_if n) r.running;
}

abbrev pub after_round : System → Runner × List Process → System
after_round s (r, done) = record { runner = r; left = done ++ s.left }

unfoldable pub advance : Settings → Event → System → System
unfolding append cancel_in poll_round
advance settings (shell p) s = record s { runner = append p s.runner }
advance settings (round m) s = after_round s (poll_round settings m s.runner)
advance settings (give_up n) s = record s { runner = cancel_in n s.runner }

-- The runner of a fresh program.
abbrev pub idle : System
idle = record { runner = record { pending = []; running = [] }; left = [] }

unfoldable pub run : Settings → List Event → System → System
unfolding advance
run settings [] s = s
run settings (e ∷ es) s = run settings es (advance settings e s)
