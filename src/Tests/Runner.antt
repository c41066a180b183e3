-- ===== src/Tests/Runner.antt =====
-- The process runner: single rounds, and runs.
use emucpu.Prelude.{
  ℕ, ◌*◌, false, ◌==◌, if◌then◌else◌, List, [], ◌∷◌, ◌++◌, none, some, arith, refl,
}
use mathlib.Core.List.{Perm}
use emucpu.Prelude.Int.{pos}
use emucpu.Prelude.Text.{codes}
use emucpu.Conductor.Process.{Process, Observed}
use emucpu.Conductor.Runner.{gb, global_memory_buffer, Runner, Settings, Machine, poll_round}
use emucpu.Conductor.Runner.Conserve.{idents}
use emucpu.Conductor.Runner.Jobs.{jobs, Steps, poll_round-Steps}
use emucpu.Conductor.Runner.Events.{Event, shell, round, give_up, idle, run}
use emucpu.Conductor.Runner.Events.Invariant.{Inv, run-Inv, run-known}
use emucpu.Conductor.Runner.Events.Drains.{rounds, IsDone, rounds-IsDone}

abbrev job : ℕ → ℕ → Process
job n memory = record {
  ident = n;
  expected_memory = memory * gb;
  expected_time = 1000;
  timeout_ms = some 600000;
  kill_ = none;
  debug_slow_count = 0;
  max_memory = memory * gb;
  start_time = 0;
  cancelled = false;
  result = none;
  stdout = [];
  stderr = [];
}

abbrev runner : Runner
runner = record { pending = job 3 2 ∷ []; running = job 2 4 ∷ job 1 1 ∷ [] }

abbrev settings : Settings
settings = record { no_kill = false; max_mem = 0; max_running = 4 }

-- The process 1 has exited with code 0.
abbrev see : ℕ → Observed
see n = record {
  rss = gb;
  now = 5000;
  exit_code = if n == 1 then some (pos 0) else none;
  stdout = codes "ok";
  stderr = [];
}

abbrev machine : Machine
machine = record { global_free = 4 * gb; time = 5000; at_kill = see; at_drop = see }

poll_round-Steps_example : Steps (jobs (3 ∷ []) (2 ∷ 1 ∷ []) []) (
    jobs
      (idents (poll_round settings machine runner).0.pending)
      (idents (poll_round settings machine runner).0.running)
      (idents (poll_round settings machine runner).1 ++ []))
poll_round-Steps_example = poll_round-Steps settings machine runner []

abbrev events : List Event
events =
    shell (job 1 1)
    ∷ shell (job 2 4)
    ∷ round machine
    ∷ shell (job 3 2)
    ∷ give_up 2
    ∷ round machine
    ∷ []

run-Inv_example : Inv settings (run settings events idle)
run-Inv_example = run-Inv settings events (refl, (refl, (refl, tt)))

run-known_example :
    Perm
      (idents (run settings events idle).runner.pending
        ++ (idents (run settings events idle).runner.running
            ++ idents (run settings events idle).left))
      (1 ∷ 2 ∷ 3 ∷ [])
run-known_example = run-known settings events

abbrev exits : ℕ → Observed
exits n = record {
  rss = gb;
  now = 5000;
  exit_code = some (pos 20);
  stdout = codes "ok";
  stderr = [];
}

abbrev big_machine : Machine
big_machine = record { global_free = 16 * gb; time = 5000; at_kill = exits; at_drop = exits }

abbrev waiting : Runner
waiting = record { pending = job 3 2 ∷ job 4 4 ∷ []; running = [] }

abbrev big_machines : List Machine
big_machines = big_machine ∷ big_machine ∷ big_machine ∷ []

rounds-IsDone_example : IsDone (rounds settings big_machines waiting)
unfolding global_memory_buffer
rounds-IsDone_example =
    rounds-IsDone settings (10 * gb) refl (omega arith) (omega arith) big_machines waiting
      ((omega arith, λ n e. cc), ((omega arith, λ n e. cc), ((omega arith, λ n e. cc), tt)))
      (omega arith, (omega arith, tt)) (omega arith)
