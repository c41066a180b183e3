-- ===== src/Conductor/Runner.antt =====
-- `ProcessRunner`: the pending and the running processes, and one round of `poll`. Both lists are
-- kept with the end of the Python list in front, where the program pops and appends.
pub mod Conserve
pub mod Limits
pub mod Jobs
pub mod Events
use emucpu.Prelude.{
  ℕ, ◌+◌, ◌-◌, ◌*◌, ◌^◌, max, min, Bool, true, false, not, ◌&&◌, ltb, ◌==◌, if◌then◌else◌, List, [],
  ◌∷◌, ◌++◌, length,
}
use emucpu.Conductor.Process.{Process, Observed, start, kill_restart, poll}

abbrev pub gb : ℕ
gb = 1024 ^ 3

-- `GLOBAL_MEMORY_BUFFER`, and the least that a process is taken to need or to give back.
unfoldable pub global_memory_buffer : ℕ
global_memory_buffer = 5 * gb

unfoldable pub least_memory : ℕ
least_memory = 3 * gb

pub record Runner : Type 0 where
  pub pending : List Process
  pub running : List Process

-- The command line's `--no-kill` and `--max-mem`, and the number of cores less two.
pub record Settings : Type 0 where
  pub no_kill : Bool
  pub max_mem : ℕ
  pub max_running : ℕ

-- `append` inserts at index 0, so that processes are started in the order they came.
unfoldable pub append : Process → Runner → Runner
append proc r = record r { pending = r.pending ++ proc ∷ [] }

unfoldable pub children_used_mem : List Process → ℕ
children_used_mem [] = 0
children_used_mem (p ∷ running) = p.max_memory + children_used_mem running

-- `mem_avail`, with psutil's free memory as `global_free`.
unfoldable pub mem_avail : Settings → ℕ → Runner → ℕ
unfolding children_used_mem
mem_avail settings global_free r =
    if settings.max_mem == 0
    then global_free
    else min global_free (settings.max_mem - children_used_mem r.running)

-- A state of the two loops: the lists and `free`.
pub record Budget : Type 0 where
  pub waiting : List Process
  pub active : List Process
  pub free : ℕ

-- The first loop, on the running processes: recently started ones are killed while memory is
-- short, but the last.
unfoldable pub kill_recent : Settings → (ℕ → Observed) → List Process → List Process → ℕ → Budget
unfolding global_memory_buffer least_memory
kill_recent settings observe [] pending free = record {
  waiting = pending;
  active = [];
  free = free;
}
kill_recent settings observe (last ∷ []) pending free = record {
  waiting = pending;
  active = last ∷ [];
  free = free;
}
kill_recent settings observe (last ∷ p ∷ running) pending free =
    if not settings.no_kill && ltb free global_memory_buffer
    then kill_recent settings observe (p ∷ running)
        ((poll (observe last.ident) (kill_restart last)).0 ∷ pending)
        (free + max last.max_memory least_memory)
    else record { waiting = pending; active = last ∷ p ∷ running; free = free }

-- The second loop, on the pending processes: they are started while there is room.
unfoldable pub start_pending : Settings → ℕ → List Process → List Process → ℕ → Budget
unfolding global_memory_buffer least_memory
start_pending settings now [] running free = record { waiting = []; active = running; free = free }
start_pending settings now (last ∷ pending) running free =
    if ltb (length running) settings.max_running
      && ltb (last.expected_memory + global_memory_buffer) free
    then start_pending settings now pending (start now last ∷ running)
        (free - max last.expected_memory least_memory)
    else record { waiting = last ∷ pending; active = running; free = free }

-- The third loop: every running process is polled, and those that are done are dropped.
pub record Dropped : Type 0 where
  pub kept : List Process
  pub done : List Process

abbrev pub sort_out : Process → Bool → Dropped → Dropped
sort_out p true d = record d { done = p ∷ d.done }
sort_out p false d = record d { kept = p ∷ d.kept }

unfoldable pub drop_finished : (ℕ → Observed) → List Process → Dropped
drop_finished observe [] = record { kept = []; done = [] }
drop_finished observe (p ∷ running) =
    let (p', finished) = poll (observe p.ident) p in
    sort_out p' finished (drop_finished observe running)

-- What a round sees of the machine: the free memory, the time, and the processes when the first
-- and the third loop poll them.
pub record Machine : Type 0 where
  pub global_free : ℕ
  pub time : ℕ
  pub at_kill : ℕ → Observed
  pub at_drop : ℕ → Observed

-- `poll`: the runner afterwards, with the processes that left it.
unfoldable pub after_kills : Settings → Machine → Runner → Budget
unfolding mem_avail kill_recent
after_kills settings m r =
    kill_recent settings m.at_kill r.running r.pending (mem_avail settings m.global_free r)

unfoldable pub after_starts : Settings → Machine → Runner → Budget
unfolding after_kills start_pending
after_starts settings m r =
    let b = after_kills settings m r in start_pending settings m.time b.waiting b.active b.free

unfoldable pub poll_round : Settings → Machine → Runner → Runner × List Process
unfolding after_starts drop_finished
poll_round settings m r =
    let b = after_starts settings m r in
    let d = drop_finished m.at_drop b.active in
    (record { pending = b.waiting; running = d.kept }, d.done)
