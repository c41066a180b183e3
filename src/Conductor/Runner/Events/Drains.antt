-- ===== src/Conductor/Runner/Events/Drains.antt =====
-- The runner gets through its processes when there is memory for one at a time and each of them
-- ends.
use emucpu.Prelude.{
  ℕ, ◌+◌, ◌-◌, ◌≤◌, ◌<◌, max, true, List, [], ◌∷◌, none, length, All, arith, ◌≡◌, ◌≢◌, refl, sym,
  if_ind, inl, inr,
}
use mathlib.Core.Path.{subst}
use emucpu.Conductor.Process.{Process, Observed, start, poll}
use emucpu.Conductor.Process.Outcome.{poll_outcome}
use emucpu.Conductor.Runner.{
  Runner, Settings, Budget, kill_recent, start_pending, least_memory, global_memory_buffer,
  drop_finished, Machine, mem_avail, after_kills, after_starts, poll_round,
}

-- Rounds, each with what it sees of the machine.
abbrev pub rounds : Settings → List Machine → Runner → Runner
rounds settings [] r = r
rounds settings (m ∷ ms) r = rounds settings ms (poll_round settings m r).0

-- The process alone has room in that memory.
abbrev pub Fits : ℕ → Process → Type 0
Fits free p = p.expected_memory + global_memory_buffer < free

-- Nothing is left to do.
abbrev pub IsDone : Runner → Type 0
IsDone r = (r.pending ≡ []) × (r.running ≡ [])

-- Every process is seen to have exited when it is polled.
abbrev pub AllExit : Machine → Type 0
AllExit m = (n : ℕ) → (m.at_drop n).exit_code ≢ none

kill_recent_enough :
    (settings : Settings) (observe : ℕ → Observed) (running pending : List Process) (free : ℕ)
    → global_memory_buffer ≤ free
    → kill_recent settings observe running pending free
      ≡ record { waiting = pending; active = running; free = free }
unfolding kill_recent
kill_recent_enough settings observe [] pending free h = refl
kill_recent_enough settings observe (last ∷ []) pending free h = refl
kill_recent_enough settings observe (last ∷ p ∷ running) pending free h = ground arith

-- What waits is still waiting, or fewer.
start_pending-Fits :
    (room : ℕ) (settings : Settings) (now : ℕ) (pending running : List Process) (free : ℕ)
    → All (Fits room) pending
    → All (Fits room) (start_pending settings now pending running free).waiting
unfolding start_pending
start_pending-Fits room settings now [] running free h = tt
start_pending-Fits room settings now (last ∷ pending) running free (h, hs) =
    if_ind {A = Budget} (λ b. All (Fits room) b.waiting) _
      {y = record { waiting = last ∷ pending; active = running; free = free }}
      (λ _.
        start_pending-Fits room settings now pending (start now last ∷ running)
          (free - max last.expected_memory least_memory) hs)
      (λ _. (h, hs))

start_pending-fewer :
    (settings : Settings) (now : ℕ) (pending running : List Process) (free : ℕ)
    → length (start_pending settings now pending running free).waiting ≤ length pending
unfolding start_pending
start_pending-fewer settings now [] running free = omega arith
start_pending-fewer settings now (last ∷ pending) running free = ground (
  arith,
  start_pending-fewer settings now pending (start now last ∷ running)
      (free - max last.expected_memory least_memory),
)

-- With none running and room for the next, it is started.
start_pending_first :
    (settings : Settings) (now : ℕ) (last : Process) (pending : List Process) (free : ℕ)
    → 0 < settings.max_running
    → Fits free last
    → length (start_pending settings now (last ∷ pending) [] free).waiting ≤ length pending
unfolding start_pending
start_pending_first settings now last pending free h f = ground (
  arith,
  start_pending-fewer settings now pending (start now last ∷ [])
      (free - max last.expected_memory least_memory),
)

drop_finished_all :
    (observe : ℕ → Observed) (running : List Process)
    → ((n : ℕ) → (observe n).exit_code ≢ none)
    → (drop_finished observe running).kept ≡ []
unfolding drop_finished
drop_finished_all observe [] h = refl
drop_finished_all observe (p ∷ running) h =
    let gone : (poll (observe p.ident) p).1 ≡ true =
      (poll_outcome (observe p.ident) p).0.1 (inr (inl (h p.ident))) in
    rw gone (drop_finished_all observe running h)

module _ (settings : Settings) (room : ℕ) (unlimited : settings.max_mem ≡ 0)
    (some_run : 0 < settings.max_running) (buffer : global_memory_buffer ≤ room) where
  -- A machine with that much memory, on which processes have exited.
  abbrev pub Roomy : Machine → Type 0
  Roomy m = (room ≤ m.global_free) × AllExit m

  started :
      (m : Machine) (r : Runner)
      → Roomy m
      → after_starts settings m r ≡ start_pending settings m.time r.pending r.running m.global_free
  unfolding after_starts after_kills mem_avail
  started m r (h, _) =
      let free : mem_avail settings m.global_free r ≡ m.global_free = ground arith in
      ground (arith, kill_recent_enough settings m.at_kill r.running r.pending m.global_free)

  round-Fits :
      (m : Machine) (r : Runner)
      → Roomy m
      → All (Fits room) r.pending
      → All (Fits room) (poll_round settings m r).0.pending
        × (length (poll_round settings m r).0.pending ≤ length r.pending)
        × ((poll_round settings m r).0.running ≡ [])
  unfolding poll_round
  round-Fits m r h f =
      let same = started m r h in
      (
        rw same (start_pending-Fits room settings m.time r.pending r.running m.global_free f),
        rw same (start_pending-fewer settings m.time r.pending r.running m.global_free),
        drop_finished_all m.at_drop (after_starts settings m r).active h.1,
      )

  round_starts :
      (m : Machine) (last : Process) (pending : List Process)
      → Roomy m
      → Fits room last
      → length (poll_round settings m (record { pending = last ∷ pending; running = [] })).0.pending
        ≤ length pending
  unfolding poll_round
  round_starts m last pending h f =
      rw (started m (record { pending = last ∷ pending; running = [] }) h) (
        start_pending_first settings m.time last pending m.global_free some_run
          (omega (arith, h.0)))

  round_shorter :
      (m : Machine) (pending : List Process)
      → Roomy m
      → All (Fits room) pending
      → length (poll_round settings m (record { pending = pending; running = [] })).0.pending
        ≤ length pending - 1
  round_shorter m [] h fs = (round-Fits m (record { pending = []; running = [] }) h tt).1
  round_shorter m (last ∷ pending) h (f, fs) = omega (arith, round_starts m last pending h f)

  -- The runner has nothing left to do.
  drain_idle :
      (ms : List Machine) (pending : List Process)
      → All Roomy ms
      → All (Fits room) pending
      → length pending ≤ length ms
      → IsDone (rounds settings ms (record { pending = pending; running = [] }))
  drain_idle [] [] hs fs l = (refl, refl)
  drain_idle [] (p ∷ pending) hs fs l = absurd (omega arith)
  drain_idle (m ∷ ms) pending (h, hs) fs l =
      let r : Runner = record { pending = pending; running = [] } in
      let next = (poll_round settings m r).0 in
      let (fit, fewer, idle) = round-Fits m r h fs in
      subst
        (λ running.
          IsDone (rounds settings ms (record { pending = next.pending; running = running })))
        (sym idle) (drain_idle ms next.pending hs fit (omega (arith, round_shorter m pending h fs)))

  -- If there is memory for each process by itself, at least one may run, no limit on memory is set,
  -- and processes have exited when they are polled, then the runner has nothing left to do after one
  -- round more than there are pending processes.
  pub rounds-IsDone :
      (ms : List Machine) (r : Runner)
      → All Roomy ms
      → All (Fits room) r.pending
      → length r.pending < length ms
      → IsDone (rounds settings ms r)
  rounds-IsDone [] r hs fs l = absurd (omega arith)
  rounds-IsDone (m ∷ ms) r (h, hs) fs l =
      let next = (poll_round settings m r).0 in
      let (fit, fewer, idle) = round-Fits m r h fs in
      subst
        (λ running.
          IsDone (rounds settings ms (record { pending = next.pending; running = running })))
        (sym idle) (drain_idle ms next.pending hs fit (omega arith))
