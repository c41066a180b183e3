-- ===== src/Conductor/Runner/Limits.antt =====
-- The limits that a round of the runner keeps, and the futures of the processes that leave it.
use emucpu.Prelude.{
  ℕ, ◌+◌, ◌-◌, ◌≤◌, max, min, Bool, true, false, ◌&&◌, ltb, List, [], ◌∷◌, some, length, arith, All,
  ◌≡◌, ◌≢◌, refl, if_ind, ◌⊎◌,
}
use emucpu.Conductor.Process.Outcome.{IsSettled, poll-IsSettled}
use emucpu.Conductor.Process.{Process, Observed, restart, start, kill_restart, poll}
use emucpu.Conductor.Runner.{
  Runner, Settings, Budget, kill_recent, start_pending, least_memory, global_memory_buffer, Dropped,
  sort_out, drop_finished, Machine, after_kills, after_starts, poll_round,
}

-- The memory that the runner reserves for its processes.
abbrev pub reserved : List Process → ℕ
reserved [] = 0
reserved (p ∷ ps) = max p.expected_memory least_memory + reserved ps

start_pending-budget :
    (settings : Settings) (now : ℕ) (pending running : List Process) (free : ℕ)
    → reserved (start_pending settings now pending running free).active
        + (start_pending settings now pending running free).free
      ≡ reserved running + free
unfolding start_pending start global_memory_buffer least_memory
start_pending-budget settings now [] running free = refl
start_pending-budget settings now (last ∷ pending) running free = ground (
  arith,
  start_pending-budget settings now pending (start now last ∷ running)
      (free - max last.expected_memory least_memory),
)

start_pending-length :
    (settings : Settings) (now : ℕ) (pending running : List Process) (free : ℕ)
    → length running ≤ settings.max_running
    → length (start_pending settings now pending running free).active ≤ settings.max_running
unfolding start_pending
start_pending-length settings now [] running free h = h
start_pending-length settings now (last ∷ pending) running free h = ground (
  arith,
  start_pending-length settings now pending (start now last ∷ running)
      (free - max last.expected_memory least_memory),
)

kill_recent-length :
    (settings : Settings) (observe : ℕ → Observed) (running pending : List Process) (free : ℕ)
    → length (kill_recent settings observe running pending free).active ≤ length running
unfolding kill_recent
kill_recent-length settings observe [] pending free = omega arith
kill_recent-length settings observe (last ∷ []) pending free = omega arith
kill_recent-length settings observe (last ∷ p ∷ running) pending free = ground (
  arith,
  kill_recent-length settings observe (p ∷ running)
      ((poll (observe last.ident) (kill_restart last)).0 ∷ pending)
      (free + max last.max_memory least_memory),
)

drop_finished-length :
    (observe : ℕ → Observed) (running : List Process)
    → length (drop_finished observe running).kept ≤ length running
unfolding drop_finished
drop_finished-length observe [] = omega arith
drop_finished-length observe (p ∷ running) = ground (arith, drop_finished-length observe running)

-- The number of running processes never passes its limit.
pub poll_round-max_running :
    (settings : Settings) (m : Machine) (r : Runner)
    → length r.running ≤ settings.max_running
    → length (poll_round settings m r).0.running ≤ settings.max_running
unfolding poll_round after_starts after_kills
poll_round-max_running settings m r h =
    let killed = after_kills settings m r in
    let fits : length killed.active ≤ settings.max_running =
      omega (arith, kill_recent-length settings m.at_kill r.running r.pending _) in
    omega (
      arith,
      start_pending-length settings m.time killed.waiting killed.active killed.free fits,
      drop_finished-length m.at_drop (after_starts settings m r).active,
    )

-- Starting processes reserves no more memory than was free: what is reserved afterwards and what
-- is left free add up to what was reserved and free after the kills.
pub after_starts-budget :
    (settings : Settings) (m : Machine) (r : Runner)
    → reserved (after_starts settings m r).active + (after_starts settings m r).free
      ≡ reserved (after_kills settings m r).active + (after_kills settings m r).free
unfolding after_starts
after_starts-budget settings m r =
    let killed = after_kills settings m r in
    start_pending-budget settings m.time killed.waiting killed.active killed.free

-- Killing stops only if it is switched off, if enough memory is free, or if at most one process is
-- left running; and it leaves one running if there was one.
pub kill_recent_stops :
    (settings : Settings) (observe : ℕ → Observed) (running pending : List Process) (free : ℕ)
    → ((settings.no_kill ≡ true)
        ⊎ (global_memory_buffer ≤ (kill_recent settings observe running pending free).free)
        ⊎ (length (kill_recent settings observe running pending free).active ≤ 1))
      × (min 1 (length running) ≤ length (kill_recent settings observe running pending free).active)
unfolding kill_recent
kill_recent_stops settings observe [] pending free = ground arith
kill_recent_stops settings observe (last ∷ []) pending free = ground arith
kill_recent_stops settings observe (last ∷ p ∷ running) pending free = ground (
  arith,
  kill_recent_stops settings observe (p ∷ running)
      ((poll (observe last.ident) (kill_restart last)).0 ∷ pending)
      (free + max last.max_memory least_memory),
)

-- Only the runner itself asks for a restart, and it polls the process at once.
abbrev pub NoRestart : Process → Type 0
NoRestart p = p.kill_ ≢ some restart

restart-NoRestart : (o : Observed) (p : Process) → NoRestart (poll o (kill_restart p)).0
unfolding poll kill_restart
restart-NoRestart o p = ground arith

poll-NoRestart : (o : Observed) (p : Process) → NoRestart p → NoRestart (poll o p).0
unfolding poll
poll-NoRestart o p h = ground arith

kill_recent-NoRestart :
    (settings : Settings) (observe : ℕ → Observed) (running pending : List Process) (free : ℕ)
    → All NoRestart running
    → All NoRestart pending
    → All NoRestart (kill_recent settings observe running pending free).waiting
      × All NoRestart (kill_recent settings observe running pending free).active
unfolding kill_recent
kill_recent-NoRestart settings observe [] pending free r w = (w, tt)
kill_recent-NoRestart settings observe (last ∷ []) pending free r w = (w, r)
kill_recent-NoRestart settings observe (last ∷ p ∷ running) pending free (l, r) w =
    let killed = (poll (observe last.ident) (kill_restart last)).0 in
    let more = free + max last.max_memory least_memory in
    if_ind {A = Budget} (λ b. All NoRestart b.waiting × All NoRestart b.active) _
      (λ _.
        kill_recent-NoRestart settings observe (p ∷ running) (killed ∷ pending) more r
          (restart-NoRestart (observe last.ident) last, w))
      (λ _. (w, (l, r)))

start_pending-NoRestart :
    (settings : Settings) (now : ℕ) (pending running : List Process) (free : ℕ)
    → All NoRestart pending
    → All NoRestart running
    → All NoRestart (start_pending settings now pending running free).waiting
      × All NoRestart (start_pending settings now pending running free).active
unfolding start_pending start
start_pending-NoRestart settings now [] running free w r = (tt, r)
start_pending-NoRestart settings now (last ∷ pending) running free (l, w) r =
    let less = free - max last.expected_memory least_memory in
    let room =
      ltb (length running) settings.max_running
      && ltb (last.expected_memory + global_memory_buffer) free in
    if_ind {A = Budget} (λ b. All NoRestart b.waiting × All NoRestart b.active) room
      {y = record { waiting = last ∷ pending; active = running; free = free }}
      (λ _. start_pending-NoRestart settings now pending (start now last ∷ running) less w (l, r))
      (λ _. ((l, w), r))

sort_out-IsSettled :
    (p : Process) (b : Bool) (d : Dropped)
    → NoRestart p
    → (b ≡ true → IsSettled p)
    → All NoRestart d.kept × All IsSettled d.done
    → All NoRestart (sort_out p b d).kept × All IsSettled (sort_out p b d).done
sort_out-IsSettled p true d n s (k, e) = (k, (s refl, e))
sort_out-IsSettled p false d n s (k, e) = ((n, k), e)

drop_finished-IsSettled :
    (observe : ℕ → Observed) (running : List Process)
    → All NoRestart running
    → All NoRestart (drop_finished observe running).kept
      × All IsSettled (drop_finished observe running).done
unfolding drop_finished
drop_finished-IsSettled observe [] r = (tt, tt)
drop_finished-IsSettled observe (p ∷ running) (n, r) =
    let o = observe p.ident in
    sort_out-IsSettled (poll o p).0 (poll o p).1 (drop_finished observe running)
      (poll-NoRestart o p n) (poll-IsSettled o p n) (drop_finished-IsSettled observe running r)

-- If no process waits for a restart before a round, then none does after it, and the future of
-- every process that leaves the runner is settled: it has a result or was cancelled.
pub poll_round-IsSettled :
    (settings : Settings) (m : Machine) (r : Runner)
    → All NoRestart r.pending
    → All NoRestart r.running
    → All NoRestart (poll_round settings m r).0.pending
      × All NoRestart (poll_round settings m r).0.running
      × All IsSettled (poll_round settings m r).1
unfolding poll_round after_starts after_kills
poll_round-IsSettled settings m r w a =
    let killed = after_kills settings m r in
    let (w1, a1) = kill_recent-NoRestart settings m.at_kill r.running r.pending _ a w in
    let (w2, a2) =
      start_pending-NoRestart settings m.time killed.waiting killed.active killed.free w1 a1 in
    let (kept, done) = drop_finished-IsSettled m.at_drop (after_starts settings m r).active a2 in
    (w2, kept, done)
