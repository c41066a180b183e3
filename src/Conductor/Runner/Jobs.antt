-- ===== src/Conductor/Runner/Jobs.antt =====
-- What the runner does to its processes, with nothing else in view: which wait, which are active
-- and which have left, and the three steps between such states.
use emucpu.Prelude.{
  ℕ, ◌+◌, ◌-◌, max, Bool, true, false, ◌&&◌, ltb, List, [], ◌∷◌, ◌++◌, length, ◌≡◌, refl, if_ind,
}
use mathlib.Core.List.{append_assoc}
use mathlib.Core.Path.{subst}
use emucpu.Conductor.Process.{Process, Observed, start, kill_restart, poll}
use emucpu.Conductor.Runner.Conserve.{idents, poll-ident, kill-ident}
use emucpu.Conductor.Runner.{
  Runner, Settings, Budget, kill_recent, start_pending, least_memory, global_memory_buffer, Dropped,
  sort_out, drop_finished, Machine, after_kills, after_starts, poll_round,
}

-- The identities of the processes, each list with the next to be taken in front.
pub data Jobs : Type 0 where
  jobs : (waiting active left : List ℕ) → Jobs

-- A process that is not the only active one is put back, the next one is started, or any active
-- one leaves.
pub data Step : Jobs → Jobs → Type 0 where
  put_back : {p q : ℕ} {w a d : List ℕ} → Step (jobs w (p ∷ q ∷ a) d) (jobs (p ∷ w) (q ∷ a) d)
  begin : {p : ℕ} {w a d : List ℕ} → Step (jobs (p ∷ w) a d) (jobs w (p ∷ a) d)
  leave :
      (p : ℕ) (a b : List ℕ) {w x y d : List ℕ}
      → x ≡ a ++ (p ∷ b)
      → y ≡ a ++ b
      → Step (jobs w x d) (jobs w y (p ∷ d))

pub data Steps : Jobs → Jobs → Type 0 where
  here : {s : Jobs} → Steps s s
  then : {s t u : Jobs} → Step s t → Steps t u → Steps s u

pub Steps-trans : {s t u : Jobs} → Steps s t → Steps t u → Steps s u
Steps-trans here r = r
Steps-trans (then st l) r = then st (Steps-trans l r)

abbrev pub budget_jobs : List ℕ → Budget → Jobs
budget_jobs d b = jobs (idents b.waiting) (idents b.active) d

kill_recent-Steps :
    (settings : Settings) (observe : ℕ → Observed) (running pending : List Process) (free : ℕ)
    (d : List ℕ)
    → Steps
        (jobs (idents pending) (idents running) d)
        (budget_jobs d (kill_recent settings observe running pending free))
unfolding kill_recent
kill_recent-Steps settings observe [] pending free d = here
kill_recent-Steps settings observe (last ∷ []) pending free d = here
kill_recent-Steps settings observe (last ∷ p ∷ running) pending free d =
    let killed = (poll (observe last.ident) (kill_restart last)).0 in
    let more = free + max last.max_memory least_memory in
    if_ind {A = Budget}
      (λ b. Steps (jobs (idents pending) (idents (last ∷ p ∷ running)) d) (budget_jobs d b)) _
      (λ _. then put_back (
        subst
          (λ i.
            Steps (jobs (i ∷ idents pending) (idents (p ∷ running)) d)
              (budget_jobs d (kill_recent settings observe (p ∷ running) (killed ∷ pending) more)))
          (kill-ident (observe last.ident) last)
          (kill_recent-Steps settings observe (p ∷ running) (killed ∷ pending) more d)))
      (λ _. here)

start_pending-Steps :
    (settings : Settings) (now : ℕ) (pending running : List Process) (free : ℕ) (d : List ℕ)
    → Steps
        (jobs (idents pending) (idents running) d)
        (budget_jobs d (start_pending settings now pending running free))
unfolding start_pending start
start_pending-Steps settings now [] running free d = here
start_pending-Steps settings now (last ∷ pending) running free d =
    let less = free - max last.expected_memory least_memory in
    let room =
      ltb (length running) settings.max_running
      && ltb (last.expected_memory + global_memory_buffer) free in
    if_ind {A = Budget}
      (λ b. Steps (jobs (idents (last ∷ pending)) (idents running) d) (budget_jobs d b)) room
      {y = record { waiting = last ∷ pending; active = running; free = free }}
      (λ _. then begin (start_pending-Steps settings now pending (start now last ∷ running) less d))
      (λ _. here)

sort_out-Steps :
    (pre w d : List ℕ) (p : Process) (b : Bool) (rest : Dropped)
    → Steps
        (jobs w (pre ++ (p.ident ∷ idents rest.kept)) (idents rest.done ++ d))
        (jobs w (pre ++ idents (sort_out p b rest).kept) (idents (sort_out p b rest).done ++ d))
sort_out-Steps pre w d p true rest = then (leave p.ident pre (idents rest.kept) refl refl) here
sort_out-Steps pre w d p false rest = here

drop_finished-Steps :
    (observe : ℕ → Observed) (running : List Process) (pre w d : List ℕ)
    → Steps (jobs w (pre ++ idents running) d) (
        jobs w
          (pre ++ idents (drop_finished observe running).kept)
          (idents (drop_finished observe running).done ++ d))
unfolding drop_finished
drop_finished-Steps observe [] pre w d = here
drop_finished-Steps observe (p ∷ running) pre w d =
    let rest = drop_finished observe running in
    let polled = poll (observe p.ident) p in
    let older : Steps (jobs w ((pre ++ (p.ident ∷ [])) ++ idents running) d)
        (jobs w ((pre ++ (p.ident ∷ [])) ++ idents rest.kept) (idents rest.done ++ d)) =
      drop_finished-Steps observe running (pre ++ (p.ident ∷ [])) w d in
    let own = sort_out-Steps pre w d polled.0 polled.1 rest in
    let moved : Steps (jobs w (pre ++ (p.ident ∷ idents rest.kept)) (idents rest.done ++ d)) (
        jobs w (pre ++ idents (sort_out polled.0 polled.1 rest).kept)
          (idents (sort_out polled.0 polled.1 rest).done ++ d)) =
      rw (poll-ident (observe p.ident) p) at own in
    let placed =
      rw
        (
          append_assoc pre (p.ident ∷ []) (idents running),
          append_assoc pre (p.ident ∷ []) (idents rest.kept),
        )
        at older in
    Steps-trans placed moved

-- A round of the runner is a sequence of the three steps: it puts processes back only while another
-- is active, starts them in the order in which they wait, and lets active ones leave.
pub poll_round-Steps :
    (settings : Settings) (m : Machine) (r : Runner) (left : List ℕ)
    → Steps (jobs (idents r.pending) (idents r.running) left) (
        jobs
          (idents (poll_round settings m r).0.pending)
          (idents (poll_round settings m r).0.running)
          (idents (poll_round settings m r).1 ++ left))
unfolding poll_round after_starts after_kills
poll_round-Steps settings m r left =
    let killed = after_kills settings m r in
    Steps-trans (kill_recent-Steps settings m.at_kill r.running r.pending _ left) (
      Steps-trans
        (start_pending-Steps settings m.time killed.waiting killed.active killed.free left)
        (drop_finished-Steps m.at_drop (after_starts settings m r).active [] _ left))
