-- ===== src/Conductor/Runner/Conserve.antt =====
-- No process is lost by a round of the runner.
use emucpu.Prelude.{
  ℕ, ◌+◌, ◌-◌, max, Bool, true, false, ◌&&◌, ltb, List, [], ◌∷◌, ◌++◌, map, length, arith, ◌≡◌,
  refl, if_ind,
}
use mathlib.Core.List.{Perm, perm_middle, append_assoc}
use mathlib.Core.List.Perm
use emucpu.Conductor.Process.{Process, Observed, start, kill_restart, poll}
use emucpu.Conductor.Runner.{
  Runner, Settings, Budget, kill_recent, start_pending, least_memory, global_memory_buffer, Dropped,
  sort_out, drop_finished, Machine, after_kills, after_starts, poll_round,
}

abbrev pub idents : List Process → List ℕ
idents ps = map (λ p. p.ident) ps

pub poll-ident : (o : Observed) (p : Process) → (poll o p).0.ident ≡ p.ident
unfolding poll
poll-ident o p = ground arith

pub kill-ident : (o : Observed) (p : Process) → (poll o (kill_restart p)).0.ident ≡ p.ident
unfolding poll kill_restart
kill-ident o p = ground arith

-- The identities of the processes that are waiting and active.
abbrev pub all_idents : Budget → List ℕ
all_idents b = idents b.waiting ++ idents b.active

kill_recent-perm :
    (settings : Settings) (observe : ℕ → Observed) (running pending : List Process) (free : ℕ)
    → Perm
        (all_idents (kill_recent settings observe running pending free))
        (idents pending ++ idents running)
unfolding kill_recent
kill_recent-perm settings observe [] pending free = Perm.rfl
kill_recent-perm settings observe (last ∷ []) pending free = Perm.rfl
kill_recent-perm settings observe (last ∷ p ∷ running) pending free =
    let killed = (poll (observe last.ident) (kill_restart last)).0 in
    let more = free + max last.max_memory least_memory in
    let ids = idents (last ∷ p ∷ running) in
    if_ind (λ b. Perm (all_idents b) (idents pending ++ ids)) _
      (λ _. Perm.trans (kill_recent-perm settings observe (p ∷ running) (killed ∷ pending) more) (
        rw (kill-ident (observe last.ident) last)
          (Perm.symm (perm_middle (idents pending) (idents (p ∷ running))))))
      (λ _. Perm.rfl)

pub start-ident : (now : ℕ) (p : Process) → (start now p).ident ≡ p.ident
unfolding start
start-ident now p = refl

start_pending-perm :
    (settings : Settings) (now : ℕ) (pending running : List Process) (free : ℕ)
    → Perm
        (all_idents (start_pending settings now pending running free))
        (idents pending ++ idents running)
unfolding start_pending
start_pending-perm settings now [] running free = Perm.rfl
start_pending-perm settings now (last ∷ pending) running free =
    let less = free - max last.expected_memory least_memory in
    let room =
      ltb (length running) settings.max_running
      && ltb (last.expected_memory + global_memory_buffer) free in
    if_ind (λ b. Perm (all_idents b) (idents (last ∷ pending) ++ idents running)) room
      {y = record { waiting = last ∷ pending; active = running; free = free }}
      (λ _.
        Perm.trans (start_pending-perm settings now pending (start now last ∷ running) less)
          (rw (start-ident now last) (perm_middle (idents pending) (idents running))))
      (λ _. Perm.rfl)

sort_out-perm :
    (p : Process) (b : Bool) (d : Dropped)
    → Perm
        (idents (sort_out p b d).kept ++ idents (sort_out p b d).done)
        (p.ident ∷ idents d.kept ++ idents d.done)
sort_out-perm p true d = perm_middle (idents d.kept) (idents d.done)
sort_out-perm p false d = Perm.rfl

drop_finished-perm :
    (observe : ℕ → Observed) (running : List Process)
    → Perm
        (idents (drop_finished observe running).kept ++ idents (drop_finished observe running).done)
        (idents running)
unfolding drop_finished
drop_finished-perm observe [] = Perm.rfl
drop_finished-perm observe (p ∷ running) =
    let d = drop_finished observe running in
    let polled = poll (observe p.ident) p in
    Perm.trans (sort_out-perm polled.0 polled.1 d)
      (rw (poll-ident (observe p.ident) p) (Perm.cons p.ident (drop_finished-perm observe running)))

-- A round loses no process and makes none: those that are pending and running before it are those
-- that are pending, running or have left the runner after it.
pub poll_round-perm :
    (settings : Settings) (m : Machine) (r : Runner)
    → Perm
        (idents (poll_round settings m r).0.pending
          ++ idents (poll_round settings m r).0.running
          ++ idents (poll_round settings m r).1)
        (idents r.pending ++ idents r.running)
unfolding poll_round after_starts after_kills
poll_round-perm settings m r =
    let killed = after_kills settings m r in
    let started = after_starts settings m r in
    rw (append_assoc) (
      Perm.trans
        (Perm.append_left (idents started.waiting) (drop_finished-perm m.at_drop started.active))
        (Perm.trans (start_pending-perm settings m.time killed.waiting killed.active killed.free)
          (kill_recent-perm settings m.at_kill r.running r.pending _)))
