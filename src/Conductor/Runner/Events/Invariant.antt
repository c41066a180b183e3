-- ===== src/Conductor/Runner/Events/Invariant.antt =====
-- What holds of the runner whatever happens to it.
use emucpu.Prelude.{
  All-append, All-snoc, ℕ, ◌≤◌, List, [], ◌∷◌, ◌++◌, map, none, length, All, arith, ◌≡◌, refl,
}
use mathlib.Core.List.{Perm, append_assoc, append-nil, perm_middle}
use mathlib.Core.List.Perm
use emucpu.Conductor.Process.{Process}
use emucpu.Conductor.Process.Outcome.{IsSettled}
use emucpu.Conductor.Runner.{Settings, append, poll_round}
use emucpu.Conductor.Runner.Conserve.{idents, poll_round-perm}
use emucpu.Conductor.Runner.Limits.{NoRestart, poll_round-IsSettled, poll_round-max_running}
use emucpu.Conductor.Runner.Events.{
  Event, shell, round, give_up, System, cancel_if, cancel_in, advance, idle, run,
}

-- The processes that were handed to the runner.
abbrev pub added : List Event → List ℕ
added [] = []
added (shell p ∷ es) = p.ident ∷ added es
added (round m ∷ es) = added es
added (give_up n ∷ es) = added es

-- New processes ask for nothing.
abbrev pub AreNew : List Event → Type 0
AreNew [] = Unit
AreNew (shell p ∷ es) = (p.kill_ ≡ none) × AreNew es
AreNew (round m ∷ es) = AreNew es
AreNew (give_up n ∷ es) = AreNew es

abbrev pub known : System → List ℕ
known s = idents s.runner.pending ++ (idents s.runner.running ++ idents s.left)

pub record Inv (settings : Settings) (s : System) : Type 0 where
  pub few : length s.runner.running ≤ settings.max_running
  pub waiting : All NoRestart s.runner.pending
  pub active : All NoRestart s.runner.running
  pub settled : All IsSettled s.left

All-map_cancel :
    (n : ℕ) (ps : List Process) → All NoRestart ps → All NoRestart (map (cancel_if n) ps)
unfolding cancel_if
All-map_cancel n [] h = tt
All-map_cancel n (p ∷ ps) (h, hs) = (ground arith, All-map_cancel n ps hs)

length-map_cancel : (n : ℕ) (ps : List Process) → length (map (cancel_if n) ps) ≡ length ps
length-map_cancel n [] = refl
length-map_cancel n (p ∷ ps) = omega (arith, length-map_cancel n ps)

idents-map_cancel : (n : ℕ) (ps : List Process) → idents (map (cancel_if n) ps) ≡ idents ps
unfolding cancel_if
idents-map_cancel n [] = refl
idents-map_cancel n (p ∷ ps) = ground (arith, idents-map_cancel n ps)

advance-Inv :
    (settings : Settings) (e : Event) (s : System)
    → AreNew (e ∷ [])
    → Inv settings s
    → Inv settings (advance settings e s)
unfolding advance append cancel_in
advance-Inv settings (shell p) s (fresh, _) v = record {
  few = v.few;
  waiting = All-snoc NoRestart s.runner.pending p v.waiting (ground arith);
  active = v.active;
  settled = v.settled;
}
advance-Inv settings (give_up n) s fresh v = record {
  few = rw (length-map_cancel n s.runner.running) v.few;
  waiting = All-map_cancel n s.runner.pending v.waiting;
  active = All-map_cancel n s.runner.running v.active;
  settled = v.settled;
}
advance-Inv settings (round m) s fresh v =
    let (w, a, d) = poll_round-IsSettled settings m s.runner v.waiting v.active in
    record {
      few = poll_round-max_running settings m s.runner v.few;
      waiting = w;
      active = a;
      settled = All-append IsSettled (poll_round settings m s.runner).1 s.left d v.settled;
    }

run-Inv_from :
    (settings : Settings) (es : List Event) (s : System)
    → AreNew es
    → Inv settings s
    → Inv settings (run settings es s)
unfolding run
run-Inv_from settings [] s fresh v = v
run-Inv_from settings (shell p ∷ es) s (f, fs) v =
    run-Inv_from settings es (advance settings (shell p) s) fs
      (advance-Inv settings (shell p) s (f, tt) v)
run-Inv_from settings (round m ∷ es) s fs v =
    run-Inv_from settings es (advance settings (round m) s) fs
      (advance-Inv settings (round m) s tt v)
run-Inv_from settings (give_up n ∷ es) s fs v =
    run-Inv_from settings es (advance settings (give_up n) s) fs
      (advance-Inv settings (give_up n) s tt v)

-- Whatever sequence of new processes, which ask for nothing, rounds and cancelled futures a fresh
-- runner meets, no more than the limit are running after it, no pending or running process has a
-- request to restart it that is still to be carried out, and every process that left the runner has
-- a result or was cancelled.
pub run-Inv :
    (settings : Settings) (es : List Event) → AreNew es → Inv settings (run settings es idle)
run-Inv settings es fresh =
    run-Inv_from settings es idle fresh
      (record { few = omega arith; waiting = tt; active = tt; settled = tt })

idents-append : (ps qs : List Process) → idents (ps ++ qs) ≡ idents ps ++ idents qs
idents-append [] qs = refl
idents-append (p ∷ ps) qs = ground (arith, idents-append ps qs)

advance-known :
    (settings : Settings) (e : Event) (s : System)
    → Perm (known (advance settings e s)) (added (e ∷ []) ++ known s)
unfolding advance append cancel_in
advance-known settings (shell p) s =
    rw
      (
        idents-append s.runner.pending (p ∷ []),
        append_assoc (idents s.runner.pending) (p.ident ∷ [])
            (idents s.runner.running ++ idents s.left),
      )
      (perm_middle (idents s.runner.pending) (idents s.runner.running ++ idents s.left))
advance-known settings (give_up n) s =
    rw (idents-map_cancel n s.runner.pending, idents-map_cancel n s.runner.running) Perm.rfl
advance-known settings (round m) s =
    let after = poll_round settings m s.runner in
    let moved = Perm.append_right (idents s.left) (poll_round-perm settings m s.runner) in
    let shown : Perm
        (idents after.0.pending ++ (idents after.0.running ++ (idents after.1 ++ idents s.left)))
        (idents s.runner.pending ++ (idents s.runner.running ++ idents s.left)) =
      rw
        (
          append_assoc (idents after.0.pending ++ idents after.0.running) (idents after.1)
              (idents s.left),
          append_assoc (idents after.0.pending) (idents after.0.running)
              (idents after.1 ++ idents s.left),
          append_assoc (idents s.runner.pending) (idents s.runner.running) (idents s.left),
        )
        at moved in
    rw (idents-append after.1 s.left) shown

run-known_from :
    (settings : Settings) (es : List Event) (s : System)
    → Perm (known (run settings es s)) (added es ++ known s)
unfolding run
run-known_from settings [] s = Perm.rfl
run-known_from settings (shell p ∷ es) s =
    Perm.trans (run-known_from settings es (advance settings (shell p) s)) (
      Perm.trans (Perm.append_left (added es) (advance-known settings (shell p) s))
        (perm_middle (added es) (known s)))
run-known_from settings (round m ∷ es) s =
    Perm.trans (run-known_from settings es (advance settings (round m) s))
      (Perm.append_left (added es) (advance-known settings (round m) s))
run-known_from settings (give_up n ∷ es) s =
    Perm.trans (run-known_from settings es (advance settings (give_up n) s))
      (Perm.append_left (added es) (advance-known settings (give_up n) s))

-- Whatever sequence of new processes, rounds and cancelled futures a fresh runner meets, the
-- processes that are pending, running or have left it are the ones that it was given.
pub run-known :
    (settings : Settings) (es : List Event)
    → Perm
        (idents (run settings es idle).runner.pending
          ++ (idents (run settings es idle).runner.running ++ idents (run settings es idle).left))
        (added es)
run-known settings es = rw (append-nil (added es)) at (run-known_from settings es idle)
