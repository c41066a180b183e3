-- ===== src/Conductor/Process/Outcome.antt =====
-- What `poll` decides.
use emucpu.Prelude.{◌-◌, true, false, none, some, arith, ◌≡◌, ◌≢◌, ◌⊎◌, ◌↔◌}
use emucpu.Conductor.Process.{restart, Process, Observed, over_time, poll}

-- The future has been settled.
abbrev pub IsSettled : Process → Type 0
IsSettled p = (p.cancelled ≡ true) ⊎ (p.result ≢ none)

-- A process that the runner is done with has a settled future unless it is to be started again.
pub poll-IsSettled :
    (o : Observed) (p : Process)
    → p.kill_ ≢ some restart
    → (poll o p).1 ≡ true
    → IsSettled (poll o p).0
unfolding poll
poll-IsSettled o p h d = ground arith

-- The runner is done with a process exactly if it exited, was asked to die or to restart, or ran
-- out of time. It then had a request to restart, or its future is settled; and otherwise its
-- future is as it was.
pub poll_outcome :
    (o : Observed) (p : Process)
    → (((poll o p).1 ≡ true) ↔ (
        (p.kill_ ≢ none)
        ⊎ (o.exit_code ≢ none)
        ⊎ (over_time p.timeout_ms (o.now - p.start_time) ≡ true)))
      × (((poll o p).1 ≡ true) × ((p.kill_ ≡ some restart) ⊎ IsSettled (poll o p).0)
          ⊎ ((poll o p).1 ≡ false)
            × ((poll o p).0.result ≡ p.result)
            × ((poll o p).0.cancelled ≡ p.cancelled))
unfolding poll
poll_outcome o p = ground arith
