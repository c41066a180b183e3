-- ===== src/Conductor/Process.antt =====
-- `Process` and `ProcessResult`. Memory is in bytes and time in milliseconds: the source keeps
-- gigabytes and seconds as floats. The operating system's view of a process enters as an `Observed`.
pub mod Outcome
use emucpu.Prelude.{
  ℕ, ◌+◌, ◌-◌, ◌*◌, ◌/◌, ◌^◌, max, Bool, true, false, not, ◌&&◌, ltb, if◌then◌else◌, Option, none,
  some, [],
}
use emucpu.Prelude.Int.{ℤ}
use emucpu.Prelude.Text.{Text, codes}

-- `reason`
abbrev pub finished : Text
finished = codes "OK"

abbrev pub timeout : Text
timeout = codes "TIMEOUT"

abbrev pub uninterested : Text
uninterested = codes "UNINTERESTED"

-- `code` is None for a process that was killed.
pub record ProcessResult : Type 0 where
  pub code : Option ℤ
  pub reason : Text
  pub max_mem : ℕ
  pub dt : ℕ
  pub stdout : Option Text
  pub stderr : Option Text

-- `self.kill_`
pub data KillRequest : Type 0 where
  kill restart : KillRequest

-- The future is `cancelled`, or has a `result`, or neither; `ident` is the object's identity, and
-- the two texts are what the pipes of its `proc` hold.
pub record Process : Type 0 where
  pub ident : ℕ
  pub expected_memory : ℕ
  pub expected_time : ℕ
  pub timeout_ms : Option ℕ
  pub kill_ : Option KillRequest
  pub debug_slow_count : ℕ
  pub max_memory : ℕ
  pub start_time : ℕ
  pub cancelled : Bool
  pub result : Option ProcessResult
  pub stdout : Text
  pub stderr : Text

-- `memory_info().rss`, `time.time()`, `proc.poll()`, and what the process has written so far.
pub record Observed : Type 0 where
  pub rss : ℕ
  pub now : ℕ
  pub exit_code : Option ℤ
  pub stdout : Text
  pub stderr : Text

-- `start`
unfoldable pub start : ℕ → Process → Process
start now p = record p {
  start_time = now;
  max_memory = 0;
  debug_slow_count = 0;
  stdout = [];
  stderr = [];
}

-- `ProcessFuture.cancel`: the process is asked to die, and the future is cancelled.
unfoldable pub cancel : Process → Process
cancel p = record p { kill_ = some kill; cancelled = true }

unfoldable pub kill_restart : Process → Process
kill_restart p = record p { kill_ = some restart }

-- `if not self.future.cancelled(): self.future.set_result(…)`
unfoldable pub resolve : ProcessResult → Process → Process
resolve r p = if p.cancelled then p else record p { result = some r }

unfoldable pub over_time : Option ℕ → ℕ → Bool
over_time none dt = false
over_time (some t) dt = ltb t dt

-- `floor(dt / 60.0)`, and the count of messages about a slow process.
unfoldable pub note_slow : ℕ → Process → Process
note_slow dt p =
    if ltb p.debug_slow_count (dt / 60000) then record p { debug_slow_count = dt / 60000 } else p

-- `ProcessResult.from_proc`
abbrev pub result_of : Option ℤ → Text → ℕ → Process → ProcessResult
result_of code reason dt p = record {
  code = code;
  reason = reason;
  max_mem = p.max_memory;
  dt = dt;
  stdout = some p.stdout;
  stderr = some p.stderr;
}

-- The branches of `poll` that are left when the process has not exited by itself: on `kill_`.
unfoldable pub poll_running : Option KillRequest → ℕ → Process → Process × Bool
unfolding resolve over_time note_slow
poll_running (some restart) dt p = (
  record p {
    kill_ = none;
    expected_memory = max p.expected_memory p.max_memory;
    expected_time = max p.expected_time dt;
  },
  true,
)
poll_running (some kill) dt p =
    if over_time p.timeout_ms dt
    then (resolve (result_of none timeout dt p) p, true)
    else (resolve (result_of none uninterested dt p) p, true)
poll_running none dt p =
    if over_time p.timeout_ms dt
    then (resolve (result_of none timeout dt p) p, true)
    else (note_slow dt p, false)

unfoldable pub poll_on : Option KillRequest → Option ℤ → ℕ → Process → Process × Bool
unfolding poll_running
poll_on none (some code) dt p = (resolve (result_of (some code) finished dt p) p, true)
poll_on k code dt p = poll_running k dt p

-- `poll`: the process afterwards, and whether the runner is done with it.
unfoldable pub poll : Observed → Process → Process × Bool
unfolding poll_on
poll o p =
    let p' = record p {
      max_memory = max o.rss p.max_memory;
      stdout = o.stdout;
      stderr = o.stderr;
    } in
    poll_on p'.kill_ o.exit_code (o.now - p'.start_time) p'
