-- ===== src/RunRtl.antt =====
-- `_main` of dv/uvm/core_ibex/scripts/run_rtl.py: the commands of a simulation and their run. Paths
-- are given as `resolve` makes them.
pub mod Timeout
use emucpu.Prelude.{
  ℕ, zero, suc, ◌+◌, Bool, true, false, not, ◌&&◌, ◌==◌, select, if◌then◌else◌, List, [], ◌∷◌, ◌++◌,
  map, Option, none, some, Result, ok, raise, ◌>>=◌, map_ok,
}
use emucpu.Prelude.Int.{ℤ, pos}
use emucpu.Prelude.Text.{Text, codes, text_eq, join, show_nat, show_int}
use emucpu.Prelude.Dict.{Dict, lookup, insert}
use emucpu.IbexConfig.Value
use emucpu.IbexConfig.Value.{Value}
use emucpu.LogCheck.Modes.{FailureMode, timeout}
use emucpu.Metadata.{TestType, riscvdv, directed}
use emucpu.TestEntry.{get_test_entry}
use emucpu.ToolCmds.{CmdError, CmdOptions, get_tool_cmds}
use emucpu.Stdlib.OsPath.{join_path}
use emucpu.ScriptsLib.RunOne.{Host, binary_stream, RunError, run_one, or_empty}

-- What `_main` takes from the regression's metadata, with the decoded lists and what get_sim_opts
-- returns.
pub record Bench : Type 0 where
  pub testlist : List (Dict Value)
  pub simulator_yaml : List (Dict Value)
  pub simulator : Text
  pub iss : Text
  pub cov : Bool
  pub waves : Bool
  pub verbose : Bool
  pub run_rtl_timeout_s : ℕ
  pub signature_addr : Text
  pub sim_opts : Text
  pub ibex_root : Text
  pub dir_tb : Text
  pub dir_shared_cov : Text
  pub ibex_dv_root : Text
  pub environ : Text → Option Text

-- What it takes from the test run, with the texts of the files for the debug module. The failure may
-- be one that an earlier run has set.
pub record RtlRun : Type 0 where
  pub testtype : TestType
  pub testname : Text
  pub seed : ℤ
  pub dir_test : Text
  pub binary : Text
  pub directed_data : Option (Dict Value)
  pub is_discrete_debug_module : Bool
  pub vmem_main : Text
  pub vmem_dm : Text
  pub binary_main : Text
  pub binary_dm : Text
  pub failure_mode : Option FailureMode
  pub failure_message : Option Text

-- No such test; a missing key; a value of another type; what get_tool_cmds raises; a log that
-- cannot be opened.
pub data RtlError : Type 0 where
  no_entry : Text → RtlError
  key_error : Text → RtlError
  type_error : Text → RtlError
  cmd_error : CmdError → RtlError
  os_error : Text → RtlError

abbrev or_error {ℓ} : {A : Type ℓ} → RtlError → Option A → Result RtlError A
or_error e none = raise e
or_error e (some a) = ok a

-- `testopts`
unfoldable pub testopts_of : Bench → RtlRun → Result RtlError (Dict Value)
unfolding get_test_entry
testopts_of md r = of_type r.testtype
  where
    of_type : TestType → Result RtlError (Dict Value)
    of_type riscvdv = or_error (no_entry r.testname) (get_test_entry r.testname md.testlist)
    of_type directed = or_error (type_error (codes "directed_data")) r.directed_data

-- `testopts['rtl_test']`
unfoldable pub rtl_test_of : Dict Value → Result RtlError Text
unfolding lookup
rtl_test_of testopts = elim (lookup (codes "rtl_test") testopts) [
  | none ↦ raise (key_error (codes "rtl_test"))
  | some (Value.text s) ↦ ok s
  | some _ ↦ raise (type_error (codes "rtl_test"))
]

-- `testopts.get('timeout_s') or md.run_rtl_timeout_s`, as it is printed.
unfoldable pub timeout_text : Bench → Dict Value → Result RtlError Text
unfolding lookup show_nat show_int
timeout_text md testopts = elim (lookup (codes "timeout_s") testopts) [
  | none ↦ ok (show_nat md.run_rtl_timeout_s)
  | some Value.null ↦ ok (show_nat md.run_rtl_timeout_s)
  | some (Value.integer (pos zero)) ↦ ok (show_nat md.run_rtl_timeout_s)
  | some (Value.integer i) ↦ ok (show_int i)
  | some _ ↦ raise (type_error (codes "timeout_s"))
]

-- `sim_opts`
unfoldable pub test_sim_opts : Dict Value → Result RtlError Text
unfolding lookup
test_sim_opts testopts = elim (lookup (codes "sim_opts") testopts) [
  | none ↦ ok []
  | some Value.null ↦ ok []
  | some (Value.text s) ↦ ok (select (λ c. not (c == 10)) s)
  | some _ ↦ raise (type_error (codes "sim_opts"))
]

abbrev is_riscvdv : TestType → Bool
is_riscvdv riscvdv = true
is_riscvdv directed = false

-- `trr.ddm_sim_opts`
unfoldable pub ddm_sim_opts : RtlRun → Text
unfolding join
ddm_sim_opts r =
    if is_riscvdv r.testtype && r.is_discrete_debug_module
    then join [] (
        codes " +vmem_main="
        ∷ r.vmem_main
        ∷ codes "\n +vmem_dm="
        ∷ r.vmem_dm
        ∷ codes "\n +bin_main="
        ∷ r.binary_main
        ∷ codes "\n +bin_dm="
        ∷ r.binary_dm
        ∷ codes "\n"
        ∷ [])
    else []

-- `subst_vars_dict`
unfoldable pub subst_vars_dict : Bench → RtlRun → Text → Text → Text → Dict Text
unfolding join join_path show_int ddm_sim_opts
subst_vars_dict md r rtl_test timeout_s sim_opts =
    (codes "cwd", md.ibex_root)
    ∷ (codes "test_name", r.testname)
    ∷ (codes "rtl_test", rtl_test)
    ∷ (codes "seed", show_int r.seed)
    ∷ (codes "binary", r.binary)
    ∷ (codes "test_dir", r.dir_test)
    ∷ (codes "tb_dir", md.dir_tb)
    ∷ (codes "dir_shared_cov", md.dir_shared_cov)
    ∷ (codes "rtl_sim_log", join_path r.dir_test (codes "rtl_sim.log"))
    ∷ (codes "rtl_trace", join_path r.dir_test (codes "trace_core"))
    ∷ (
      codes "iss_cosim_trace",
      join_path r.dir_test (md.iss ++ codes "_cosim_trace_core_00000000.log"),
    )
    ∷ (codes "core_ibex", md.ibex_dv_root)
    ∷ (
      codes "sim_opts",
      join [] (
          codes "+signature_addr="
          ∷ md.signature_addr
          ∷ codes "\n+test_timeout_s="
          ∷ timeout_s
          ∷ codes "\n"
          ∷ md.sim_opts
          ∷ codes "\n"
          ∷ ddm_sim_opts r
          ∷ sim_opts
          ∷ []),
    )
    ∷ []

abbrev or_cmd_error : Result CmdError (List (List Text)) → Result RtlError (List (List Text))
or_cmd_error (ok cmds) = ok cmds
or_cmd_error (raise e) = raise (cmd_error e)

-- `sim_cmds`
unfoldable pub sim_cmds : Bench → RtlRun → Result RtlError (List (List Text))
unfolding testopts_of rtl_test_of timeout_text test_sim_opts subst_vars_dict get_tool_cmds
sim_cmds md r = do
  testopts ← testopts_of md r
  rtl_test ← rtl_test_of testopts
  timeout_s ← timeout_text md testopts
  sim_opts ← test_sim_opts testopts
  or_cmd_error (
      get_tool_cmds md.simulator_yaml md.simulator (codes "sim") (record {
        user_enables = (codes "cov_opts", md.cov) ∷ (codes "wave_opts", md.waves) ∷ [];
        user_subst_options = subst_vars_dict md r rtl_test timeout_s sim_opts;
        environ = md.environ;
      }))

-- `sim_fd.write`
unfoldable pub announce : Text → List Text → Dict Text → Dict Text
unfolding join lookup insert
announce log cmd files =
    insert log
      (or_empty (lookup log files)
        ++ (codes "Running run-rtl command :\n" ++ (join (codes " ") cmd ++ codes "\n")))
      files

-- The rest of the loop follows unless TimeoutExpired was raised.
abbrev pub unless_timed_out : Dict Text × Bool → Dict Text → Result RunError ℤ → Dict Text × Bool
unless_timed_out rest files (ok code) = rest
unless_timed_out rest files (raise e) = (files, true)

-- The loop over the commands, with whether one has timed out. No other error of `run_one` comes
-- from an open file.
unfoldable pub run_sims : Host → Bool → Text → List (List Text) → Dict Text → Dict Text × Bool
unfolding run_one announce
run_sims w verbose log [] s = (s, false)
run_sims w verbose log (cmd ∷ cmds) s =
    let done = run_one w verbose cmd (binary_stream log) true (announce log cmd s) in
    unless_timed_out (run_sims w verbose log cmds done.files) done.files done.returned

-- The attributes of the test run that change, the files, and what is returned or raised.
pub record Simulated : Type 0 where
  pub files : Dict Text
  pub rtl_log : Text
  pub failure_mode : Option FailureMode
  pub failure_message : Option Text
  pub returned : Result RtlError ℕ

unfoldable pub timeout_message : Bench → Text
unfolding show_nat
timeout_message md =
    codes "[FAILURE] Simulation process killed due to timeout ["
    ++ (show_nat (md.run_rtl_timeout_s + 60) ++ codes "s].\n")

unfoldable pub rtl_stdout : RtlRun → Text
unfolding join_path
rtl_stdout r = join_path r.dir_test (codes "rtl_sim_stdstreams.log")

unfoldable pub rtl_log_of : Bench → RtlRun → Text
unfolding text_eq rtl_stdout join_path
rtl_log_of md r =
    if text_eq md.simulator (codes "vcs")
    then rtl_stdout r
    else join_path r.dir_test (codes "rtl_sim.log")

-- The part with the log open, once the commands are known.
unfoldable pub simulate : Host → Bench → RtlRun → List (List Text) → Dict Text → Simulated
unfolding run_sims timeout_message rtl_stdout rtl_log_of
simulate w md r cmds s =
    let (files, timed_out) =
      run_sims w md.verbose (rtl_stdout r) cmds (insert (rtl_stdout r) [] s) in
    if w.writable (rtl_stdout r)
    then record {
      files = files;
      rtl_log = rtl_log_of md r;
      failure_mode = if timed_out then some timeout else r.failure_mode;
      failure_message = if timed_out then some (timeout_message md) else r.failure_message;
      returned = ok 0;
    }
    else record {
      files = s;
      rtl_log = rtl_log_of md r;
      failure_mode = r.failure_mode;
      failure_message = r.failure_message;
      returned = raise (os_error (rtl_stdout r));
    }

-- `_main`, behind the parsing of its arguments.
unfoldable pub run_rtl : Host → Bench → RtlRun → Dict Text → Simulated
unfolding sim_cmds simulate
run_rtl w md r s = elim (sim_cmds md r) [
  | ok cmds ↦ simulate w md r cmds s
  | raise e ↦ record {
    files = s;
    rtl_log = join_path r.dir_test (codes "rtl_sim.log");
    failure_mode = r.failure_mode;
    failure_message = r.failure_message;
    returned = raise e;
  }
]
