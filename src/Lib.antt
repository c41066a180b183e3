-- ===== src/Lib.antt =====
-- The Python tools of the repository: reading processor configurations, choosing tests and options
-- for a simulation, judging logs, collecting results, and running formal proofs.
--
-- A regression reads its configuration with util/ibex_config.py. The scripts under
-- dv/uvm/core_ibex/scripts ask ibex_cmd.py for the options of a simulator, the ISA strings of the
-- compiler and the instruction-set simulator, and the tests that fit the configuration. After the
-- simulations check_logs.py decides for each run whether it passed, with the log reader of
-- riscv_dv_extension/ibex_log_to_trace_csv.py, and collect_results.py adds the runs up.
-- Independent of these, check_tool_requirements.py compares the versions of the installed tools with
-- the required ones, and dv/formal/conductor.py groups properties by step and by the words of
-- their names and runs solvers under limits of memory and of number.
--
-- Files and what they model:
--   Prelude: lists, options, results, integers, texts (lists of character codes) and dictionaries
--     (association lists in insertion order) as the tools use them.
--   IbexConfig: util/ibex_config.py. Value is what the YAML parser returns; Fields has the class
--     attribute known_fields and the attributes of a Config; Reader has Config.__init__, read_bool,
--     read_int, read_str, Configs and parse_config; Outputs has FusesocOpts, QueryOpts, SimOpts and
--     the list of outputters in main.
--   IbexCmd: dv/uvm/core_ibex/scripts/ibex_cmd.py. Simulators has SIM_CFGS, _get_x_opts and its two
--     callers; Isa has get_isas_for_config; Filter has filter_tests_by_config.
--   LogCheck: Modes has Failure_Modes and TestRunResult of dv/uvm/core_ibex/scripts/test_run_result.py;
--     UvmLog has check_ibex_uvm_log of dv/uvm/core_ibex/riscv_dv_extension/ibex_log_to_trace_csv.py;
--     Operands has convert_operands_to_abi of the same file, and Trace its process_ibex_sim_log;
--     Verdict has compare_test_run of dv/uvm/core_ibex/scripts/check_logs.py; Collect has main of
--     collect_results.py with create_test_summary_dict of report_lib/util.py and the division of
--     gen_summary_line in report_lib/text.py; Report has the text report of these two files.
--   Conductor: dv/formal/conductor.py. Process has Process and ProcessFuture.cancel; Runner has
--     ProcessRunner: one round of poll, Events with all that happens to a runner over time, and Jobs
--     with the abstract steps that a round is made of; NameTree has split_by_prefixes and find_all;
--     Steps has group_by_step, missing_from, the completeness check of prove_mode and what info_mode
--     lists as unaccounted for; Stored has decode_strategy, load_strategy and store_strategy; Search
--     has race, prepare_aiger, explore and build_strategy_rec; Explore has construct_strategy, and its
--     child Mode explore_mode; Prove has run_strategy and prove_mode; Select has main up to the choice
--     of a mode.
--   Requirements: util/check_tool_requirements.py. Semver has the to_semver methods, Check has
--     get_version and check of ToolReq and its subclasses, Read has dict_to_tool_req and
--     read_tool_requirements, Main has main.
--   TestEntry: dv/uvm/core_ibex/scripts/test_entry.py, read_test_dot_seed and get_test_entry.
--   Metadata: dv/uvm/core_ibex/scripts/metadata.py, process_directed_testlist, get_tests_and_counts
--     and the TEST.SEED texts that _main gives to the runs; Args has arg_list_initializer with the
--     fields of the class, Runs what _main does to create the runs and to print their lists.
--   ScriptsLib: dv/uvm/core_ibex/scripts/scripts_lib.py, pprint_dict, subst_opt and subst_dict; Format
--     has format_to_str, format_to_cmd and format_dict_to_printable_dict, with get_run_cmd of
--     riscvdv_interface.py; RunOne has run_one.
--   DirectedTests: import_model of dv/uvm/core_ibex/scripts/directed_test_schema.py, with the
--     fields of DConfig and DTest and the validators of DirectedTestsYaml.
--   ToolCmds: get_tool_cmds of dv/uvm/core_ibex/scripts/riscvdv_interface.py and subst_env_vars of
--     scripts_lib.py.
--   RunInstrGen: dv/uvm/core_ibex/scripts/run_instr_gen.py. Reloc has reloc_word and reloc_commands,
--     Copies has do_file_copies, Main has _main.
--   CompileTest: dv/uvm/core_ibex/scripts/compile_test.py.
--   RunRtl: dv/uvm/core_ibex/scripts/run_rtl.py, _main.
--   Smt2Manip: dv/formal/smt2manip.py.
--   Stdlib: what Python's os.path, shlex and int do in these scripts.
--   Sv2v: util/sv2v_in_place.py. Paths has read_file_list, the three kinds of path and
--     parse_define_if; Transform has transform_one and transform; Main has main.
--   Tests: runs on small inputs.
--
-- Objects are records and methods are functions from the object before to the object after; a
-- Python exception is an error value of the module's own type. The lists of ProcessRunner are kept
-- with the end of the Python list in front. Memory is in bytes and time in milliseconds, where the
-- source keeps gigabytes and seconds as floats.
--
-- Fuel: `group` has as much as the longest name has chunks, and one more, and each level of it
-- takes one chunk away; `grow` has as many rounds as the step asked for, and one more, and each
-- round makes the list longer by one; `build_strategy_rec` has as much as its tree has lists and names,
-- and one more, and each call is on fewer of them.
--
-- Parameters: the YAML parser, gpr_to_abi, sint_to_hex, convert_pseudo_instr and get_imm_hex_val of
-- the vendored riscv-dv, what a command that run_one starts does to the files and how it ends, the
-- subprocess that runs ibex_config.py, `str` on a value in the FuseSoC and query outputs, the
-- conversion of a trace where check_logs.py calls it, opening a log, loading a pickle, the summary line
-- and the paths in the text report, the memory and the exit codes that the operating system shows, what
-- aig-manip and the solvers of the conductor answer, a run of sv2v and the regular expressions given to
-- it, what pydantic makes of the value of a field, which paths of directed tests exist, the output of a tool's version command, the version
-- attribute of a Python module, and the versions of the package `packaging`. Keys of a YAML mapping are
-- texts and there are no floats among its values. `strip` removes ASCII whitespace, and the regular
-- expressions know ASCII letters and digits. `int` reads digits with a sign. Two paths in a store of
-- files are two files.
--
-- Coroutines are values: what an awaitable comes to. Those of one `gather` are taken in the order of
-- the list.
--
-- Not modelled: argument parsing, logging, files but where they are named above, and the printing of
-- reports; bounded model checking in conductor.py; code under vendor.
pub mod Prelude
pub mod Tests
pub mod Stdlib
pub mod RunInstrGen
pub mod RunRtl
pub mod CompileTest
pub mod IbexConfig
pub mod IbexCmd
pub mod LogCheck
pub mod Conductor
pub mod Requirements
pub mod TestEntry
pub mod Metadata
pub mod ScriptsLib
pub mod DirectedTests
pub mod ToolCmds
pub mod Sv2v
pub mod Smt2Manip
