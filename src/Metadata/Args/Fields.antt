-- ===== src/Metadata/Args/Fields.antt =====
-- The fields of the class `RegressionMetadata` of metadata.py, with their types.
use emucpu.Prelude.{[], ◌∷◌}
use emucpu.Prelude.Text.{codes}
use emucpu.Prelude.Dict.{Dict}

-- The types as far as `arg_list_initializer` tells them apart.
pub data DeclaredType : Type 0 where
  str_type int_type bool_type path_type optional_int_type dict_type unsupported : DeclaredType

-- Whether the constructor takes the field from the pairs, takes it from the caller, or does not take
-- it at all.
pub data Given : Type 0 where
  settable by_caller not_given : Given

unfoldable pub fields : Dict (DeclaredType × Given)
fields =
    (codes "dir_out", (path_type, by_caller))
    ∷ (codes "dir_metadata", (path_type, by_caller))
    ∷ (codes "git_commit", (str_type, by_caller))
    ∷ (codes "creation_datetime", (unsupported, by_caller))
    ∷ (codes "pickle_file", (path_type, not_given))
    ∷ (codes "yaml_file", (path_type, not_given))
    ∷ (codes "raw_args_str", (str_type, settable))
    ∷ (codes "raw_args_dict", (dict_type, settable))
    ∷ (codes "seed", (int_type, settable))
    ∷ (codes "waves", (bool_type, settable))
    ∷ (codes "cov", (bool_type, settable))
    ∷ (codes "cosim", (bool_type, settable))
    ∷ (codes "simulator", (str_type, settable))
    ∷ (codes "iss", (str_type, settable))
    ∷ (codes "test", (str_type, settable))
    ∷ (codes "verbose", (bool_type, settable))
    ∷ (codes "iterations", (optional_int_type, settable))
    ∷ (codes "signature_addr", (str_type, settable))
    ∷ (codes "ibex_config", (str_type, settable))
    ∷ (codes "dut_cov_rtl_path", (str_type, settable))
    ∷ (codes "tests_and_counts", (unsupported, settable))
    ∷ (codes "isa_ibex", (unsupported, settable))
    ∷ (codes "isa_iss", (unsupported, settable))
    ∷ (codes "run_rtl_timeout_s", (int_type, settable))
    ∷ (codes "ibex_configs", (path_type, not_given))
    ∷ (codes "ibex_riscvdv_simulator_yaml", (path_type, not_given))
    ∷ (codes "ibex_riscvdv_customtarget", (path_type, not_given))
    ∷ (codes "ibex_riscvdv_testlist", (path_type, not_given))
    ∷ (codes "ibex_riscvdv_csr", (path_type, not_given))
    ∷ (codes "directed_test_dir", (path_type, not_given))
    ∷ (codes "directed_test_data", (path_type, not_given))
    ∷ (codes "riscvdv_build_log", (unsupported, settable))
    ∷ (codes "riscvdv_build_stdout", (unsupported, settable))
    ∷ (codes "riscvdv_build_cmds", (unsupported, settable))
    ∷ (codes "tb_build_log", (unsupported, settable))
    ∷ (codes "tb_build_stdout", (unsupported, settable))
    ∷ (codes "tb_build_cmds", (unsupported, settable))
    ∷ (codes "riscvdv_fcov_log", (unsupported, settable))
    ∷ (codes "riscvdv_fcov_stdout", (unsupported, settable))
    ∷ (codes "riscvdv_fcov_cmds", (unsupported, settable))
    ∷ (codes "cov_merge_db_list", (unsupported, settable))
    ∷ (codes "cov_merge_log", (unsupported, settable))
    ∷ (codes "cov_merge_stdout", (unsupported, settable))
    ∷ (codes "cov_merge_cmds", (unsupported, settable))
    ∷ (codes "cov_report_log", (unsupported, settable))
    ∷ (codes "cov_report_stdout", (unsupported, settable))
    ∷ (codes "cov_report_cmds", (unsupported, settable))
    ∷ (codes "regr_log", (unsupported, settable))
    ∷ (codes "regr_log_junit", (unsupported, settable))
    ∷ (codes "regr_log_junit_merged", (unsupported, settable))
    ∷ (codes "environment_variables", (dict_type, not_given))
    ∷ (codes "ibex_root", (path_type, not_given))
    ∷ (codes "riscvdv_root", (path_type, not_given))
    ∷ (codes "ot_lowrisc_ip", (path_type, not_given))
    ∷ (codes "ot_xcelium_cov_scripts", (path_type, not_given))
    ∷ (codes "ibex_dv_root", (path_type, not_given))
    ∷ (codes "dir_build", (path_type, not_given))
    ∷ (codes "dir_instruction_generator", (path_type, not_given))
    ∷ (codes "dir_tb", (path_type, not_given))
    ∷ (codes "dir_run", (path_type, not_given))
    ∷ (codes "dir_cov", (path_type, not_given))
    ∷ (codes "dir_fcov", (path_type, not_given))
    ∷ (codes "dir_shared_cov", (path_type, not_given))
    ∷ (codes "dir_cov_merged", (path_type, not_given))
    ∷ (codes "dir_cov_report", (path_type, not_given))
    ∷ (codes "tests_pickle_files", (unsupported, not_given))
    ∷ []
