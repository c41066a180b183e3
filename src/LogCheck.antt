-- ===== src/LogCheck.antt =====
-- The verdict on a simulation run: the UVM log (riscv_dv_extension/ibex_log_to_trace_csv.py), the
-- test's result (scripts/check_logs.py) and the summary of a regression
-- (scripts/collect_results.py and scripts/report_lib/util.py), all under dv/uvm/core_ibex.
pub mod Modes
pub mod UvmLog
pub mod Verdict
pub mod Collect
pub mod Operands
pub mod Trace
pub mod Report
