-- ===== src/IbexCmd.antt =====
-- dv/uvm/core_ibex/scripts/ibex_cmd.py: simulator options, ISA strings and the selection of tests
-- for a configuration.
pub mod Simulators
pub mod Isa
pub mod Filter
