-- ===== src/RunInstrGen.antt =====
-- dv/uvm/core_ibex/scripts/run_instr_gen.py: the commands that riscv-dv would run, moved to the
-- directories of the built generator, and what they leave behind.
pub mod Reloc
pub mod Copies
pub mod Main
