-- ===== src/Sv2v.antt =====
-- util/sv2v_in_place.py: translating the SystemVerilog files of a tree in place.
pub mod Paths
pub mod Transform
pub mod Main
