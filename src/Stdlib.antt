-- ===== src/Stdlib.antt =====
-- Functions of Python's standard library on the texts of paths and of command lines, as the scripts
-- use them.
pub mod OsPath
pub mod Shlex
pub mod Hex
