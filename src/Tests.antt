-- ===== src/Tests.antt =====
-- Runs of the modelled tools on small inputs: configurations, test lists, logs and processes.
mod Config
mod Cmd
mod Logs
mod Conductor
mod Runner
mod Prove
mod Select
mod DirectedTests
mod ToolCmds
mod Search
mod Sv2v
mod Requirements
mod Metadata
mod RunInstrGen
mod Smt2Manip
mod Trace
mod RunRtl
mod CompileTest
