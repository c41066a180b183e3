-- ===== src/Conductor.antt =====
-- dv/formal/conductor.py: running proof processes within the machine's memory and cores, and
-- dividing the properties to prove.
pub mod Process
pub mod Runner
pub mod NameTree
pub mod Steps
pub mod Stored
pub mod Search
pub mod Explore
pub mod Prove
pub mod Select
