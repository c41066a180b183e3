-- ===== src/Requirements.antt =====
-- util/check_tool_requirements.py: tool versions and the check of what is installed.
pub mod Semver
pub mod Check
pub mod Read
pub mod Main
