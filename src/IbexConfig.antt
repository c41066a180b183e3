-- ===== src/IbexConfig.antt =====
-- util/ibex_config.py: reading a named core configuration from a YAML file, and writing its
-- parameters as command-line options.
pub mod Value
pub mod Fields
pub mod Reader
pub mod Outputs
