-- ===== src/Config.antt =====
-- internal/config: the checks of the configuration, the lists in its variables, and the database of
-- what is set while the gateway runs.
pub mod Validate
pub mod Table
pub mod Store
pub mod Examples
