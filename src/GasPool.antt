-- ===== src/GasPool.antt =====
-- The gas pool: src/gas_pool/gas_pool_core.rs. `Validity` and `Usage` are its pure parts, `Core` its
-- state and methods.
pub mod Validity
pub mod Usage
pub mod Core
