-- ===== src/Examples.antt =====
-- Concrete machines on which the theorems are applied, and runs of the definitions.
mod Cores
mod Pipelines
mod Maps
mod Store
mod Blocks
mod Csrs
mod Units
