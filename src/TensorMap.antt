-- ===== src/TensorMap.antt =====
-- python/metatensor_core/metatensor/tensor.py and metatensor-core/src/tensor/mod.rs: the map from
-- keys to blocks.
pub mod Core
pub mod Selection
pub mod Lookup
pub mod Keys
pub mod All
