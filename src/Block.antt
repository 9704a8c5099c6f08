-- ===== src/Block.antt =====
-- python/metatensor_core/metatensor/block.py and metatensor-core/src/blocks.rs: the blocks of a
-- tensor map, with their gradients.
pub mod Core
pub mod Valid
pub mod Gradients
pub mod Acceptance
pub mod Object
pub mod Moves
