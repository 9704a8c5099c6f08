-- ===== src/Labels.antt =====
-- python/metatensor_core/metatensor/labels.py and metatensor-core/src/labels.rs: the sets of
-- labels that describe the keys of a tensor map and the dimensions of its blocks.
pub mod Names
pub mod Rows
pub mod Core
pub mod Valid
pub mod Sets
pub mod Mappings
pub mod Equality
pub mod Union
pub mod Intersection
pub mod Positions
pub mod Selection
pub mod Dimensions
pub mod Editing
pub mod Insertion
