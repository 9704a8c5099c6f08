-- ===== src/Operations.antt =====
-- python/metatensor_operations/metatensor/operations: functions on tensor maps.
pub mod Dispatch
pub mod Share
pub mod Blocks
pub mod KeptRows
pub mod Kept
pub mod Metadata
pub mod MapMetadata
pub mod SameBlocks
pub mod SameMetadata
pub mod Manipulate
pub mod KeyDimensions
pub mod Checks
pub mod Rebuild
pub mod Indexing
pub mod Slice
pub mod Masks
pub mod Split
pub mod SlicedProperties
pub mod SliceProperties
pub mod Picked
pub mod Renumber
pub mod FollowedSamples
pub mod SliceSamples
pub mod SplitSlices
pub mod Derived
pub mod RemoveGradients
pub mod Storage
pub mod Contiguous
pub mod Filled
pub mod FilledGradients
pub mod Arithmetic
pub mod Sums
pub mod CheckedSums
pub mod Equal
pub mod EqualBlocks
pub mod Allclose
pub mod EqualAllclose
pub mod Products
pub mod ProductMaps
pub mod UniqueMetadata
pub mod UniqueRows
pub mod InsertDimension
pub mod InsertedSamples
