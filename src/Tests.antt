-- ===== src/Tests.antt =====
-- The examples of the documentation, and the theorems at concrete inputs that meet their
-- hypotheses.
mod Inputs
mod OfLabels
mod OfBlocks
mod OfMaps
mod OfChecks
mod Grids
mod Sorting
mod OfOperations
