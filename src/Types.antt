-- ===== src/Types.antt =====
-- The variant and matrix types (include/core_types, src/lib/core_types).
pub mod Double
pub mod Value
pub mod Heap
pub mod Matrix
pub mod Variant
pub mod Operators
pub mod Wrapper
pub mod Printing
