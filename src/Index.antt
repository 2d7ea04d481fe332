-- ===== src/Index.antt =====
-- `internal/core/index`
pub mod Keys
pub mod Order
pub mod Bounds
pub mod Leaf
pub mod Position
pub mod Inserted
pub mod Insertion
pub mod Node
pub mod NodeReads
pub mod NodeSizes
pub mod NodeCodec
pub mod Search
pub mod Meta
pub mod Limits
pub mod Ranges
pub mod Chain
pub mod Tree
pub mod Descent
pub mod Whole
pub mod RangeSearch
pub mod Lookup
