-- ===== src/Memory.antt =====
-- `internal/core/memory`: pages, tuples, replacers and the buffer pool.
pub mod Page
pub mod Serializer
pub mod Slot
pub mod Keys
pub mod Replacer
pub mod Lru
pub mod Clock
pub mod Disk
pub mod Pool
