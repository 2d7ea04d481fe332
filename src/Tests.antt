-- ===== src/Tests.antt =====
-- Runs on fixed inputs, and the theorems at concrete arguments.
mod MemoryDisk
mod Codecs
mod Pools
mod Queries
mod Sql
mod Btree
mod Tree
