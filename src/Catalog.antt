-- ===== src/Catalog.antt =====
-- The catalog's records (`internal/core/catalog/model`) and their byte encodings.
pub mod Error
pub mod Text
pub mod TypeDefinition
pub mod ColumnDefinition
pub mod TableDefinition
pub mod IndexDefinition
