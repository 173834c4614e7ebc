-- ===== src/Catalog/Read.antt =====
-- src/catalog/read.rs: the catalog's text as entries, defaults and problems. The parser of TOML
-- is a parameter: the model starts from its table.
pub mod Merging
pub mod Defaults
pub mod Entries
pub mod Reporting
pub mod Inheriting
mod Tests
