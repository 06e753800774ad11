-- ===== src/Cel.antt =====
-- src/repositories/cel_to_sql: from a CEL expression tree to an SQL filter.
pub mod Ast
pub mod Metadata
pub mod Meaning
pub mod Mapper
pub mod Sql
pub mod Convert
pub mod Validate
pub mod Converter
