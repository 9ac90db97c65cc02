-- ===== src/Orm.antt =====
-- The ORM load generator (load-generator-orm): what it learns of a schema.
pub mod Introspect
pub mod Operations
pub mod Running
mod Tests
