-- ===== src/Record.antt =====
-- database/record: the metadata of a record, its key, and its binary form.
pub mod Meta
pub mod GenCode
pub mod Key
pub mod Wrapper
mod Tests
