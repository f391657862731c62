-- ===== src/Adapters.antt =====
-- The adapters between the library and a database driver: src/adapters. A statement is the list of
-- its UTF-16 code units.
pub mod Sqlite
pub mod Bun
