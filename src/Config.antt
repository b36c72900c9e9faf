-- ===== src/Config.antt =====
-- The configuration file: its syntax, the tree of settings, and the lookup of a path. (config_parser.c)
pub mod Cursor
pub mod Setting
mod Tests
pub mod Parser
pub mod Lookup
