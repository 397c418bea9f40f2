-- ===== src/Minidump.antt =====
-- The crate minidump: how a dump's streams are found and read.
pub mod Errors
pub mod Scroll
pub mod Slices
pub mod Lists
pub mod Header
pub mod Indexed
pub mod Memory
pub mod Infos
pub mod Strings
pub mod CodeViews
pub mod Modules
pub mod Unloaded
