-- ===== src/Unwind.antt =====
-- The crate minidump-unwind.
pub mod Contexts
pub mod Walker
pub mod Frames
pub mod X86
pub mod Symbols
pub mod Amd64
pub mod Arm
pub mod Arm64
