-- ===== src/SymFile.antt =====
-- breakpad-symbols/src/sym_file: symbol files, their parser, their queries and the evaluators of
-- unwind rules.
pub mod Search
pub mod Types
pub mod Tokens
pub mod FrameWalker
pub mod Cfi
pub mod Win
pub mod Queries
pub mod Parser
