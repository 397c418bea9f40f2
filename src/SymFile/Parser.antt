-- ===== src/SymFile/Parser.antt =====
-- breakpad-symbols/src/sym_file/parser.rs: the state of `SymbolParser` and what it does with the
-- records of the file.
pub mod StackWin
pub mod Finish
pub mod Numbers
pub mod Lines
