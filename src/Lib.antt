-- ===== src/Lib.antt =====
-- A model of how rust-minidump reads a dump, uses symbol files and unwinds stacks, with the theorems
-- that make it correct.
--
-- rust-minidump reads a minidump (the crate minidump): a header, a directory, and streams that the
-- directory points at, among them the lists of modules and of memory regions. It unwinds the stacks
-- of the threads (minidump-unwind) with the help of Breakpad symbol files (breakpad-symbols), and
-- writes a report (minidump-processor, minidump-stackwalk). A symbol file is parsed once into maps from
-- address ranges to records; then it is asked two questions about an address: what source it belongs to
-- (fill_symbol), and how the frame that executes it is unwound (walk_frame). Unwinding evaluates
-- postfix programs that the file holds, on a walker that shows the callee's registers and memory and
-- takes the caller's.
--
-- Files, and the code that they are about:
--   Base            what every module shares: comparisons, lists, bytes, hash maps as association
--                   lists, wrapping and checked arithmetic, the bind of `?`
--   Ranges          the crate range_map, as a parameter
--   RangeMapSafe    minidump-common/src/traits.rs, into_rangemap_safe, and its copy in
--                   breakpad-symbols/src/sym_file/parser.rs
--   SymFile/Types   breakpad-symbols/src/sym_file/types.rs, the records and their lookups
--   SymFile/Search  slice::binary_search_by_key, by its documented contract, as a parameter
--   SymFile/Parser  breakpad-symbols/src/sym_file/parser.rs, parse_more on lines that have
--                   been read, insert_win_stack_info, finish_item, finish, decimal_u32
--   SymFile/Tokens  what the evaluators use of str: words, affixes, signed numbers
--   SymFile/FrameWalker, SymFile/Cfi, SymFile/Win
--                   breakpad-symbols/src/lib.rs, the trait FrameWalker, and
--                   breakpad-symbols/src/sym_file/walker.rs: STACK CFI and STACK WIN
--   SymFile/Queries breakpad-symbols/src/sym_file/mod.rs: fill_symbol, walk_frame,
--                   find_nearest_public, over the traits FrameSymbolizer and FrameWalker
--   Unwind/Contexts minidump/src/context.rs, the trait CpuContext, and the registers of x86, amd64, arm
--                   and arm64 by their names and aliases
--   Unwind/Walker, Unwind/Frames
--                   minidump-unwind/src/lib.rs: the walker of a real frame over any context, stack
--                   frames, the loop over the stack, and what all get_caller_frame share: the scan, the
--                   tests at the end
--   Unwind/X86, Unwind/Amd64, Unwind/Arm, Unwind/Arm64
--                   minidump-unwind/src/x86.rs, amd64.rs, arm.rs, arm64.rs: the three ways to find a
--                   caller, and what is particular to the architecture
--   Unwind/Symbols  breakpad-symbols/src/lib.rs, Symbolizer::walk_frame and fill_symbol, and the
--                   implementations of FrameSymbolizer in minidump-unwind/src/lib.rs: the symbol provider
--                   that a module list and parsed symbol files make
--   Minidump/Scroll, Minidump/Slices, Minidump/Lists, Minidump/Header
--                   minidump/src/minidump.rs: bounded slices of the dump, streams that are lists, the
--                   header, the directory and get_raw_stream, over the crate scroll as a parameter, with
--                   the structures of minidump-common/src/format.rs
--   Minidump/Indexed
--                   minidump/src/minidump.rs, the maps from addresses to indices that its lists share,
--                   made by into_rangemap_safe
--   Minidump/Memory, Minidump/Infos
--                   minidump/src/minidump.rs: memory lists of both kinds and reads from a region; memory
--                   infos, the mappings of Linux, and the view over both
--   Minidump/Strings, Minidump/CodeViews, Minidump/Modules, Minidump/Unloaded
--                   minidump/src/minidump.rs: UTF-16 strings and thread names, CodeView records and debug
--                   ids, modules and unloaded modules
--   Tests           runs at concrete inputs, and each result below at an input that it covers
--
-- How the code is read:
--   - An integer is a natural number below its modulus. wrapping_* is written with `%`, checked_* and
--     `?` with Option. A plain `+` or `-` panics on overflow when the build has overflow checks and
--     wraps when it has not: a Boolean `checks` says which.
--   - `none`, or the constructor `panicked`, stands for a panic where the code has unwrap,
--     unreachable! or a plain operation that overflows.
--   - A `&mut dyn` object is a state that every method takes and returns, also where it fails.
--   - A text is the list of its bytes. A vector under construction is kept last element first, where
--     the code pushes and looks at its last element.
--   - A HashMap is an association list with one entry for a key; where the code goes through one, in an
--     order of its own, the model follows the list.
--   - The loop over the depths of inlined calls in fill_symbol has one round of fuel more than the
--     largest depth, which is enough. walk_stack has a round for every value of the stack pointer, which
--     are enough because it grows with every frame; on arm and arm64, where it may stay in the frame of
--     the context, it has twice as many.
--   - A set of register names is its membership test. In a set of valid names every name is a
--     register's, so that the unreachable! of get_register_always, a `none` here, is not reached.
--   - The symbol provider of the unwinder, the modules and the stack memory are an interface
--     (Unwind/Frames, Provider); what is asked of it is Unwind/Frames/Progress, IsSound, and
--     Unwind/Symbols fills it, with proofs that no call of the symbol code panics.
--   - `usize` has 64 bits. What the crates scroll, encoding_rs, uuid, debugid, bitflags and procfs_core
--     do is a parameter; of scroll it is assumed that a read succeeds exactly if the bytes are there. The
--     reading of a structure's fields that is derived by a macro is a parameter too (Layout), unless the
--     fields are few. A list is read into `ok none` where into_rangemap_safe would panic.
--
-- Not modelled: the line parsers of the symbol file (over the crate nom), so that a line is given with
-- what they read in it, and the buffer that feeds them, file and network access, the streams of a dump
-- that are not named above (threads, handles, exceptions, system and misc info, the Crashpad info),
-- the unwinder of mips, the report, and everything that only prints. arm64_old.rs is arm64.rs with
-- other names of types. The fields ambiguities_repaired, ambiguities_discarded, corruptions_discarded
-- and cfi_eval_corruptions of SymbolFile are left out: no code reads them for a decision.
pub mod Base
pub mod Ranges
pub mod RangeMapSafe
pub mod SymFile
pub mod Unwind
pub mod Minidump
mod Tests
