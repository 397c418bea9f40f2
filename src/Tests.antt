-- ===== src/Tests.antt =====
-- Runs at concrete inputs, and each theorem at an input that meets its hypotheses.
mod Crates
mod RangeMaps
mod Inlines
mod StackWins
mod Cfis
mod Wins
mod Files
mod Numbers
mod Equalities
mod Unwinds
mod Contexts
mod Amd64s
mod Arms
mod Walkers
mod Dumps
mod Modules
mod Symbolized
