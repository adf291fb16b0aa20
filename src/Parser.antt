-- ===== src/Parser.antt =====
-- `class Parser` of compiler/dmc.cpp: the state, the primitives, and each parsing function.
pub mod State
pub mod Types
pub mod Returns
pub mod Runs
pub mod Fold
pub mod Expression
pub mod Statement
pub mod Declaration
pub mod Source
pub mod Merge
pub mod Import
pub mod Load
