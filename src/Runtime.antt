-- ===== src/Runtime.antt =====
-- The C runtime under runtime/, which runtime/dmc_runtime.c includes file by file.
pub mod Core
pub mod Mem
pub mod Fs
pub mod Net
pub mod Leaves
pub mod Calls
pub mod Smoke
