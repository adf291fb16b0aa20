-- ===== src/Emitted.antt =====
-- The containers of the runtime library that `emit_runtime` of compiler/dmc.cpp writes as C text: what
-- that C does. A `long long` is the number of its 64 bits, and an `int` that of its 32.
pub mod Handles
pub mod Vec
pub mod Queue
pub mod Map
pub mod Arena
pub mod Memory
pub mod Sockets
pub mod Streams
pub mod Db
pub mod Regex
pub mod Numerals
pub mod System
pub mod Math
pub mod Isr
pub mod Text
pub mod Http
pub mod Json
