-- ===== src/Parser/Runs.antt =====
-- Runs of the member functions of `class Parser`: the tokens that they pass, and the fields that they
-- leave alone.
mod Steps
mod Primitives
mod Scopes
pub use Steps.*
pub use Primitives.*
pub use Scopes.*
