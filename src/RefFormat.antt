-- ===== src/RefFormat.antt =====
-- The crate git-ref-format-core (radicle-git-ext/git-ref-format/core): reference names and patterns.
pub mod Check
pub mod Name
pub mod Deriv
pub mod Lit
pub mod Refspec
mod Tests
