-- ===== src/Storage.antt =====
-- git-storage: references of a repository, and transactions that update them.
pub mod Previous
pub mod Refdb
pub mod Edits
pub mod Transaction
mod Tests
