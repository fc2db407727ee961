-- ===== src/Ext.antt =====
-- radicle-git-ext: the author of a commit.
pub mod Decimal
pub mod Author
pub mod Commit
mod Tests
