-- ===== src/Surf.antt =====
-- radicle-surf: branches, tags, namespaces, globs, references, diffs, directories and trees.
pub mod Branch
pub mod Tag
pub mod Refs
pub mod Repo
pub mod History
pub mod Namespace
pub mod Diff
pub mod Glob
pub mod Fs
pub mod Tree
mod Tests
