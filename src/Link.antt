-- ===== src/Link.antt =====
-- archived/link-git: the limited reader, the references, the cache of packs and their index.
pub mod Take
pub mod Refdb
pub mod Window
pub mod Index
