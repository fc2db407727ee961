-- ===== src/Lib.antt =====
-- A model of radicle-git: the crates of this repository that check, build and take apart Git
-- reference names, the transactions of git-storage that update references, the commits and their
-- authors, what radicle-surf reads of a repository (lists of branches, tags and namespaces by
-- globs, the history, diffs, directories and trees), and of link-git the reading of packs and of
-- references.
--
-- How the parts interact: `ref_format` (check.rs) decides which texts are names. `RefStr`,
-- `RefString` and `PatternString` are texts that it has passed; name.rs, deriv.rs and refspec.rs
-- build new ones from these without another check, so that the theorems state when the result
-- would pass. A qualified name (deriv.rs) begins with refs/<category>/, a namespaced one puts a
-- qualified name behind refs/namespaces/<ns>/. radicle-surf reads branches from qualified names
-- whose namespaces are taken off; its globs are qualified patterns, its diffs and directories are
-- read from those of libgit2. git-storage updates references by name within a transaction of
-- libgit2. The object database of link-git (odb.rs) looks an object up in the index of packs,
-- which gets the pack from the cache, and asks for loose objects else.
--
-- The files and what they model:
--   Base/*                texts as lists of code points with the operations of `str` that the
--                         code calls (split, rfind, strip_prefix, truncate, ends_with), `Result`
--                         with `?` as bind, Boolean tests on native numbers, `BTreeMap` as a list
--                         in the order of its keys (Base/Map)
--   RefFormat/Check       radicle-git-ext/git-ref-format/core/src/check.rs, `ref_format`: the loop
--                         over parts as `check_parts`, that over characters as `scan`, the match
--                         on a character as `judge`
--   RefFormat/Name        .../core/src/name.rs and name/iter.rs: `RefStr`, `RefString`, `Component`
--   RefFormat/Lit         .../core/src/lit.rs: `KnownLit` and `SomeLit`
--   RefFormat/Deriv       .../core/src/deriv.rs: `Qualified` and `Namespaced`
--   RefFormat/Refspec     .../core/src/refspec.rs and refspec/iter.rs: patterns, their components
--                         (`Piece`), qualified and namespaced patterns, `Refspec`
--   Storage/Previous      git-storage/src/refdb/write/previous.rs: `Edit`, `Remove` and their guards
--   Storage/Refdb         git-storage/src/refdb.rs, refdb/write.rs, backend/read.rs: the data of
--                         references and updates, `find_reference`, `resolve`, and libgit2 as the
--                         record `Git`
--   Storage/Edits         git-storage/src/backend/write.rs: `Transaction::lock`, `direct_edit`,
--                         `symbolic_edit`, `remove_edit`, `is_ff`
--   Storage/Transaction   the same file: `direct`, `symbolic` and `remove` of `Transaction` as
--                         `direct_update`, `symbolic_update`, `remove_update`, and `update`
--   Ext/Decimal           the integers of Rust as `Display` and `FromStr` write and read them, with
--                         overflow by the number of bits
--   Ext/Author            radicle-git-ext/src/author.rs: `Author`, printed and parsed
--   Ext/Commit            radicle-git-ext/src/commit.rs, commit/headers.rs, commit/trailers.rs: the
--                         data and the texts; Ext/Commit/Format has the printer `fmt_commit` and
--                         the parser `parse_commit`
--   Surf/Branch           radicle-surf/src/branch.rs: `Branch`, `Local`, `Remote` and their `FromStr`
--   Surf/Namespace        radicle-surf/src/namespace.rs: `Namespace`, put around names
--                         (`add_namespaces`), read off them (`namespace_of`), and put around patterns
--                         (`to_namespaced_pattern`)
--   Surf/Tag              radicle-surf/src/tag.rs: `Tag`, read from references
--   Surf/Refs             radicle-surf/src/refs.rs: the iterators over several lists of references
--   Surf/Repo             radicle-surf/src/repo.rs: `branches`, `tags`, `categories` and `namespaces`
--   Surf/History          radicle-surf/src/history.rs: `History`, with `last_commit` of repo.rs
--   Surf/Diff             radicle-surf/src/diff.rs: the data of a diff; Surf/Diff/Files its lists of
--                         files by kind
--   Surf/Diff/Git         radicle-surf/src/diff/git.rs: `read_diff` and its parts, which read a diff
--                         of libgit2 (Surf/Diff/Libgit)
--   Surf/Fs               radicle-surf/src/fs.rs: `Directory` with `entries`, `find_entry`,
--                         `traverse` and `size`, and `File`
--   Surf/Tree             radicle-surf/src/tree.rs and the reading of trees in repo.rs
--   Surf/Glob             radicle-surf/src/glob.rs
--   Link/Take             archived/link-git/src/protocol/take.rs: the reader with a limit
--   Link/Refdb            archived/link-git/src/refs/db.rs: `follow`, and the snapshots of packed
--                         references
--   Link/Window           archived/link-git/src/odb/window.rs and window/metrics.rs: `Fixed`, the
--                         cache of packs
--   Link/Index            archived/link-git/src/odb.rs, odb/index.rs, index/metrics.rs, and `Index` of
--                         odb/pack.rs: `Shared` and `Odb`
-- Below each of these, a file per group of laws; the files Tests hold runs and examples.
--
-- libgit2 is the record `Git`: functions that read the repository as it is before the commit, and
-- `answer`, the error if any that a call on the transaction meets, which may depend on all calls
-- before it. In Ext/Commit it is the record `Libgit`: identifiers as texts, and the trailers of a
-- message. In radicle-surf it is the records `Repository`, `GitRepo` and `Commits`, with what
-- each part reads; an iterator of libgit2 is the list of what it gives. A panic of a conversion
-- unwinds out of the iterators of Surf/Refs. The state of a transaction is the `Trace` of its
-- calls. An error drops the transaction, so that a result with an error holds no trace. Nothing
-- is assumed of `Git`; of `Libgit`, that identifiers are read back.
--
-- Conventions. A text is the list of its code points, so an index is a number of characters and
-- not of bytes; the code cuts texts only at characters that it found itself. A panic is a value
-- of `Panic`. `PhantomData` and lifetimes leave no trace. A reference type and its owned type are
-- one type of the model. The `Extend` and `FromIterator` instances for other item types differ in
-- types only. Sums and counters of machine integers wrap around, where a build with overflow
-- checks would panic; debug assertions are left out. A path is the list of its components, in
-- Surf/History its text. Where link-git waits for a lock, other threads run: what they do to the
-- shared state is a function that the theorems leave open, or constrain by what each thread
-- keeps; the index of packs is taken to be used by one thread.
--
-- Fuel: traversal and size of a directory take the depth of the directory as their fuel, and the
-- theorems state that it is enough. `follow` of link-git counts down from five in the code
-- itself. The iterators of radicle-surf get as many rounds as there are lists left, which is the
-- condition of their loop. `strip_namespace_recursive`, and `From<Namespaced>` of namespace.rs
-- (`gather`), loop while a name is namespaced. The model gives them one unit for each component
-- of the name; each round takes three components off, so the fuel is enough, and the theorems
-- state that a result comes.
--
-- Not modelled: the serde, CBOR and percent-encoding instances and the macros (they wrap the
-- functions modelled here); the object database and the iterators of git-storage and the facade
-- of radicle-surf's repo.rs but for trees, lists of references and the last commit, which pass
-- calls on to libgit2; the rest of radicle-git-ext, which extends types of git2; the protocol of
-- link-git, which drives gitoxide asynchronously; the other archived crates, and the test
-- helpers.
pub mod Base
pub mod RefFormat
pub mod Ext
pub mod Surf
pub mod Link
pub mod Storage
