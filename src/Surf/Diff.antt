-- ===== src/Surf/Diff.antt =====
-- radicle-surf/src/diff.rs: the data of a diff, and the insertion of files into it.
pub mod Files
pub mod Libgit
pub mod Git
mod Tests
use radicle_git.Base.{ℕ, List, [], ◌∷◌, ◌++◌, Option, none, some, Str}
use radicle_git.Storage.Previous.{Oid}

pub data FileMode : Type 0 where
  blob blob_executable tree link commit : FileMode

pub record DiffFile : Type 0 where
  pub oid : Oid
  pub mode : FileMode

-- A line is its bytes.
abbrev pub Line : Type 0
Line = Str

pub record Addition : Type 0 where
  pub line : Line
  pub line_no : ℕ

pub record Deletion : Type 0 where
  pub line : Line
  pub line_no : ℕ

pub data Modification : Type 0 where
  addition : Addition → Modification
  deletion : Deletion → Modification
  context : (line : Line) (line_no_old line_no_new : ℕ) → Modification

-- `Range<u32>`
pub record Range : Type 0 where
  pub start : ℕ
  pub end : ℕ

pub record Hunk (T : Type 0) : Type 0 where
  pub header : Line
  pub lines : List T
  pub old : Range
  pub new : Range

abbrev pub Hunks : Type 0 → Type 0
Hunks T = List (Hunk T)

pub data EofNewLine : Type 0 where
  old_missing new_missing both_missing none_missing : EofNewLine

pub data DiffContent : Type 0 where
  binary : DiffContent
  plain : (hunks : Hunks Modification) (eof : EofNewLine) → DiffContent
  empty : DiffContent

-- `DiffContent::eof`
unfoldable pub eof : DiffContent → Option EofNewLine
eof binary = none
eof (plain hunks e) = some e
eof empty = none

pub record Added : Type 0 where
  pub path : Str
  pub diff : DiffContent
  pub new : DiffFile

pub record Deleted : Type 0 where
  pub path : Str
  pub diff : DiffContent
  pub old : DiffFile

pub record Moved : Type 0 where
  pub old_path : Str
  pub new_path : Str
  pub diff : DiffContent

pub record Copied : Type 0 where
  pub old_path : Str
  pub new_path : Str
  pub diff : DiffContent

pub record Modified : Type 0 where
  pub path : Str
  pub diff : DiffContent
  pub old : DiffFile
  pub new : DiffFile

pub data FileDiff : Type 0 where
  added : Added → FileDiff
  deleted : Deleted → FileDiff
  modified : Modified → FileDiff
  moved : Moved → FileDiff
  copied : Copied → FileDiff

pub record Stats : Type 0 where
  pub files_changed : ℕ
  pub insertions : ℕ
  pub deletions : ℕ

pub record Diff : Type 0 where
  pub files : List FileDiff
  pub stats : Stats

-- `Diff::new`, the default of each field.
abbrev pub diff_new : Diff
diff_new = record {
  files = [];
  stats = record { files_changed = 0; insertions = 0; deletions = 0 };
}

abbrev pub push_file : Diff → FileDiff → Diff
push_file d f = record d { files = d.files ++ f ∷ [] }

unfoldable pub insert_modified : Diff → Str → DiffContent → DiffFile → DiffFile → Diff
insert_modified d p c o n = push_file d (modified (record { path = p; diff = c; old = o; new = n }))

unfoldable pub insert_moved : Diff → Str → Str → Diff
insert_moved d o n = push_file d (moved (record { old_path = o; new_path = n; diff = empty }))

unfoldable pub insert_copied : Diff → Str → Str → Diff
insert_copied d o n = push_file d (copied (record { old_path = o; new_path = n; diff = empty }))

unfoldable pub insert_added : Diff → Str → DiffContent → DiffFile → Diff
insert_added d p c n = push_file d (added (record { path = p; diff = c; new = n }))

unfoldable pub insert_deleted : Diff → Str → DiffContent → DiffFile → Diff
insert_deleted d p c o = push_file d (deleted (record { path = p; diff = c; old = o }))
