-- ===== src/Surf/Diff/Libgit.antt =====
-- Diffs, patches and lines of libgit2, as radicle-surf/src/diff/git.rs reads them.
use radicle_git.Base.{ℕ, Bool, List, Option, Result, Str}
use radicle_git.Storage.Previous.{Oid}
use radicle_git.Surf.Diff.{Stats}

-- The values of libgit2, as the code reads them. `other` is any value that the code does not name.
pub data GitFileMode : Type 0 where
  blob blob_executable tree link commit : GitFileMode
  other : ℕ → GitFileMode

pub data Delta : Type 0 where
  added deleted modified renamed copied : Delta
  other : ℕ → Delta

pub data DiffLineType : Type 0 where
  context_eofnl add_eofnl delete_eofnl : DiffLineType
  other : ℕ → DiffLineType

pub record GitLine : Type 0 where
  pub origin_value : DiffLineType
  pub old_lineno : Option ℕ
  pub new_lineno : Option ℕ
  pub content : Str

pub record GitHunk : Type 0 where
  pub header : Str
  pub old_start : ℕ
  pub old_lines : ℕ
  pub new_start : ℕ
  pub new_lines : ℕ

pub record Patch (E : Type 0) : Type 0 where
  pub num_hunks : ℕ
  pub hunk : ℕ → Result E (GitHunk × ℕ)
  pub line_in_hunk : ℕ → ℕ → Result E GitLine

-- `is_binary` is asked before the patch of the file is read, or after it.
pub record GitDiffFile : Type 0 where
  pub mode : GitFileMode
  pub id : Oid
  pub path : Option Str
  pub is_binary : (patched : Bool) → Bool

pub record DiffDelta : Type 0 where
  pub status : Delta
  pub old_file : GitDiffFile
  pub new_file : GitDiffFile

pub record GitDiff (E : Type 0) : Type 0 where
  pub stats : Result E Stats
  pub deltas : List DiffDelta
  pub patch : ℕ → Result E (Option (Patch E))
