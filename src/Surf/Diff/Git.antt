-- ===== src/Surf/Diff/Git.antt =====
-- radicle-surf/src/diff/git.rs: a diff of libgit2 read as a diff of this crate.
pub mod Described
pub mod Sound
pub mod Deltas
pub mod Complete
use Prim.Native.Nat.{◌%◌, ◌^◌}
use radicle_git.Base.{
  ℕ, zero, suc, ◌+◌, Bool, true, false, List, [], ◌∷◌, ◌++◌, Option, none, some, if◌then◌else◌,
  Result, ok, err, ◌>>=◌, map_err, ok_or, Str,
}
use radicle_git.Storage.Previous.{Oid}
use radicle_git.Surf.Diff.{
  FileMode, DiffFile, Modification, addition, deletion, context, Range, Hunk, EofNewLine,
  old_missing, new_missing, both_missing, none_missing, DiffContent, plain, binary, Stats, Diff,
  insert_added, insert_deleted, insert_modified, insert_moved, insert_copied,
}
use radicle_git.Surf.Diff.Libgit.{
  GitFileMode, Delta, DiffLineType, GitLine, GitHunk, Patch, GitDiffFile, DiffDelta, GitDiff,
}

-- The errors of the module `error`, but for the variants that nothing returns.
pub data FileModeError : Type 0 where
  unknown : GitFileMode → FileModeError

pub data ModificationError : Type 0 where
  invalid : ModificationError

pub data HunkError (E : Type 0) : Type 0 where
  git : E → HunkError E
  line : ModificationError → HunkError E

pub data DiffError (E : Type 0) : Type 0 where
  delta_unhandled : Delta → DiffError E
  git : E → DiffError E
  file_mode : FileModeError → DiffError E
  hunk : HunkError E → DiffError E
  patch_unavailable : Str → DiffError E
  path_unavailable : DiffError E

-- `TryFrom<git2::FileMode> for FileMode`
unfoldable pub read_mode : GitFileMode → Result FileModeError FileMode
read_mode GitFileMode.blob = ok FileMode.blob
read_mode GitFileMode.blob_executable = ok FileMode.blob_executable
read_mode GitFileMode.commit = ok FileMode.commit
read_mode GitFileMode.tree = ok FileMode.tree
read_mode GitFileMode.link = ok FileMode.link
read_mode (GitFileMode.other n) = err (unknown (GitFileMode.other n))

-- `From<FileMode> for git2::FileMode`
unfoldable pub git_mode : FileMode → GitFileMode
git_mode FileMode.blob = GitFileMode.blob
git_mode FileMode.blob_executable = GitFileMode.blob_executable
git_mode FileMode.tree = GitFileMode.tree
git_mode FileMode.link = GitFileMode.link
git_mode FileMode.commit = GitFileMode.commit

-- `TryFrom<git2::DiffFile> for DiffFile`
unfoldable pub read_file : GitDiffFile → Result FileModeError DiffFile
unfolding read_mode
read_file value = do mode ← read_mode value.mode; ok (record { oid = value.id; mode = mode })

-- `TryFrom<git2::DiffLine> for Modification`
unfoldable pub read_numbers : Str → Option ℕ → Option ℕ → Result ModificationError Modification
read_numbers content none (some n) = ok (addition (record { line = content; line_no = n }))
read_numbers content (some n) none = ok (deletion (record { line = content; line_no = n }))
read_numbers content (some l) (some r) = ok (context content l r)
read_numbers content none none = err invalid

unfoldable pub read_line : GitLine → Result ModificationError Modification
unfolding read_numbers
read_line l = read_numbers l.content l.old_lineno l.new_lineno

-- The variables of the loops: the lines or hunks so far, and the two flags.
pub record Progress (T : Type 0) : Type 0 where
  pub done : List T
  pub old_missing_eof : Bool
  pub new_missing_eof : Bool

-- The body of the loop over lines: the match on the origin, with its `continue`s.
unfoldable pub take_line :
    {E : Type 0} → Progress Modification → GitLine → Result (HunkError E) (Progress Modification)
unfolding read_line
take_line s l = elim (l.origin_value) [
  | DiffLineType.context_eofnl ↦ ok (record s { new_missing_eof = true; old_missing_eof = true })
  | DiffLineType.add_eofnl ↦ ok (record s { old_missing_eof = true })
  | DiffLineType.delete_eofnl ↦ ok (record s { new_missing_eof = true })
  | DiffLineType.other n ↦ do
    m ← map_err line (read_line l)
    ok (record s { done = s.done ++ m ∷ [] })
]

-- The sum of `u32` in a range, which wraps around (a build with overflow checks panics there).
abbrev pub u32_add : ℕ → ℕ → ℕ
u32_add a b = (a + b) % 2 ^ 32

abbrev pub range_of : ℕ → ℕ → Range
range_of start lines = record { start = start; end = u32_add start lines }

module _ {E : Type 0} where
  -- `for l in 0..hunk_lines`, from `l` on with `k` lines to go
  unfoldable pub read_lines :
      Patch E → ℕ → ℕ → ℕ → Progress Modification → Result (HunkError E) (Progress Modification)
  unfolding take_line
  read_lines p h l zero s = ok s
  read_lines p h l (suc k) s = do
    read ← map_err git (p.line_in_hunk h l)
    s1 ← take_line s read
    read_lines p h (suc l) k s1

  -- `for h in 0..patch.num_hunks()`, from `h` on with `k` hunks to go
  unfoldable pub read_hunks :
      Patch E
      → ℕ
      → ℕ
      → Progress (Hunk Modification)
      → Result (HunkError E) (Progress (Hunk Modification))
  unfolding read_lines
  read_hunks p h zero s = ok s
  read_hunks p h (suc k) s = do
    (g, hunk_lines) ← map_err git (p.hunk h)
    t ← read_lines p h 0 hunk_lines (record {
      done = [];
      old_missing_eof = s.old_missing_eof;
      new_missing_eof = s.new_missing_eof;
    })
    read_hunks p (suc h) k (record {
      done =
          s.done
          ++ record {
            header = g.header;
            lines = t.done;
            old = range_of g.old_start g.old_lines;
            new = range_of g.new_start g.new_lines;
          }
            ∷ [];
      old_missing_eof = t.old_missing_eof;
      new_missing_eof = t.new_missing_eof;
    })

-- The match on the two flags.
unfoldable pub eof_of : Bool → Bool → EofNewLine
eof_of true true = both_missing
eof_of true false = old_missing
eof_of false true = new_missing
eof_of false false = none_missing

module _ {E : Type 0} where
  -- `TryFrom<git2::Patch> for DiffContent`
  unfoldable pub read_patch : Patch E → Result (HunkError E) DiffContent
  unfolding read_hunks eof_of
  read_patch p = do
    s ←
        read_hunks p 0 p.num_hunks
          (record { done = []; old_missing_eof = false; new_missing_eof = false })
    ok (plain s.done (eof_of s.old_missing_eof s.new_missing_eof))

  -- What `created`, `deleted` and `modified` make of the patch.
  unfoldable pub content_of : Option (Patch E) → Bool → Str → Result (DiffError E) DiffContent
  unfolding read_patch
  content_of (some p) is_binary path = map_err hunk (read_patch p)
  content_of none is_binary path = if is_binary then ok binary else err (patch_unavailable path)

  unfoldable pub created : Diff → GitDiff E → ℕ → DiffDelta → Result (DiffError E) Diff
  unfolding content_of read_file insert_added
  created d g idx delta = do
    path ← ok_or path_unavailable (delta.new_file.path)
    new ← map_err file_mode (read_file delta.new_file)
    patch ← map_err git (g.patch idx)
    c ← content_of patch (delta.new_file.is_binary false) path
    ok (insert_added d path c new)

  unfoldable pub deleted : Diff → GitDiff E → ℕ → DiffDelta → Result (DiffError E) Diff
  unfolding content_of read_file insert_deleted
  deleted d g idx delta = do
    path ← ok_or path_unavailable (delta.old_file.path)
    patch ← map_err git (g.patch idx)
    old ← map_err file_mode (read_file delta.old_file)
    c ← content_of patch (delta.old_file.is_binary false) path
    ok (insert_deleted d path c old)

  unfoldable pub modified : Diff → GitDiff E → ℕ → DiffDelta → Result (DiffError E) Diff
  unfolding content_of read_file insert_modified
  modified d g idx delta = do
    path ← ok_or path_unavailable (delta.new_file.path)
    patch ← map_err git (g.patch idx)
    old ← map_err file_mode (read_file delta.old_file)
    new ← map_err file_mode (read_file delta.new_file)
    c ← content_of patch (delta.new_file.is_binary true) path
    ok (insert_modified d path c old new)

  unfoldable pub renamed : Diff → DiffDelta → Result (DiffError E) Diff
  unfolding insert_moved
  renamed d delta = do
    old ← ok_or path_unavailable (delta.old_file.path)
    new ← ok_or path_unavailable (delta.new_file.path)
    ok (insert_moved d old new)

  unfoldable pub copied : Diff → DiffDelta → Result (DiffError E) Diff
  unfolding insert_copied
  copied d delta = do
    old ← ok_or path_unavailable (delta.old_file.path)
    new ← ok_or path_unavailable (delta.new_file.path)
    ok (insert_copied d old new)

  -- The match on the status of a delta.
  unfoldable pub take_delta : Diff → GitDiff E → ℕ → DiffDelta → Result (DiffError E) Diff
  unfolding created deleted modified renamed copied
  take_delta d g idx delta = elim (delta.status) [
    | Delta.added ↦ created d g idx delta
    | Delta.deleted ↦ deleted d g idx delta
    | Delta.modified ↦ modified d g idx delta
    | Delta.renamed ↦ renamed d delta
    | Delta.copied ↦ copied d delta
    | Delta.other n ↦ err (delta_unhandled (Delta.other n))
  ]

  -- `for (idx, delta) in git_diff.deltas().enumerate()`
  unfoldable pub take_deltas : Diff → GitDiff E → ℕ → List DiffDelta → Result (DiffError E) Diff
  unfolding take_delta
  take_deltas d g idx [] = ok d
  take_deltas d g idx (delta ∷ ds) = do d1 ← take_delta d g idx delta; take_deltas d1 g (suc idx) ds

  -- `TryFrom<git2::Diff> for Diff`
  unfoldable pub read_diff : GitDiff E → Result (DiffError E) Diff
  unfolding take_deltas
  read_diff g = do
    stats ← map_err git g.stats
    take_deltas (record { files = []; stats = stats }) g 0 g.deltas
