-- ===== src/Surf/Diff/Git/Described.antt =====
-- What radicle-surf/src/diff/git.rs is to make of a diff of libgit2.
use radicle_git.Base.{
  Pairs, ℕ, zero, suc, ◌≡◌, Bool, true, false, ◌||◌, List, [], ◌∷◌, Option, none, some, ok,
}
use radicle_git.Surf.Diff.{
  DiffFile, Modification, addition, deletion, context, Hunk, DiffContent, plain, binary, empty,
  FileDiff,
}
use radicle_git.Surf.Diff.Libgit.{
  Delta, DiffLineType, GitLine, GitHunk, Patch, GitDiffFile, DiffDelta, GitDiff,
}
use radicle_git.Surf.Diff.Git.{git_mode, eof_of, range_of}

module _ {E : Type 0} where
  -- The lines that libgit2 gives for a hunk, from one on.
  abbrev pub ReadsLines : Patch E → ℕ → ℕ → ℕ → List GitLine → Type 0
  ReadsLines p h l zero [] = Unit
  ReadsLines p h l (suc k) (x ∷ xs) = (p.line_in_hunk h l ≡ ok x) × ReadsLines p h (suc l) k xs
  ReadsLines p h l _ _ = ⊥

  -- The hunks that libgit2 gives, with their lines, from one on.
  abbrev pub ReadsHunks : Patch E → ℕ → ℕ → List (GitHunk × List GitLine) → Type 0
  ReadsHunks p h zero [] = Unit
  ReadsHunks p h (suc k) ((g, ls) ∷ gs) =
      ((n : ℕ) × (p.hunk h ≡ ok (g, n)) × ReadsLines p h 0 n ls) × ReadsHunks p (suc h) k gs
  ReadsHunks p h _ _ = ⊥

-- Whether a line is a mark for a missing end of line, on the old and on the new side.
abbrev pub marks_old : DiffLineType → Bool
marks_old DiffLineType.context_eofnl = true
marks_old DiffLineType.add_eofnl = true
marks_old DiffLineType.delete_eofnl = false
marks_old (DiffLineType.other n) = false

abbrev pub marks_new : DiffLineType → Bool
marks_new DiffLineType.context_eofnl = true
marks_new DiffLineType.add_eofnl = false
marks_new DiffLineType.delete_eofnl = true
marks_new (DiffLineType.other n) = false

abbrev pub any_line : (DiffLineType → Bool) → List GitLine → Bool
any_line p [] = false
any_line p (l ∷ ls) = p l.origin_value || any_line p ls

abbrev pub any_hunk : (DiffLineType → Bool) → List (GitHunk × List GitLine) → Bool
any_hunk p [] = false
any_hunk p ((g, ls) ∷ gs) = any_line p ls || any_hunk p gs

-- A line with a number on the new side only is added, on the old side only deleted, on both kept.
abbrev pub LineOf : GitLine → Modification → Type 0
LineOf l (addition a) =
    (l.old_lineno ≡ none) × (l.new_lineno ≡ some a.line_no) × (l.content ≡ a.line)
LineOf l (deletion d) =
    (l.old_lineno ≡ some d.line_no) × (l.new_lineno ≡ none) × (l.content ≡ d.line)
LineOf l (context c old new) =
    (l.old_lineno ≡ some old) × (l.new_lineno ≡ some new) × (l.content ≡ c)

-- The lines that are no marks.
abbrev pub texts : List GitLine → List GitLine
texts [] = []
texts (l ∷ ls) = elim (l.origin_value) [ DiffLineType.other n ↦ l ∷ texts ls | _ ↦ texts ls ]

abbrev pub HunkOf : GitHunk × List GitLine → Hunk Modification → Type 0
HunkOf (g, ls) h =
    (g.header ≡ h.header)
    × Pairs LineOf (texts ls) h.lines
    × (h.old ≡ range_of g.old_start g.old_lines)
    × (h.new ≡ range_of g.new_start g.new_lines)

abbrev pub EntryOf : GitDiffFile → DiffFile → Type 0
EntryOf g f = (f.oid ≡ g.id) × (git_mode f.mode ≡ g.mode)

module _ {E : Type 0} where
  -- The content of a text: a hunk for each hunk, and the ends of line that any mark tells of.
  abbrev pub PatchOf : Patch E → DiffContent → Type 0
  PatchOf p (plain hunks eof) =
      (gs : List (GitHunk × List GitLine)) × ReadsHunks p 0 p.num_hunks gs
      × Pairs HunkOf gs hunks
      × (eof ≡ eof_of (any_hunk marks_old gs) (any_hunk marks_new gs))
  PatchOf p binary = ⊥
  PatchOf p empty = ⊥

  -- With no patch, the file is binary.
  abbrev pub ContentOf : Option (Patch E) → Bool → DiffContent → Type 0
  ContentOf (some p) is_binary c = PatchOf p c
  ContentOf none is_binary c = (is_binary ≡ true) × (c ≡ binary)

  abbrev pub Read : GitDiff E → ℕ → Bool → DiffContent → Type 0
  Read g idx is_binary c = (o : Option (Patch E)) × (g.patch idx ≡ ok o) × ContentOf o is_binary c

  -- A file of the diff tells of a delta.
  abbrev pub FileOf : GitDiff E → ℕ → DiffDelta → FileDiff → Type 0
  FileOf g idx delta (FileDiff.added a) =
      (delta.status ≡ Delta.added)
      × (delta.new_file.path ≡ some a.path)
      × EntryOf delta.new_file a.new
      × Read g idx (delta.new_file.is_binary false) a.diff
  FileOf g idx delta (FileDiff.deleted a) =
      (delta.status ≡ Delta.deleted)
      × (delta.old_file.path ≡ some a.path)
      × EntryOf delta.old_file a.old
      × Read g idx (delta.old_file.is_binary false) a.diff
  FileOf g idx delta (FileDiff.modified a) =
      (delta.status ≡ Delta.modified)
      × (delta.new_file.path ≡ some a.path)
      × EntryOf delta.old_file a.old
      × EntryOf delta.new_file a.new
      × Read g idx (delta.new_file.is_binary true) a.diff
  FileOf g idx delta (FileDiff.moved a) =
      (delta.status ≡ Delta.renamed)
      × (delta.old_file.path ≡ some a.old_path)
      × (delta.new_file.path ≡ some a.new_path)
      × (a.diff ≡ empty)
  FileOf g idx delta (FileDiff.copied a) =
      (delta.status ≡ Delta.copied)
      × (delta.old_file.path ≡ some a.old_path)
      × (delta.new_file.path ≡ some a.new_path)
      × (a.diff ≡ empty)

  -- A file for each delta, in order.
  abbrev pub FilesOf : GitDiff E → ℕ → List DiffDelta → List FileDiff → Type 0
  FilesOf g idx [] [] = Unit
  FilesOf g idx (delta ∷ ds) (f ∷ fs) = FileOf g idx delta f × FilesOf g (suc idx) ds fs
  FilesOf g idx _ _ = ⊥
