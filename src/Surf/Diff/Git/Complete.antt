-- ===== src/Surf/Diff/Git/Complete.antt =====
-- radicle-surf/src/diff/git.rs: what libgit2 gives is read.
use radicle_git.Base.{
  Pairs, ℕ, zero, suc, ◌≡◌, refl, sym, ap, ◌∙◌, Bool, true, false, ◌||◌, List, [], ◌∷◌, ◌++◌,
  append_assoc, append-nil, Option, none, some, ok, ◌>>=◌, map_err, Str, ◌↔◌,
}
use radicle_git.Surf.Diff.{
  FileMode, DiffFile, Modification, addition, deletion, context, Hunk, DiffContent, plain, binary,
  empty, FileDiff, Diff, push_file, insert_added, insert_deleted, insert_modified, insert_moved,
  insert_copied,
}
use radicle_git.Surf.Diff.Libgit.{
  DiffLineType, GitLine, GitHunk, Patch, GitDiffFile, DiffDelta, GitDiff,
}
use radicle_git.Surf.Diff.Git.{
  read_mode, git_mode, read_file, read_line, read_numbers, Progress, take_line, read_lines,
  read_hunks, read_patch, content_of, created, deleted, modified, renamed, copied, take_delta,
  take_deltas, read_diff, DiffError,
}
use radicle_git.Surf.Diff.Git.Described.{
  ReadsLines, ReadsHunks, marks_old, marks_new, any_line, any_hunk, LineOf, texts, HunkOf, PatchOf,
  ContentOf, EntryOf, FileOf, FilesOf,
}
use radicle_git.Surf.Diff.Git.Sound.{or_assoc, or_true, or_false}
use radicle_git.Surf.Diff.Git.Deltas.{read_diff-FilesOf}

read_mode-git_mode : (m : FileMode) → read_mode (git_mode m) ≡ ok m
unfolding read_mode git_mode
read_mode-git_mode FileMode.blob = refl
read_mode-git_mode FileMode.blob_executable = refl
read_mode-git_mode FileMode.tree = refl
read_mode-git_mode FileMode.link = refl
read_mode-git_mode FileMode.commit = refl

read_file-eq : (g : GitDiffFile) (f : DiffFile) → EntryOf g f → read_file g ≡ ok f
unfolding read_file
read_file-eq g f (oid, mode) = rw (← mode, read_mode-git_mode f.mode, ← oid) refl

read_line-eq : (l : GitLine) (m : Modification) → LineOf l m → read_line l ≡ ok m
unfolding read_line read_numbers
read_line-eq l (addition a) (old, new, c) = rw (old, new, c) refl
read_line-eq l (deletion d) (old, new, c) = rw (old, new, c) refl
read_line-eq l (context c0 o n) (old, new, c) = rw (old, new, c) refl

-- The loop's variables after some lines.
abbrev after : {T : Type 0} → Progress T → List T → Bool → Bool → Progress T
after s ms old new = record {
  done = s.done ++ ms;
  old_missing_eof = s.old_missing_eof || old;
  new_missing_eof = s.new_missing_eof || new;
}

after-after :
    {T : Type 0} (s : Progress T) (ms ns : List T) (a b c d : Bool)
    → after (after s ms a b) ns c d ≡ after s (ms ++ ns) (a || c) (b || d)
after-after s ms ns a b c d =
    rw (append_assoc s.done ms ns, or_assoc s.old_missing_eof a c, or_assoc s.new_missing_eof b d)
      refl

after-nil : {T : Type 0} (s : Progress T) → after s [] false false ≡ s
after-nil s = rw (append-nil s.done, or_false s.old_missing_eof, or_false s.new_missing_eof) refl

module _ {E : Type 0} where
  take_line-eq :
      (s : Progress Modification) (l : GitLine) (ls : List GitLine) (o : DiffLineType)
      (ms : List Modification)
      → l.origin_value ≡ o
      → Pairs LineOf (texts (l ∷ ls)) ms
      → (us vs : List Modification) × (us ++ vs ≡ ms)
        × Pairs LineOf (texts ls) vs
        × (take_line {E = E} s l
            ≡ ok (after s us (marks_old l.origin_value) (marks_new l.origin_value)))
  unfolding take_line
  take_line-eq s l ls DiffLineType.context_eofnl ms e h = (
    [],
    ms,
    refl,
    rw e at h,
    rw (e, append-nil s.done, or_true s.old_missing_eof, or_true s.new_missing_eof) refl,
  )
  take_line-eq s l ls DiffLineType.add_eofnl ms e h = (
    [],
    ms,
    refl,
    rw e at h,
    rw (e, append-nil s.done, or_true s.old_missing_eof, or_false s.new_missing_eof) refl,
  )
  take_line-eq s l ls DiffLineType.delete_eofnl ms e h = (
    [],
    ms,
    refl,
    rw e at h,
    rw (e, append-nil s.done, or_false s.old_missing_eof, or_true s.new_missing_eof) refl,
  )
  take_line-eq s l ls (DiffLineType.other n) [] e h = absurd (rw e at h)
  take_line-eq s l ls (DiffLineType.other n) (m ∷ ms) e h =
      let found = (rw e at h) in
      (
        m ∷ [],
        ms,
        refl,
        found.1,
        rw (e, read_line-eq l m found.0, or_false s.old_missing_eof, or_false s.new_missing_eof)
            refl,
      )

module _ {E : Type 0} (p : Patch E) where
  read_lines-eq :
      (h l k : ℕ) (s : Progress Modification) (ls : List GitLine) (ms : List Modification)
      → ReadsLines p h l k ls
      → Pairs LineOf (texts ls) ms
      → read_lines p h l k s ≡ ok (after s ms (any_line marks_old ls) (any_line marks_new ls))
  unfolding read_lines
  read_lines-eq h l zero s [] [] reads pairs = ap ok (sym (after-nil s))
  read_lines-eq h l zero s [] (m ∷ ms) reads pairs = absurd pairs
  read_lines-eq h l zero s (x ∷ xs) ms reads pairs = absurd reads
  read_lines-eq h l (suc k) s [] ms reads pairs = absurd reads
  read_lines-eq h l (suc k) s (x ∷ xs) ms (read, reads) pairs =
      let (us, vs, both, rest, step) = take_line-eq {E = E} s x xs x.origin_value ms refl pairs in
      rw (read, step)
        (read_lines-eq h (suc l) k _ xs vs reads rest
          ∙ ap ok (
              after-after s us vs (marks_old x.origin_value) (marks_new x.origin_value)
                (any_line marks_old xs) (any_line marks_new xs))
          ∙ ap (λ y. ok (after s y (any_line marks_old (x ∷ xs)) (any_line marks_new (x ∷ xs))))
              both)

  read_hunks-eq :
      (h k : ℕ) (s : Progress (Hunk Modification)) (gs : List (GitHunk × List GitLine))
      (hs : List (Hunk Modification))
      → ReadsHunks p h k gs
      → Pairs HunkOf gs hs
      → read_hunks p h k s ≡ ok (after s hs (any_hunk marks_old gs) (any_hunk marks_new gs))
  unfolding read_hunks
  read_hunks-eq h zero s [] [] reads pairs = ap ok (sym (after-nil s))
  read_hunks-eq h zero s [] (m ∷ ms) reads pairs = absurd pairs
  read_hunks-eq h zero s (x ∷ xs) ms reads pairs = absurd reads
  read_hunks-eq h (suc k) s [] ms reads pairs = absurd reads
  read_hunks-eq h (suc k) s (x ∷ xs) [] reads pairs = absurd pairs
  read_hunks-eq h (suc k) s ((g, ls) ∷ xs) (y ∷ ys) ((n, read, lines), reads)
        ((header, pairs, old, new), rest) =
      rw
        (
          read,
          read_lines-eq h 0 n
              (record {
                done = [];
                old_missing_eof = s.old_missing_eof;
                new_missing_eof = s.new_missing_eof;
              })
              ls y.lines lines pairs,
          header,
          ← old,
          ← new,
        )
        (read_hunks-eq (suc h) k _ xs ys reads rest
          ∙ ap ok (
              after-after s (y ∷ []) ys (any_line marks_old ls) (any_line marks_new ls)
                (any_hunk marks_old xs) (any_hunk marks_new xs)))

  read_patch-eq : (c : DiffContent) → PatchOf p c → read_patch p ≡ ok c
  unfolding read_patch
  read_patch-eq (plain hunks eof) (gs, reads, pairs, e) =
      rw
        (
          read_hunks-eq 0 p.num_hunks
              (record { done = []; old_missing_eof = false; new_missing_eof = false }) gs hunks
              reads pairs,
          e,
        )
        refl
  read_patch-eq binary h = absurd h
  read_patch-eq empty h = absurd h

module _ {E : Type 0} (g : GitDiff E) where
  content_of-eq :
      (o : Option (Patch E)) (b : Bool) (path : Str) (c : DiffContent)
      → ContentOf o b c
      → content_of o b path ≡ ok c
  unfolding content_of
  content_of-eq (some p) b path c h = rw (read_patch-eq p c h) refl
  content_of-eq none b path c (bin, e) = rw (bin, e) refl

  take_delta-eq :
      (d : Diff) (idx : ℕ) (delta : DiffDelta) (f : FileDiff)
      → FileOf g idx delta f
      → take_delta d g idx delta ≡ ok (push_file d f)
  unfolding take_delta created deleted modified renamed copied insert_added insert_deleted
      insert_modified insert_moved insert_copied
  take_delta-eq d idx delta (FileDiff.added a) (status, path, entry, (o, read, content)) =
      rw
        (
          status,
          path,
          read_file-eq delta.new_file a.new entry,
          read,
          content_of-eq o (delta.new_file.is_binary false) a.path a.diff content,
        )
        refl
  take_delta-eq d idx delta (FileDiff.deleted a) (status, path, entry, (o, read, content)) =
      rw
        (
          status,
          path,
          read_file-eq delta.old_file a.old entry,
          read,
          content_of-eq o (delta.old_file.is_binary false) a.path a.diff content,
        )
        refl
  take_delta-eq d idx delta (FileDiff.modified a)
        (status, path, entry, entry1, (o, read, content)) =
      rw
        (
          status,
          path,
          read_file-eq delta.old_file a.old entry,
          read_file-eq delta.new_file a.new entry1,
          read,
          content_of-eq o (delta.new_file.is_binary true) a.path a.diff content,
        )
        refl
  take_delta-eq d idx delta (FileDiff.moved a) (status, old, new, e) =
      rw (status, old, new, ← e) refl
  take_delta-eq d idx delta (FileDiff.copied a) (status, old, new, e) =
      rw (status, old, new, ← e) refl

  take_deltas-eq :
      (d : Diff) (idx : ℕ) (ds : List DiffDelta) (fs : List FileDiff)
      → FilesOf g idx ds fs
      → take_deltas d g idx ds ≡ ok (record d { files = d.files ++ fs })
  unfolding take_deltas
  take_deltas-eq d idx [] [] h = rw (append-nil d.files) refl
  take_deltas-eq d idx [] (f ∷ fs) h = absurd h
  take_deltas-eq d idx (x ∷ xs) [] h = absurd h
  take_deltas-eq d idx (x ∷ xs) (f ∷ fs) (tells, rest) =
      rw
        (
          take_delta-eq d idx x f tells,
          take_deltas-eq (push_file d f) (suc idx) xs fs rest,
          append_assoc d.files (f ∷ []) fs,
        )
        refl

-- A diff is read exactly if it has the statistics of libgit2, and a file for each delta, in
-- order, that tells of it: the kind of the change, the paths, the modes, and the content: for a
-- patch its hunks, and the sides whose end of line its marks tell to be missing; with no patch
-- a binary file.
pub read_diff_iff :
    {E : Type 0} (g : GitDiff E) (d : Diff)
    → (read_diff g ≡ ok d) ↔ ((g.stats ≡ ok d.stats) × FilesOf g 0 g.deltas d.files)
unfolding read_diff
read_diff_iff g d = (
  read_diff-FilesOf g,
  λ (stats, tells).
      ap
        (λ r. map_err DiffError.git r >>= λ x.
          take_deltas (record { files = []; stats = x }) g 0 g.deltas)
        stats
      ∙ take_deltas-eq g (record { files = []; stats = d.stats }) 0 g.deltas d.files tells,
)
