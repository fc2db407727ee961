-- ===== src/Surf/Diff/Tests.antt =====
-- Runs of the diffs of radicle-surf, and their theorems at concrete inputs.
use radicle_git.Base.{ℕ, zero, suc, false, ◌≡◌, refl, [], ◌∷◌, none, some, ok, err, codes}
use radicle_git.Surf.Diff.{
  FileMode, addition, deletion, context, plain, new_missing, FileDiff, Diff, empty,
}
use radicle_git.Surf.Diff.Libgit.{
  GitFileMode, Delta, DiffLineType, GitLine, Patch, GitDiffFile, GitDiff,
}
use radicle_git.Surf.Diff.Git.{read_diff, delta_unhandled}
use radicle_git.Surf.Diff.Git.Described.{FilesOf}
use radicle_git.Surf.Diff.Git.Complete.{read_diff_iff}

abbrev readme : GitDiffFile
readme = record {
  mode = GitFileMode.blob;
  id = 1 ∷ [];
  path = some (codes "README");
  is_binary = λ _. false;
}

abbrev license : GitDiffFile
license = record {
  mode = GitFileMode.blob;
  id = 2 ∷ [];
  path = some (codes "LICENSE");
  is_binary = λ _. false;
}

abbrev text : DiffLineType
text = DiffLineType.other 32

abbrev line_at : ℕ → GitLine
line_at zero = record {
  origin_value = text;
  old_lineno = some 3;
  new_lineno = some 3;
  content = codes "same";
}
line_at (suc zero) = record {
  origin_value = text;
  old_lineno = some 4;
  new_lineno = none;
  content = codes "old";
}
line_at (suc (suc zero)) = record {
  origin_value = text;
  old_lineno = none;
  new_lineno = some 4;
  content = codes "new";
}
line_at _ = record {
  origin_value = DiffLineType.delete_eofnl;
  old_lineno = none;
  new_lineno = none;
  content = codes "no newline";
}

abbrev one_hunk : Patch (Unit {0})
one_hunk = record {
  num_hunks = 1;
  hunk = λ _. ok (
    record { header = codes "@@"; old_start = 3; old_lines = 2; new_start = 3; new_lines = 2 },
    4,
  );
  line_in_hunk = λ _ l. ok (line_at l);
}

abbrev two_files : GitDiff (Unit {0})
two_files = record {
  stats = ok (record { files_changed = 2; insertions = 1; deletions = 1 });
  deltas =
      record { status = Delta.modified; old_file = readme; new_file = readme }
      ∷ record { status = Delta.renamed; old_file = readme; new_file = license }
      ∷ [];
  patch = λ _. ok (some one_hunk);
}

abbrev two_files_diff : Diff
two_files_diff = record {
  files =
      FileDiff.modified (record {
        path = codes "README";
        diff =
            plain
              (record {
                header = codes "@@";
                lines =
                    context (codes "same") 3 3
                    ∷ deletion (record { line = codes "old"; line_no = 4 })
                    ∷ addition (record { line = codes "new"; line_no = 4 })
                    ∷ [];
                old = record { start = 3; end = 5 };
                new = record { start = 3; end = 5 };
              }
                ∷ [])
              new_missing;
        old = record { oid = 1 ∷ []; mode = FileMode.blob };
        new = record { oid = 1 ∷ []; mode = FileMode.blob };
      })
      ∷ FileDiff.moved
          (record { old_path = codes "README"; new_path = codes "LICENSE"; diff = empty })
      ∷ [];
  stats = record { files_changed = 2; insertions = 1; deletions = 1 };
}

read_two_files : read_diff two_files ≡ ok two_files_diff
unfolding read_diff
read_two_files = refl

-- Another kind of delta ends the loop.
read_unhandled :
    read_diff (record two_files {
      deltas = record { status = Delta.other 9; old_file = readme; new_file = readme } ∷ [];
    })
    ≡ err (delta_unhandled (Delta.other 9))
unfolding read_diff
read_unhandled = refl

read_diff_iff_example :
    (two_files.stats ≡ ok two_files_diff.stats)
    × FilesOf two_files 0 two_files.deltas two_files_diff.files
read_diff_iff_example = (read_diff_iff two_files two_files_diff).0 read_two_files
