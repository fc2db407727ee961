-- ===== src/Surf/Diff/Git/Deltas.antt =====
-- radicle-surf/src/diff/git.rs: the files that are read of the deltas.
use radicle_git.Base.{
  ℕ, suc, ◌≡◌, refl, sym, ap, ◌∙◌, Bool, true, false, List, [], ◌∷◌, ◌++◌, append_assoc, append-nil,
  Option, none, some, ok, map_err, map_err-ok, ok_or, ok_or-ok, bind-eq-ok, ok-injective, Str,
}
use radicle_git.Surf.Diff.{
  DiffFile, DiffContent, FileDiff, Diff, insert_added, insert_deleted, insert_modified,
  insert_moved, insert_copied,
}
use radicle_git.Surf.Diff.Libgit.{Delta, Patch, GitDiffFile, DiffDelta, GitDiff}
use radicle_git.Surf.Diff.Git.{
  read_file, read_patch, content_of, created, deleted, modified, renamed, copied, take_delta,
  take_deltas, read_diff, DiffError, path_unavailable,
}
use radicle_git.Surf.Diff.Git.Described.{ContentOf, EntryOf, Read, FileOf, FilesOf}
use radicle_git.Surf.Diff.Git.Sound.{read_file-EntryOf, read_patch-PatchOf}

module _ {E : Type 0} (g : GitDiff E) where
  content_of-ContentOf :
      (o : Option (Patch E)) (b : Bool) (path : Str) {c : DiffContent}
      → content_of o b path ≡ ok c
      → ContentOf o b c
  unfolding content_of
  content_of-ContentOf (some p) b path h =
      read_patch-PatchOf p (map_err-ok DiffError.hunk (read_patch p) h)
  content_of-ContentOf none true path h = (refl, sym (ok-injective h))
  content_of-ContentOf none false path h = absurd (cc)

  -- One file is put behind the files, which tells of the delta.
  abbrev Adds : Diff → ℕ → DiffDelta → Diff → Type 0
  Adds d idx delta t =
      (f : FileDiff) × (t.files ≡ d.files ++ f ∷ []) × FileOf g idx delta f × (t.stats ≡ d.stats)

  path_of :
      (f : GitDiffFile) {path : Str}
      → ok_or {E = DiffError E} path_unavailable f.path ≡ ok path
      → f.path ≡ some path
  path_of f h = ok_or-ok {E = DiffError E} path_unavailable f.path h

  entry_of :
      (f : GitDiffFile) {x : DiffFile}
      → map_err {F = DiffError E} DiffError.file_mode (read_file f) ≡ ok x
      → EntryOf f x
  entry_of f h =
      read_file-EntryOf f (map_err-ok {F = DiffError E} DiffError.file_mode (read_file f) h)

  patch_of :
      (idx : ℕ) (b : Bool) (path : Str) {o : Option (Patch E)} {c : DiffContent}
      → map_err DiffError.git (g.patch idx) ≡ ok o
      → content_of o b path ≡ ok c
      → Read g idx b c
  patch_of idx b path {o} read content =
      (o, map_err-ok DiffError.git (g.patch idx) read, content_of-ContentOf o b path content)

  created-Adds :
      (d : Diff) (idx : ℕ) (delta : DiffDelta) {t : Diff}
      → delta.status ≡ Delta.added
      → created d g idx delta ≡ ok t
      → Adds d idx delta t
  unfolding created insert_added
  created-Adds d idx delta status h =
      let (path, found, h1) = bind-eq-ok (ok_or path_unavailable delta.new_file.path) _ h in
      let (new, file, h2) =
        bind-eq-ok (map_err DiffError.file_mode (read_file delta.new_file)) _ h1 in
      let (o, read, h3) = bind-eq-ok (map_err DiffError.git (g.patch idx)) _ h2 in
      let is_binary = delta.new_file.is_binary false in
      let (c, content, h4) = bind-eq-ok (content_of o is_binary path) _ h3 in
      rw (← ok-injective h4) (
        _,
        refl,
        (
          status,
          path_of delta.new_file found,
          entry_of delta.new_file file,
          patch_of idx is_binary path read content,
        ),
        refl,
      )

  deleted-Adds :
      (d : Diff) (idx : ℕ) (delta : DiffDelta) {t : Diff}
      → delta.status ≡ Delta.deleted
      → deleted d g idx delta ≡ ok t
      → Adds d idx delta t
  unfolding deleted insert_deleted
  deleted-Adds d idx delta status h =
      let (path, found, h1) = bind-eq-ok (ok_or path_unavailable delta.old_file.path) _ h in
      let (o, read, h2) = bind-eq-ok (map_err DiffError.git (g.patch idx)) _ h1 in
      let (old, file, h3) =
        bind-eq-ok (map_err DiffError.file_mode (read_file delta.old_file)) _ h2 in
      let is_binary = delta.old_file.is_binary false in
      let (c, content, h4) = bind-eq-ok (content_of o is_binary path) _ h3 in
      rw (← ok-injective h4) (
        _,
        refl,
        (
          status,
          path_of delta.old_file found,
          entry_of delta.old_file file,
          patch_of idx is_binary path read content,
        ),
        refl,
      )

  modified-Adds :
      (d : Diff) (idx : ℕ) (delta : DiffDelta) {t : Diff}
      → delta.status ≡ Delta.modified
      → modified d g idx delta ≡ ok t
      → Adds d idx delta t
  unfolding modified insert_modified
  modified-Adds d idx delta status h =
      let (path, found, h1) = bind-eq-ok (ok_or path_unavailable delta.new_file.path) _ h in
      let (o, read, h2) = bind-eq-ok (map_err DiffError.git (g.patch idx)) _ h1 in
      let (old, file, h3) =
        bind-eq-ok (map_err DiffError.file_mode (read_file delta.old_file)) _ h2 in
      let (new, file1, h4) =
        bind-eq-ok (map_err DiffError.file_mode (read_file delta.new_file)) _ h3 in
      let is_binary = delta.new_file.is_binary true in
      let (c, content, h5) = bind-eq-ok (content_of o is_binary path) _ h4 in
      rw (← ok-injective h5) (
        _,
        refl,
        (
          status,
          path_of delta.new_file found,
          entry_of delta.old_file file,
          entry_of delta.new_file file1,
          patch_of idx is_binary path read content,
        ),
        refl,
      )

  renamed-Adds :
      (d : Diff) (idx : ℕ) (delta : DiffDelta) {t : Diff}
      → delta.status ≡ Delta.renamed
      → renamed {E = E} d delta ≡ ok t
      → Adds d idx delta t
  unfolding renamed insert_moved
  renamed-Adds d idx delta status h =
      let (old, found, h1) = bind-eq-ok (ok_or path_unavailable delta.old_file.path) _ h in
      let (new, found1, h2) = bind-eq-ok (ok_or path_unavailable delta.new_file.path) _ h1 in
      rw (← ok-injective h2)
        (_, refl, (status, path_of delta.old_file found, path_of delta.new_file found1, refl), refl)

  copied-Adds :
      (d : Diff) (idx : ℕ) (delta : DiffDelta) {t : Diff}
      → delta.status ≡ Delta.copied
      → copied {E = E} d delta ≡ ok t
      → Adds d idx delta t
  unfolding copied insert_copied
  copied-Adds d idx delta status h =
      let (old, found, h1) = bind-eq-ok (ok_or path_unavailable delta.old_file.path) _ h in
      let (new, found1, h2) = bind-eq-ok (ok_or path_unavailable delta.new_file.path) _ h1 in
      rw (← ok-injective h2)
        (_, refl, (status, path_of delta.old_file found, path_of delta.new_file found1, refl), refl)

  take_delta-Adds :
      (d : Diff) (idx : ℕ) (delta : DiffDelta) (s : Delta) {t : Diff}
      → delta.status ≡ s
      → take_delta d g idx delta ≡ ok t
      → Adds d idx delta t
  unfolding take_delta
  take_delta-Adds d idx delta Delta.added e h = created-Adds d idx delta e (rw e at h)
  take_delta-Adds d idx delta Delta.deleted e h = deleted-Adds d idx delta e (rw e at h)
  take_delta-Adds d idx delta Delta.modified e h = modified-Adds d idx delta e (rw e at h)
  take_delta-Adds d idx delta Delta.renamed e h = renamed-Adds d idx delta e (rw e at h)
  take_delta-Adds d idx delta Delta.copied e h = copied-Adds d idx delta e (rw e at h)
  take_delta-Adds d idx delta (Delta.other n) e h = absurd (let h1 = (rw e at h) in cc)

  take_deltas-FilesOf :
      (d : Diff) (idx : ℕ) (ds : List DiffDelta) {t : Diff}
      → take_deltas d g idx ds ≡ ok t
      → (fs : List FileDiff) × (t.files ≡ d.files ++ fs) × FilesOf g idx ds fs × (t.stats ≡ d.stats)
  unfolding take_deltas
  take_deltas-FilesOf d idx [] h = rw (← ok-injective h) ([], sym (append-nil _), tt, refl)
  take_deltas-FilesOf d idx (delta ∷ ds) h =
      let (d1, step, h1) = bind-eq-ok (take_delta d g idx delta) _ h in
      let (f, files, tells, stats) = take_delta-Adds d idx delta delta.status refl step in
      let (fs, files1, tells1, stats1) = take_deltas-FilesOf d1 (suc idx) ds h1 in
      (
        f ∷ fs,
        files1 ∙ ap (λ x. x ++ fs) files ∙ append_assoc d.files (f ∷ []) fs,
        (tells, tells1),
        stats1 ∙ stats,
      )

-- A diff that is read has the statistics of libgit2, and a file for each delta, in order, that
-- tells of it: the kind of the change, the paths, the modes, and the content of the patch.
pub read_diff-FilesOf :
    {E : Type 0} (g : GitDiff E) {d : Diff}
    → read_diff g ≡ ok d
    → (g.stats ≡ ok d.stats) × FilesOf g 0 g.deltas d.files
unfolding read_diff
read_diff-FilesOf g h =
    let (stats, read, h1) = bind-eq-ok (map_err DiffError.git g.stats) _ h in
    let (fs, files, tells, kept) = take_deltas-FilesOf g _ 0 g.deltas h1 in
    (map_err-ok DiffError.git g.stats read ∙ ap ok (sym kept), rw files tells)
