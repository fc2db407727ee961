-- ===== src/Surf/Diff/Files.antt =====
-- radicle-surf/src/diff.rs: the files of a diff by the kind of change.
use radicle_git.Base.{List, [], ◌∷◌, ◌++◌, map, Option, none, some}
use mathlib.Core.List.{Perm, perm_middle}
use mathlib.Core.List.Perm
use radicle_git.Surf.Diff.{FileDiff, Added, Deleted, Modified, Moved, Copied, Diff}

-- `Iterator::filter_map`
abbrev pub filter_map : {A B : Type 0} → (A → Option B) → List A → List B
filter_map f [] = []
filter_map f (x ∷ xs) = elim (f x) [ none ↦ filter_map f xs | some y ↦ y ∷ filter_map f xs ]

-- The closures of the filters.
abbrev pub as_added : FileDiff → Option Added
as_added (FileDiff.added a) = some a
as_added _ = none

abbrev pub as_deleted : FileDiff → Option Deleted
as_deleted (FileDiff.deleted a) = some a
as_deleted _ = none

abbrev pub as_moved : FileDiff → Option Moved
as_moved (FileDiff.moved a) = some a
as_moved _ = none

abbrev pub as_modified : FileDiff → Option Modified
as_modified (FileDiff.modified a) = some a
as_modified _ = none

abbrev pub as_copied : FileDiff → Option Copied
as_copied (FileDiff.copied a) = some a
as_copied _ = none

unfoldable pub added : Diff → List Added
added d = filter_map as_added d.files

unfoldable pub deleted : Diff → List Deleted
deleted d = filter_map as_deleted d.files

unfoldable pub moved : Diff → List Moved
moved d = filter_map as_moved d.files

unfoldable pub modified : Diff → List Modified
modified d = filter_map as_modified d.files

unfoldable pub copied : Diff → List Copied
copied d = filter_map as_copied d.files

-- The five lists, as `Serialize for Diff` writes them.
abbrev pub sorted_files : List FileDiff → List FileDiff
sorted_files fs =
    map FileDiff.added (filter_map as_added fs)
    ++ (map FileDiff.deleted (filter_map as_deleted fs)
        ++ (map FileDiff.moved (filter_map as_moved fs)
            ++ (map FileDiff.copied (filter_map as_copied fs)
                ++ map FileDiff.modified (filter_map as_modified fs))))

-- An element is brought to the front of what stands before it.
bring :
    {A : Type 0} {x : A} (xs : List A) {ys zs : List A}
    → Perm ys (x ∷ zs)
    → Perm (xs ++ ys) (x ∷ (xs ++ zs))
bring xs {ys} {zs} p = Perm.trans (Perm.append_left xs p) (perm_middle xs zs)

sorted_files-Perm : (fs : List FileDiff) → Perm fs (sorted_files fs)
sorted_files-Perm [] = Perm.refl []
sorted_files-Perm (FileDiff.added a ∷ fs) = Perm.cons _ (sorted_files-Perm fs)
sorted_files-Perm (FileDiff.deleted a ∷ fs) =
    Perm.trans (Perm.cons _ (sorted_files-Perm fs))
      (Perm.symm (bring (map FileDiff.added (filter_map as_added fs)) (Perm.refl _)))
sorted_files-Perm (FileDiff.moved a ∷ fs) = Perm.trans (Perm.cons _ (sorted_files-Perm fs)) (
    Perm.symm (
      bring (map FileDiff.added (filter_map as_added fs))
        (bring (map FileDiff.deleted (filter_map as_deleted fs)) (Perm.refl _))))
sorted_files-Perm (FileDiff.copied a ∷ fs) = Perm.trans (Perm.cons _ (sorted_files-Perm fs)) (
    Perm.symm (
      bring (map FileDiff.added (filter_map as_added fs)) (
        bring (map FileDiff.deleted (filter_map as_deleted fs))
          (bring (map FileDiff.moved (filter_map as_moved fs)) (Perm.refl _)))))
sorted_files-Perm (FileDiff.modified a ∷ fs) = Perm.trans (Perm.cons _ (sorted_files-Perm fs)) (
    Perm.symm (
      bring (map FileDiff.added (filter_map as_added fs)) (
        bring (map FileDiff.deleted (filter_map as_deleted fs)) (
          bring (map FileDiff.moved (filter_map as_moved fs))
            (bring (map FileDiff.copied (filter_map as_copied fs)) (Perm.refl _))))))

-- The five lists of a diff hold its files, each as often as the diff does.
pub files-Perm :
    (d : Diff)
    → Perm d.files (
        map FileDiff.added (added d)
        ++ (map FileDiff.deleted (deleted d)
            ++ (map FileDiff.moved (moved d)
                ++ (map FileDiff.copied (copied d) ++ map FileDiff.modified (modified d)))))
unfolding added deleted moved modified copied
files-Perm d = sorted_files-Perm d.files
