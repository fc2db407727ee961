-- ===== src/Surf/Tree.antt =====
-- radicle-surf/src/tree.rs: the entries of a tree, in their order, with the commits that made them.
pub mod Order
mod Tests
use Prim.Native.Nat.{Ordering, lt, eq, gt}
use mathlib.Core.List.{Perm}
use mathlib.Core.List.Perm
use radicle_git.Base.{
  ℕ, ◌≡◌, refl, Bool, true, false, List, [], ◌∷◌, Option, none, some, if◌then◌else◌, Result, ok,
  err, ◌>>=◌, map_err, ok_or, Str, Bool-cases, arith,
}
use radicle_git.Base.Map.{Map, str_lt, str_lt_irrefl, str_lt_trans}
use radicle_git.Storage.Previous.{Oid}
use radicle_git.Surf.Fs
use radicle_git.Surf.Fs.{
  find_directory, PathBuf, Repository, DirectoryError, Directory, entries, entry_name, entry_path,
  values,
}

pub data EntryKind : Type 0 where
  tree blob : Oid → EntryKind

-- An entry, with the commit that created it.
pub record Entry (C : Type 0) : Type 0 where
  pub name : Str
  pub entry : EntryKind
  pub commit : C

pub record Tree (C : Type 0) : Type 0 where
  pub id : Oid
  pub entries : List (Entry C)
  pub commit : C

-- `Ord for EntryKind`
unfoldable pub kind_cmp : EntryKind → EntryKind → Ordering
kind_cmp (EntryKind.tree _) (EntryKind.tree _) = Ordering.eq
kind_cmp (EntryKind.tree _) (EntryKind.blob _) = Ordering.lt
kind_cmp (EntryKind.blob _) (EntryKind.tree _) = Ordering.gt
kind_cmp (EntryKind.blob _) (EntryKind.blob _) = Ordering.eq

-- `Ord for str`
abbrev pub str_cmp : Str → Str → Ordering
str_cmp a b = if str_lt a b then Ordering.lt else if str_lt b a then Ordering.gt else Ordering.eq

-- `Ordering::then`
abbrev pub or_then : Ordering → Ordering → Ordering
or_then Ordering.lt o = Ordering.lt
or_then Ordering.eq o = o
or_then Ordering.gt o = Ordering.gt

abbrev pub is_gt : Ordering → Bool
is_gt Ordering.gt = true
is_gt _ = false

module _ {C : Type 0} where
  -- `Ord for Entry`
  unfoldable pub entry_cmp : Entry C → Entry C → Ordering
  unfolding kind_cmp
  entry_cmp a b = or_then (kind_cmp a.entry b.entry) (str_cmp a.name b.name)

  -- `slice::sort`, which is stable, by insertion
  unfoldable pub insert_entry : Entry C → List (Entry C) → List (Entry C)
  unfolding entry_cmp
  insert_entry x [] = x ∷ []
  insert_entry x (y ∷ ys) =
      let rest = insert_entry x ys in if is_gt (entry_cmp x y) then y ∷ rest else x ∷ y ∷ ys

  unfoldable pub sort : List (Entry C) → List (Entry C)
  unfolding insert_entry
  sort [] = []
  sort (x ∷ xs) = insert_entry x (sort xs)

  -- `Tree::new`
  unfoldable pub tree_new : Oid → List (Entry C) → C → Tree C
  unfolding sort
  tree_new id es commit = record { id = id; entries = sort es; commit = commit }

-- `From<fs::Entry> for EntryKind`
unfoldable pub kind_of : Fs.Entry → EntryKind
kind_of (Fs.file f) = EntryKind.blob f.id
kind_of (Fs.directory d) = EntryKind.tree d.id

-- The errors of repo.rs that are met here; `revision` is any error of the history.
pub data RepoError (E : Type 0) : Type 0 where
  revision : E → RepoError E
  directory : DirectoryError E → RepoError E
  path_not_found : PathBuf → RepoError E

module _ {E C : Type 0} (last_commit : PathBuf → Result E (Option C)) where
  -- `last_commit(path, ..)?.ok_or(..)?`
  unfoldable pub commit_of : PathBuf → Result (RepoError E) C
  commit_of path = do
    found ← map_err revision (last_commit path)
    ok_or (RepoError.path_not_found path) found

  -- The closure over the entries of a directory, and its `collect`.
  unfoldable pub tree_entries : List Fs.Entry → Result (RepoError E) (List (Entry C))
  unfolding commit_of kind_of entry_name entry_path
  tree_entries [] = ok []
  tree_entries (en ∷ ens) = do
    commit ← commit_of (entry_path en)
    rest ← tree_entries ens
    ok (record { name = entry_name en; entry = kind_of en; commit = commit } ∷ rest)

  -- `Repository::tree` of repo.rs, from the root directory of the commit on
  unfoldable pub read_tree : Repository E → Directory → PathBuf → Result (RepoError E) (Tree C)
  unfolding tree_entries find_directory entries tree_new
  read_tree repo root path = do
    dir ← map_err RepoError.directory (find_directory repo root path)
    listing ← map_err RepoError.directory (entries repo dir)
    es ← tree_entries (values listing)
    commit ← commit_of path
    ok (tree_new dir.id (sort es) commit)
