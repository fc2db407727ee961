-- ===== src/Surf/Tree/Tests.antt =====
-- Runs of the trees of radicle-surf, and their theorem at a concrete input.
use radicle_git.Base.{
  Pairs, ℕ, ◌≡◌, refl, List, [], ◌∷◌, Option, none, some, Result, ok, err, codes, true, false,
}
use radicle_git.Base.Map.{Map}
use mathlib.Core.List.{Perm}
use radicle_git.Surf.Fs
use radicle_git.Surf.Fs.{
  ObjectType, TreeEntry, GitTree, Repository, PathBuf, Directory, entries, find_directory, values,
}
use radicle_git.Surf.Tree.{EntryKind, Entry, Tree, read_tree}
use radicle_git.Surf.Tree.Order.{Ordered, Made, read_tree-Ordered}

abbrev top : GitTree (Unit {0})
top = record {
  walked =
      record { name = some (codes "a"); id = 2 ∷ []; kind = some ObjectType.blob }
      ∷ record { name = some (codes "b"); id = 3 ∷ []; kind = some ObjectType.tree }
      ∷ [];
  walk_error = λ _. none;
  get_path = λ _. err tt;
}

abbrev repo : Repository (Unit {0})
repo = record { find_tree = λ _. ok top; find_blob = λ _. err tt; is_not_found_err = λ _. true }

abbrev top_dir : Directory
top_dir = record { name = []; prefix = []; id = 1 ∷ [] }

-- A commit is the number of components of the path.
abbrev last : PathBuf → Result (Unit {0}) (Option ℕ)
last p = ok (some (elim p [ [] ↦ 0 | _ ∷ _ ↦ 1 ]))

-- The directory comes before the file.
abbrev top_tree : Tree ℕ
top_tree = record {
  id = 1 ∷ [];
  entries =
      record { name = codes "b"; entry = EntryKind.tree (3 ∷ []); commit = 1 }
      ∷ record { name = codes "a"; entry = EntryKind.blob (2 ∷ []); commit = 1 }
      ∷ [];
  commit = 0;
}

read_top : read_tree last repo top_dir [] ≡ ok top_tree
unfolding read_tree radicle_git.Base.Map.insert radicle_git.Base.str_eq radicle_git.Base.Map.str_lt
read_top = refl

read_tree-Ordered_example :
    (dir : Directory) × (find_directory repo top_dir [] ≡ ok dir)
    × (top_tree.id ≡ dir.id)
    × (last [] ≡ ok (some top_tree.commit))
    × Ordered top_tree.entries
    × ((listing : Map Fs.Entry) × (entries repo dir ≡ ok listing)
        × ((es : List (Entry ℕ)) × Pairs (Made last) (values listing) es
            × Perm top_tree.entries es))
read_tree-Ordered_example = read_tree-Ordered last repo top_dir [] read_top
