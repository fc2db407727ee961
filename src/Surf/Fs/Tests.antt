-- ===== src/Surf/Fs/Tests.antt =====
-- Runs of the files and directories of radicle-surf, and their theorems at concrete inputs.
use radicle_git.Base.{
  ℕ, zero, suc, ◌≡◌, refl, true, false, List, [], ◌∷◌, ◌++◌, Option, none, some, Result, ok, err,
  if◌then◌else◌, Str, codes, str_eq,
}
use radicle_git.Base.Map.{Map}
use radicle_git.Storage.Previous.{Oid}
use radicle_git.Surf.Branch.{Failure}
use radicle_git.Surf.Fs.{
  ObjectType, TreeEntry, GitTree, Repository, DirectoryError, path_not_found, invalid_type, File,
  Directory, Entry, file, directory, root, entries, find_entry, find_file, find_directory, try_fold,
  traverse, size,
}
use radicle_git.Surf.Fs.Listing.{Lists, entries-Lists}
use radicle_git.Surf.Fs.Visits.{traverse-Visits}
use radicle_git.Surf.Fs.Size.{size-Sums, wrap_usize}

abbrev file_in : Str → Oid → TreeEntry
file_in name id = record { name = some name; id = id; kind = some ObjectType.blob }

abbrev leaf : GitTree (Unit {0})
leaf = record {
  walked = file_in (codes "b") (3 ∷ []) ∷ [];
  walk_error = λ _. none;
  get_path = λ _. err tt;
}

-- A file `c`, and a directory `a` with a file `b`.
abbrev top : GitTree (Unit {0})
top = record {
  walked =
      file_in (codes "c") (2 ∷ [])
      ∷ record { name = some (codes "a"); id = 4 ∷ []; kind = some ObjectType.tree }
      ∷ [];
  walk_error = λ _. none;
  get_path = λ p. elim p [
    | [] ↦ err tt
    | x ∷ xs ↦ if str_eq x (codes "a") then ok (file_in (codes "b") (3 ∷ [])) else err tt
  ];
}

abbrev repo : Repository (Unit {0})
repo = record {
  find_tree = λ id. ok (if str_eq id (1 ∷ []) then top else leaf);
  find_blob = λ id. ok (if str_eq id (2 ∷ []) then 100 else 5);
  is_not_found_err = λ _. true;
}

abbrev top_dir : Directory
top_dir = record { name = []; prefix = []; id = 1 ∷ [] }

abbrev a_dir : Directory
a_dir = record { name = codes "a"; prefix = []; id = 4 ∷ [] }

abbrev b_file : File
b_file = record { name = codes "b"; prefix = codes "a" ∷ []; id = 3 ∷ [] }

abbrev c_file : File
c_file = record { name = codes "c"; prefix = []; id = 2 ∷ [] }

abbrev top_listing : Map Entry
top_listing = (codes "a", directory a_dir) ∷ (codes "c", file c_file) ∷ []

top_entries : entries repo top_dir ≡ ok top_listing
unfolding entries str_eq radicle_git.Base.Map.insert radicle_git.Base.Map.str_lt
top_entries = refl

a_entries : entries repo a_dir ≡ ok ((codes "b", file b_file) ∷ [])
unfolding entries str_eq radicle_git.Base.Map.insert
a_entries = refl

-- The files have 105 bytes; the 5 in the directory count twice.
top_size : size repo 2 top_dir ≡ ok 110
unfolding size str_eq radicle_git.Base.Map.insert radicle_git.Base.Map.str_lt
top_size = refl

found_b : find_file repo top_dir (codes "a" ∷ codes "b" ∷ []) ≡ ok b_file
unfolding find_file str_eq
found_b = refl

no_directory : find_directory repo top_dir (codes "x" ∷ []) ≡ err (path_not_found (codes "x" ∷ []))
unfolding find_directory str_eq
no_directory = refl

entries-Lists_example :
    (t : GitTree (Unit {0})) × (repo.find_tree top_dir.id ≡ ok t)
    × (t.walk_error false ≡ none)
    × Lists (Unit {0}) [] t.walked top_listing
unfolding radicle_git.Surf.Fs.directory_path
entries-Lists_example = entries-Lists repo top_dir top_entries

abbrev push_entry : List Entry → Entry → Result (Failure (DirectoryError (Unit {0}))) (List Entry)
push_entry es e = ok (es ++ e ∷ [])

traverse-Visits_example :
    traverse (λ e. e) repo 2 top_dir [] push_entry
    ≡ ok (file b_file ∷ directory a_dir ∷ file c_file ∷ [])
traverse-Visits_example =
    traverse-Visits (λ e. e) repo 2 top_dir (file b_file ∷ directory a_dir ∷ file c_file ∷ []) []
      push_entry
      (
        top_listing,
        top_entries,
        (
          file b_file ∷ [],
          file c_file ∷ [],
          refl,
          ((codes "b", file b_file) ∷ [], a_entries, ([], refl, refl)),
          ([], refl, refl),
        ),
      )

size-Sums_example : size repo 2 top_dir ≡ ok (wrap_usize 110)
unfolding str_eq
size-Sums_example = size-Sums repo 2 top_dir 110 (
  top_listing,
  top_entries,
  (
    5,
    100,
    ((codes "b", file b_file) ∷ [], a_entries, (5, 0, refl, refl, refl)),
    refl,
    (100, 0, refl, refl, refl),
  ),
)
