-- ===== src/Surf/Fs.antt =====
-- radicle-surf/src/fs.rs: files and directories, read from the trees of libgit2.
pub mod Listing
pub mod Visits
pub mod Size
mod Tests
use Prim.Native.Nat.{◌%◌, ◌^◌}
use radicle_git.Base.{
  ℕ, zero, suc, ◌+◌, ◌==◌, Bool, true, false, List, [], ◌∷◌, ◌++◌, map, Option, none, some,
  if◌then◌else◌, Result, ok, err, ◌>>=◌, map_err, ok_or, Str, codes,
}
use radicle_git.Base.Map.{Map, insert}
use radicle_git.Storage.Previous.{Oid}
use radicle_git.Surf.Branch.{Failure, failed, out_of_fuel}

-- A relative path, as its components.
abbrev pub PathBuf : Type 0
PathBuf = List Str

-- Values of libgit2. `other` is any kind of object that the code does not name.
pub data ObjectType : Type 0 where
  tree blob : ObjectType
  other : ℕ → ObjectType

pub record TreeEntry : Type 0 where
  pub name : Option Str
  pub id : Oid
  pub kind : Option ObjectType

-- A tree: the entries that a walk meets which skips all directories, the error if any that the
-- walk returns once it has met them or has been aborted, and the lookup of a path.
pub record GitTree (E : Type 0) : Type 0 where
  pub walked : List TreeEntry
  pub walk_error : (aborted : Bool) → Option E
  pub get_path : PathBuf → Result E TreeEntry

-- The repository, as far as it is read here; a blob is known by its size.
pub record Repository (E : Type 0) : Type 0 where
  pub find_tree : Oid → Result E (GitTree E)
  pub find_blob : Oid → Result E ℕ
  pub is_not_found_err : E → Bool

pub data FileError (E : Type 0) : Type 0 where
  git : E → FileError E

pub data DirectoryError (E : Type 0) : Type 0 where
  git : E → DirectoryError E
  file : FileError E → DirectoryError E
  invalid_path : PathBuf → DirectoryError E
  invalid_type : PathBuf → Str → DirectoryError E
  utf8_error : DirectoryError E
  path_not_found : PathBuf → DirectoryError E

pub record File : Type 0 where
  pub name : Str
  pub prefix : PathBuf
  pub id : Oid

pub record Directory : Type 0 where
  pub name : Str
  pub prefix : PathBuf
  pub id : Oid

pub data Entry : Type 0 where
  file : File → Entry
  directory : Directory → Entry

-- `name.replace('\\', r"\\")`
unfoldable pub escaped_name : Str → Str
escaped_name [] = []
escaped_name (c ∷ s) =
    let rest = escaped_name s in if c == b'\\' then b'\\' ∷ b'\\' ∷ rest else c ∷ rest

-- `PathBuf::join` with one name, which the root has empty
unfoldable pub join_name : PathBuf → Str → PathBuf
join_name p [] = p
join_name p (c ∷ s) = p ++ (c ∷ s) ∷ []

unfoldable pub directory_path : Directory → PathBuf
unfolding escaped_name join_name
directory_path d = join_name d.prefix (escaped_name d.name)

unfoldable pub file_path : File → PathBuf
unfolding escaped_name join_name
file_path f = join_name f.prefix (escaped_name f.name)

-- `Directory::root`
unfoldable pub root : Oid → Directory
root id = record { name = []; prefix = []; id = id }

-- `Entry::name`
unfoldable pub entry_name : Entry → Str
entry_name (file f) = f.name
entry_name (directory d) = d.name

-- `Entry::path`
unfoldable pub entry_path : Entry → PathBuf
unfolding file_path directory_path
entry_path (file f) = file_path f
entry_path (directory d) = directory_path d

-- `Entry::location`
unfoldable pub location : Entry → PathBuf
location (file f) = f.prefix
location (directory d) = d.prefix

-- `Path::parent`
unfoldable pub parent : PathBuf → Option PathBuf
parent [] = none
parent (x ∷ []) = some []
parent (x ∷ xs) = elim (parent xs) [ none ↦ some [] | some p ↦ some (x ∷ p) ]

-- `ResultExt::or_matches` of radicle-std-ext
unfoldable pub or_matches {ℓ} :
    {E F : Type 0} {A : Type ℓ} → (E → F) → (E → Bool) → Result F A → Result E A → Result F A
or_matches into pred f (ok a) = ok a
or_matches into pred f (err e) = if pred e then f else err (into e)

module _ {E : Type 0} where
  -- The match on the kind of an entry.
  unfoldable pub entry_of :
      Str → PathBuf → Oid → Option ObjectType → Result (DirectoryError E) Entry
  entry_of name path id (some ObjectType.tree) =
      ok (directory (record { name = name; prefix = path; id = id }))
  entry_of name path id (some ObjectType.blob) =
      ok (file (record { name = name; prefix = path; id = id }))
  entry_of name path id (some (ObjectType.other n)) = err (invalid_type path (codes "tree or blob"))
  entry_of name path id none = err (invalid_type path (codes "tree or blob"))

  -- `Entry::from_entry`
  unfoldable pub from_entry : TreeEntry → PathBuf → Result (DirectoryError E) Entry
  unfolding entry_of
  from_entry entry path = do
    name ← ok_or utf8_error entry.name
    entry_of name path entry.id entry.kind

  -- The walk, with its callback: `entries` so far, and the error that ended it.
  unfoldable pub walk : PathBuf → List TreeEntry → Map Entry → Map Entry × Option (DirectoryError E)
  unfolding from_entry entry_name
  walk path [] entries = (entries, none)
  walk path (e ∷ es) entries = elim (from_entry e path) [
    | ok entry ↦ walk path es (insert (entry_name entry) entry entries)
    | err x ↦ (entries, some x)
  ]

abbrev pub is_some {ℓ} : {A : Type ℓ} → Option A → Bool
is_some none = false
is_some (some a) = true

-- An error that may be there.
abbrev pub check {ℓ} : {E : Type ℓ} → Option E → Result E (Unit {0})
check none = ok tt
check (some e) = err e

module _ {E : Type 0} (repo : Repository E) where
  -- `Directory::entries`; the listing of `Entries` is the map.
  unfoldable pub entries : Directory → Result (DirectoryError E) (Map Entry)
  unfolding walk directory_path
  entries d = do
    t ← map_err DirectoryError.git (repo.find_tree d.id)
    let (listing, error) = walk (directory_path d) t.walked []
    _ ← map_err DirectoryError.git (check (t.walk_error (is_some error)))
    _ ← check error
    ok listing

  -- `Directory::find_entry`
  unfoldable pub find_entry : Directory → PathBuf → Result (DirectoryError E) Entry
  unfolding or_matches parent directory_path from_entry
  find_entry d path = do
    t ← map_err DirectoryError.git (repo.find_tree d.id)
    entry ←
        or_matches DirectoryError.git repo.is_not_found_err (err (path_not_found path))
          (t.get_path path)
    up ← ok_or (invalid_path path) (parent path)
    from_entry entry (directory_path d ++ up)

  -- `Directory::find_file`
  unfoldable pub find_file : Directory → PathBuf → Result (DirectoryError E) File
  unfolding find_entry
  find_file d path = do
    entry ← find_entry d path
    elim entry [ file f ↦ ok f | directory _ ↦ err (invalid_type path (codes "file")) ]

  -- `Directory::find_directory`
  unfoldable pub find_directory : Directory → PathBuf → Result (DirectoryError E) Directory
  unfolding find_entry
  find_directory d [] = ok d
  find_directory d (x ∷ xs) = do
    entry ← find_entry d (x ∷ xs)
    elim entry [ directory s ↦ ok s | file _ ↦ err (invalid_type (x ∷ xs) (codes "directory")) ]

  -- `File::content(repo)?.size()`
  unfoldable pub file_size : File → Result (DirectoryError E) ℕ
  file_size f = map_err (λ e. DirectoryError.file (FileError.git e)) (repo.find_blob f.id)

-- `Iterator::try_fold`
abbrev pub try_fold {ℓ} :
    {E : Type 0} {A : Type 0} {B : Type ℓ} → (B → A → Result E B) → B → List A → Result E B
try_fold f acc [] = ok acc
try_fold f acc (x ∷ xs) = do acc1 ← f acc x; try_fold f acc1 xs

-- The closure of `traverse`, given the traversal of a directory.
abbrev pub visit {ℓ} :
    {E : Type 0} {B : Type ℓ}
    → (Directory → B → Result E B)
    → (B → Entry → Result E B)
    → B
    → Entry
    → Result E B
visit rec f acc (file x) = f acc (file x)
visit rec f acc (directory d) = do acc1 ← rec d acc; f acc1 (directory d)

abbrev pub values : Map Entry → List Entry
values m = map (λ p. p.1) m

module _ {E F : Type 0} (wrap : DirectoryError E → F) (repo : Repository E) where
  -- `Directory::traverse`, with fuel for the depth of the directory
  unfoldable pub traverse {ℓ} :
      {B : Type ℓ} → ℕ → Directory → B → (B → Entry → Result (Failure F) B) → Result (Failure F) B
  unfolding entries
  traverse zero d initial f = err out_of_fuel
  traverse (suc n) d initial f = do
    listing ← map_err (λ e. failed (wrap e)) (entries repo d)
    try_fold (visit (λ s acc. traverse n s acc f) f) initial (values listing)

-- `usize` of 64 bits, whose sum wraps around (a build with overflow checks panics there)
abbrev pub usize_add : ℕ → ℕ → ℕ
usize_add a b = (a + b) % 2 ^ 64

module _ {E : Type 0} (repo : Repository E) where
  -- The closure of `size`, given the size of a directory.
  unfoldable pub add_size :
      (Directory → Result (Failure (DirectoryError E)) ℕ)
      → ℕ
      → Entry
      → Result (Failure (DirectoryError E)) ℕ
  unfolding file_size
  add_size rec total (file f) = do s ← map_err failed (file_size repo f); ok (usize_add total s)
  add_size rec total (directory d) = do s ← rec d; ok (usize_add total s)

  -- `Directory::size`, with the same fuel
  unfoldable pub size : ℕ → Directory → Result (Failure (DirectoryError E)) ℕ
  unfolding traverse add_size
  size zero d = err out_of_fuel
  size (suc n) d = traverse (λ e. e) repo (suc n) d 0 (add_size (λ s. size n s))
