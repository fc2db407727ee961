-- ===== src/Surf/Fs/Listing.antt =====
-- radicle-surf/src/fs.rs: what `Directory::entries` lists.
use radicle_git.Base.{
  ◌≡◌, refl, ap, ◌∙◌, Bool, true, false, List, [], ◌∷◌, Option, none, some, inl, inr, ◌>>=◌,
  if◌then◌else◌, ok, err, map_err, map_err-ok, bind-eq-ok, ok-injective, Result-cases, Str, str_eq,
  All,
}
use radicle_git.Base.Map.{Map, insert, get, Sorted, insert-Sorted, get-insert}
use radicle_git.Surf.Fs.{
  PathBuf, TreeEntry, GitTree, Repository, DirectoryError, Directory, Entry, entry_name, from_entry,
  directory_path, walk, entries, is_some, check,
}

abbrev pub or_else {ℓ} : {A : Type ℓ} → Option A → Option A → Option A
or_else (some x) y = some x
or_else none y = y

or_else_if :
    {A : Type 0} (o : Option A) (b : Bool) (x : A) (y : Option A)
    → or_else o (if b then some x else y) ≡ or_else (or_else o (if b then some x else none)) y
or_else_if (some z) b x y = refl
or_else_if none true x y = refl
or_else_if none false x y = refl

or_else-none : {A : Type 0} (o : Option A) → or_else o none ≡ o
or_else-none (some x) = refl
or_else-none none = refl

check-ok {ℓ} : {E : Type ℓ} (o : Option E) {u : Unit {0}} → check o ≡ ok u → o ≡ none
check-ok none h = refl
check-ok (some e) h = absurd (cc)

module _ (E : Type 0) where
  -- The last of the entries of a tree that has a name.
  abbrev pub last_named : PathBuf → Str → List TreeEntry → Option Entry
  last_named path k [] = none
  last_named path k (e ∷ es) = or_else (last_named path k es) (elim (from_entry {E = E} e path) [
    | ok x ↦ if str_eq k (entry_name x) then some x else none
    | err _ ↦ none
  ])

  -- The entry is of a kind that the code knows, and has a name.
  abbrev pub IsReadable : PathBuf → TreeEntry → Type 0
  IsReadable path e = (x : Entry) × (from_entry {E = E} e path ≡ ok x)

  -- The map is sorted, and holds for each name the last entry of the tree that has it.
  abbrev pub Lists : PathBuf → List TreeEntry → Map Entry → Type 0
  Lists path es m =
      All (IsReadable path) es × Sorted m × ((k : Str) → get k m ≡ last_named path k es)

  walk-get :
      (path : PathBuf) (es : List TreeEntry) (m : Map Entry) {m' : Map Entry}
      → walk {E = E} path es m ≡ (m', none)
      → Sorted m
      → All (IsReadable path) es
        × Sorted m'
        × ((k : Str) → get k m' ≡ or_else (last_named path k es) (get k m))
  unfolding walk
  walk-get path [] m h sorted = rw (← ap (λ p. p.0) h) (tt, sorted, λ k. refl)
  walk-get path (e ∷ es) m {m'} h sorted = elim (Result-cases (from_entry {E = E} e path)) [
    | inr (x, read) ↦ absurd (let h1 = (rw (read, walk) at h) in let gone = ap (λ p. p.1) h1 in cc)
    | inl (x, read) ↦
        let (all, sorted1, gets) =
          walk-get path es (insert (entry_name x) x m) (rw (read, walk) at h)
            (insert-Sorted (entry_name x) x m sorted) in
        (
          ((x, read), all),
          sorted1,
          λ k.
              gets k
              ∙ ap (or_else (last_named path k es)) (get-insert k (entry_name x) x m)
              ∙ rw read (or_else_if (last_named path k es) (str_eq k (entry_name x)) x (get k m)),
        )
  ]

  walk_ended :
      (path : PathBuf) (t : GitTree E) (m' : Map Entry) (o : Option (DirectoryError E))
      {m : Map Entry}
      → walk path t.walked [] ≡ (m', o)
      → (do _ ← map_err DirectoryError.git (check (t.walk_error (is_some o))); _ ← check o; ok m')
        ≡ ok m
      → (t.walk_error false ≡ none) × (walk {E = E} path t.walked [] ≡ (m, none))
  walk_ended path t m' (some e) h g =
      let (_, run, g1) = bind-eq-ok (map_err DirectoryError.git (check (t.walk_error true))) _ g in
      absurd (cc)
  walk_ended path t m' none h g =
      let (_, run, g1) = bind-eq-ok (map_err DirectoryError.git (check (t.walk_error false))) _ g in
      (
        check-ok (t.walk_error false)
            (map_err-ok DirectoryError.git (check (t.walk_error false)) run),
        rw (← ok-injective g1) h,
      )

  -- Entries that all are readable are walked to the end.
  walk-total :
      (path : PathBuf) (es : List TreeEntry) (m : Map Entry)
      → All (IsReadable path) es
      → (m' : Map Entry) × (walk {E = E} path es m ≡ (m', none))
  unfolding walk
  walk-total path [] m all = (m, refl)
  walk-total path (e ∷ es) m ((x, read), all) =
      let (m', rest) = walk-total path es (insert (entry_name x) x m) all in
      (m', rw (read, walk) rest)

-- A directory is listed only if its tree is found, the walk over it does not fail, and each entry
-- in it has a name and is a tree or a blob; the listing is sorted by name and holds for each name
-- the last entry of the tree that has it.
pub entries-Lists :
    {E : Type 0} (repo : Repository E) (d : Directory) {m : Map Entry}
    → entries repo d ≡ ok m
    → (t : GitTree E) × (repo.find_tree d.id ≡ ok t)
      × (t.walk_error false ≡ none)
      × Lists E (directory_path d) t.walked m
unfolding entries get
entries-Lists {E} repo d h =
    let (t, read, h1) = bind-eq-ok (map_err DirectoryError.git (repo.find_tree d.id)) _ h in
    let (run, walked) = walk_ended E (directory_path d) t _ _ refl h1 in
    let (all, sorted, gets) = walk-get E (directory_path d) t.walked [] walked tt in
    (
      t,
      map_err-ok DirectoryError.git (repo.find_tree d.id) read,
      run,
      (all, sorted, λ k. gets k ∙ or_else-none _),
    )

-- Where its tree is found, the walk does not fail and all entries are readable, a directory is
-- listed.
pub entries-total :
    {E : Type 0} (repo : Repository E) (d : Directory) (t : GitTree E)
    → repo.find_tree d.id ≡ ok t
    → t.walk_error false ≡ none
    → All (IsReadable E (directory_path d)) t.walked
    → (m : Map Entry) × (entries repo d ≡ ok m)
unfolding entries
entries-total {E} repo d t read run all =
    let (m, walked) = walk-total E (directory_path d) t.walked [] all in
    (m, rw (read, walked, run) refl)
