-- ===== src/Surf/Tree/Order.antt =====
-- The order of the entries of a tree (radicle-surf/src/tree.rs).
use mathlib.Core.List.{Perm}
use mathlib.Core.List.Perm
use radicle_git.Base.{
  ◌≡◌, Pairs, refl, ap, ◌∙◌, true, false, List, [], ◌∷◌, Option, some, Result, ok, map_err,
  map_err-ok, ok_or-ok, bind-eq-ok, ok-injective, Str, Bool-cases, inl, inr,
}
use radicle_git.Base.Map.{Map, str_lt, str_lt_irrefl, str_lt_trans}
use radicle_git.Surf.Fs
use radicle_git.Surf.Fs.{
  PathBuf, Repository, DirectoryError, Directory, entries, entry_name, entry_path, values,
  find_directory,
}
use radicle_git.Surf.Tree.{
  EntryKind, Entry, Tree, kind_cmp, str_cmp, is_gt, entry_cmp, insert_entry, sort, tree_new,
  kind_of, RepoError, commit_of, tree_entries, read_tree,
}

-- Trees come first, and entries of one kind are in the order of their names.
abbrev pub BeforeBy : EntryKind → EntryKind → Str → Str → Type 0
BeforeBy (EntryKind.tree _) (EntryKind.blob _) a b = Unit
BeforeBy (EntryKind.blob _) (EntryKind.tree _) a b = ⊥
BeforeBy (EntryKind.tree _) (EntryKind.tree _) a b = str_lt b a ≡ false
BeforeBy (EntryKind.blob _) (EntryKind.blob _) a b = str_lt b a ≡ false

str_cmp_gt : (a b : Str) → is_gt (str_cmp a b) ≡ true → str_lt a b ≡ false
str_cmp_gt a b h = elim (Bool-cases (str_lt a b)) [
  | inl e ↦ absurd (let g = (rw e at h) in cc)
  | inr e ↦ e
]

str_cmp_le : (a b : Str) → is_gt (str_cmp a b) ≡ false → str_lt b a ≡ false
str_cmp_le a b h = elim (Bool-cases (str_lt a b)) [
  | inl e ↦ elim (Bool-cases (str_lt b a)) [
    | inl g ↦ absurd (let t = str_lt_trans a b a e g in let f = str_lt_irrefl a in cc)
    | inr g ↦ g
  ]
  | inr e ↦ elim (Bool-cases (str_lt b a)) [
    | inl g ↦ absurd (let t = (rw (e, g) at h) in cc)
    | inr g ↦ g
  ]
]

module _ {C : Type 0} where
  abbrev pub Before : Entry C → Entry C → Type 0
  Before a b = BeforeBy a.entry b.entry a.name b.name

  -- Each entry is before the next one.
  abbrev pub Above : Entry C → List (Entry C) → Type 0
  Above x [] = Unit
  Above x (y ∷ ys) = Before x y × Above y ys

  abbrev pub Ordered : List (Entry C) → Type 0
  Ordered [] = Unit
  Ordered (x ∷ xs) = Above x xs

  gt-Before :
      (x y : Entry C) (k l : EntryKind)
      → x.entry ≡ k
      → y.entry ≡ l
      → is_gt (entry_cmp x y) ≡ true
      → Before y x
  unfolding entry_cmp
  gt-Before x y (EntryKind.tree a) (EntryKind.tree b) ex ey h =
      rw (ex, ey) (str_cmp_gt x.name y.name (rw (ex, ey, kind_cmp) at h))
  gt-Before x y (EntryKind.tree a) (EntryKind.blob b) ex ey h =
      absurd (let g = (rw (ex, ey, kind_cmp) at h) in cc)
  gt-Before x y (EntryKind.blob a) (EntryKind.tree b) ex ey h = rw (ex, ey) tt
  gt-Before x y (EntryKind.blob a) (EntryKind.blob b) ex ey h =
      rw (ex, ey) (str_cmp_gt x.name y.name (rw (ex, ey, kind_cmp) at h))

  le-Before :
      (x y : Entry C) (k l : EntryKind)
      → x.entry ≡ k
      → y.entry ≡ l
      → is_gt (entry_cmp x y) ≡ false
      → Before x y
  unfolding entry_cmp
  le-Before x y (EntryKind.tree a) (EntryKind.tree b) ex ey h =
      rw (ex, ey) (str_cmp_le x.name y.name (rw (ex, ey, kind_cmp) at h))
  le-Before x y (EntryKind.tree a) (EntryKind.blob b) ex ey h = rw (ex, ey) tt
  le-Before x y (EntryKind.blob a) (EntryKind.tree b) ex ey h =
      absurd (let g = (rw (ex, ey, kind_cmp) at h) in cc)
  le-Before x y (EntryKind.blob a) (EntryKind.blob b) ex ey h =
      rw (ex, ey) (str_cmp_le x.name y.name (rw (ex, ey, kind_cmp) at h))

  insert_entry-Above :
      (z x : Entry C) (ys : List (Entry C)) → Before z x → Above z ys → Above z (insert_entry x ys)
  unfolding insert_entry
  insert_entry-Above z x [] h above = (h, tt)
  insert_entry-Above z x (y ∷ ys) h (zy, above) = elim (Bool-cases (is_gt (entry_cmp x y))) [
    | inl e ↦ rw e (zy, insert_entry-Above y x ys (gt-Before x y x.entry y.entry refl refl e) above)
    | inr e ↦ rw e (h, (le-Before x y x.entry y.entry refl refl e, above))
  ]

  insert_entry-Ordered :
      (x : Entry C) (ys : List (Entry C)) → Ordered ys → Ordered (insert_entry x ys)
  unfolding insert_entry
  insert_entry-Ordered x [] h = tt
  insert_entry-Ordered x (y ∷ ys) above = elim (Bool-cases (is_gt (entry_cmp x y))) [
    | inl e ↦ rw e (insert_entry-Above y x ys (gt-Before x y x.entry y.entry refl refl e) above)
    | inr e ↦ rw e (le-Before x y x.entry y.entry refl refl e, above)
  ]

  insert_entry-Perm : (x : Entry C) (ys : List (Entry C)) → Perm (insert_entry x ys) (x ∷ ys)
  unfolding insert_entry
  insert_entry-Perm x [] = Perm.refl (x ∷ [])
  insert_entry-Perm x (y ∷ ys) = elim (Bool-cases (is_gt (entry_cmp x y))) [
    | inl e ↦ rw e (Perm.trans (Perm.cons y (insert_entry-Perm x ys)) (Perm.swap x y ys))
    | inr e ↦ rw e (Perm.refl (x ∷ y ∷ ys))
  ]

  sort-Ordered : (xs : List (Entry C)) → Ordered (sort xs)
  unfolding sort
  sort-Ordered [] = tt
  sort-Ordered (x ∷ xs) = insert_entry-Ordered x (sort xs) (sort-Ordered xs)

  sort-Perm : (xs : List (Entry C)) → Perm (sort xs) xs
  unfolding sort
  sort-Perm [] = Perm.refl []
  sort-Perm (x ∷ xs) = Perm.trans (insert_entry-Perm x (sort xs)) (Perm.cons x (sort-Perm xs))

module _ {E C : Type 0} (last_commit : PathBuf → Result E (Option C)) where
  -- The entry of a tree for an entry of a directory.
  abbrev pub Made : Fs.Entry → Entry C → Type 0
  Made en e =
      (e.name ≡ entry_name en)
      × (e.entry ≡ kind_of en)
      × (last_commit (entry_path en) ≡ ok (some e.commit))

  commit_of-ok :
      (path : PathBuf) {c : C} → commit_of last_commit path ≡ ok c → last_commit path ≡ ok (some c)
  unfolding commit_of
  commit_of-ok path h =
      let (found, read, h1) = bind-eq-ok (map_err RepoError.revision (last_commit path)) _ h in
      map_err-ok {F = RepoError E} RepoError.revision (last_commit path) read
      ∙ ap ok (ok_or-ok {E = RepoError E} (RepoError.path_not_found path) found h1)

  tree_entries-Made :
      (ens : List Fs.Entry) {es : List (Entry C)}
      → tree_entries last_commit ens ≡ ok es
      → Pairs Made ens es
  unfolding tree_entries
  tree_entries-Made [] h = rw (← ok-injective h) tt
  tree_entries-Made (en ∷ ens) h =
      let (c, found, h1) = bind-eq-ok (commit_of last_commit (entry_path en)) _ h in
      let (rest, more, h2) = bind-eq-ok (tree_entries last_commit ens) _ h1 in
      rw (← ok-injective h2)
        ((refl, refl, commit_of-ok (entry_path en) found), tree_entries-Made ens more)

  -- A tree that is read is that of the directory at the path, with the last commit of the path; its
  -- entries are those of the directory, each with the last commit of its own path, the trees first
  -- and each kind in the order of the names.
  pub read_tree-Ordered :
      (repo : Repository E) (root : Directory) (path : PathBuf) {t : Tree C}
      → read_tree last_commit repo root path ≡ ok t
      → (dir : Directory) × (find_directory repo root path ≡ ok dir)
        × (t.id ≡ dir.id)
        × (last_commit path ≡ ok (some t.commit))
        × Ordered t.entries
        × ((listing : Map Fs.Entry) × (entries repo dir ≡ ok listing)
            × ((es : List (Entry C)) × Pairs Made (values listing) es × Perm t.entries es))
  unfolding read_tree tree_new
  read_tree-Ordered repo root path h =
      let (dir, found, h1) =
        bind-eq-ok (map_err RepoError.directory (find_directory repo root path)) _ h in
      let (listing, listed, h2) =
        bind-eq-ok (map_err RepoError.directory (entries repo dir)) _ h1 in
      let (es, made, h3) = bind-eq-ok (tree_entries last_commit (values listing)) _ h2 in
      let (c, last, h4) = bind-eq-ok (commit_of last_commit path) _ h3 in
      rw (← ok-injective h4) (
        dir,
        map_err-ok {F = RepoError E} RepoError.directory (find_directory repo root path) found,
        refl,
        commit_of-ok path last,
        sort-Ordered (sort es),
        (
          listing,
          map_err-ok {F = RepoError E} RepoError.directory (entries repo dir) listed,
          (
            es,
            tree_entries-Made (values listing) made,
            Perm.trans (sort-Perm (sort es)) (sort-Perm es),
          ),
        ),
      )
