-- ===== src/Link/Index/Newest.antt =====
-- The order in which archived/link-git/src/odb/index.rs holds the indices that it discovers.
use mathlib.Core.List.{reverse, reverse_aux, Perm, perm_middle}
use mathlib.Core.List.Perm
use radicle_git.Base.{
  ℕ, ◌≤◌, ltb, ◌≡◌, sym, ◌⊎◌, inl, inr, Bool, true, false, ◌&&◌, List, [], ◌∷◌, ◌++◌, if◌then◌else◌,
  Bool-cases, Result, ok, err, ◌>>=◌, map_err, map_err-ok, bind-eq-ok, Result-cases, ok-injective,
  All, Pairs, append-nil, arith,
}
use radicle_git.Link.Index.{
  has_idx, Index, DirEntry, PackDir, Discover, collect_paths, insert_path, sort_paths, open_all,
  discover,
}

module _ {P : Type 0} where
  abbrev pub Oldest : ℕ → List (P × ℕ) → Type 0
  Oldest n ps = All (λ p. n ≤ p.1) ps

  abbrev pub Newest : ℕ → List (P × ℕ) → Type 0
  Newest n ps = All (λ p. p.1 ≤ n) ps

  abbrev pub Ascending : List (P × ℕ) → Type 0
  Ascending [] = Unit
  Ascending (p ∷ ps) = Oldest p.1 ps × Ascending ps

  -- Each is changed last no later than those before it.
  abbrev pub Descending : List (P × ℕ) → Type 0
  Descending [] = Unit
  Descending (p ∷ ps) = Newest p.1 ps × Descending ps

  Oldest-le : (n m : ℕ) (ps : List (P × ℕ)) → m ≤ n → Oldest n ps → Oldest m ps
  Oldest-le n m [] le h = tt
  Oldest-le n m (p ∷ ps) le h = (omega (arith, le, h.0), Oldest-le n m ps le h.1)

  insert_path-Oldest :
      (n : ℕ) (x : P × ℕ) (ys : List (P × ℕ)) → n ≤ x.1 → Oldest n ys → Oldest n (insert_path x ys)
  unfolding insert_path
  insert_path-Oldest n x [] le h = (le, tt)
  insert_path-Oldest n x (y ∷ ys) le h = elim (Bool-cases (ltb y.1 x.1)) [
    | inl e ↦ rw e (h.0, insert_path-Oldest n x ys le h.1)
    | inr e ↦ rw e (le, h)
  ]

  insert_path-Ascending :
      (x : P × ℕ) (ys : List (P × ℕ)) → Ascending ys → Ascending (insert_path x ys)
  unfolding insert_path
  insert_path-Ascending x [] h = (tt, tt)
  insert_path-Ascending x (y ∷ ys) (old, h) = elim (Bool-cases (ltb y.1 x.1)) [
    | inl e ↦
        rw e (insert_path-Oldest y.1 x ys (ground (arith, e)) old, insert_path-Ascending x ys h)
    | inr e ↦
        let le : x.1 ≤ y.1 = ground (arith, e) in rw e ((le, Oldest-le y.1 x.1 ys le old), (old, h))
  ]

  insert_path-Perm : (x : P × ℕ) (ys : List (P × ℕ)) → Perm (insert_path x ys) (x ∷ ys)
  unfolding insert_path
  insert_path-Perm x [] = Perm.refl (x ∷ [])
  insert_path-Perm x (y ∷ ys) = elim (Bool-cases (ltb y.1 x.1)) [
    | inl e ↦ rw e (Perm.trans (Perm.cons y (insert_path-Perm x ys)) (Perm.swap x y ys))
    | inr e ↦ rw e (Perm.refl (x ∷ y ∷ ys))
  ]

  sort_paths-Ascending : (ps : List (P × ℕ)) → Ascending (sort_paths ps)
  unfolding sort_paths
  sort_paths-Ascending [] = tt
  sort_paths-Ascending (p ∷ ps) = insert_path-Ascending p (sort_paths ps) (sort_paths-Ascending ps)

  sort_paths-Perm : (ps : List (P × ℕ)) → Perm (sort_paths ps) ps
  unfolding sort_paths
  sort_paths-Perm [] = Perm.refl []
  sort_paths-Perm (p ∷ ps) =
      Perm.trans (insert_path-Perm p (sort_paths ps)) (Perm.cons p (sort_paths-Perm ps))

  reverse_aux-Descending :
      (ps qs : List (P × ℕ))
      → Ascending ps
      → Descending qs
      → All (λ p. Newest p.1 qs) ps
      → Descending (reverse_aux ps qs)
  reverse_aux-Descending [] qs up down cross = down
  reverse_aux-Descending (p ∷ ps) qs (old, up) down (new, cross) =
      reverse_aux-Descending ps (p ∷ qs) up (new, down) (All-both ps old cross)
    where
      All-both :
          (rs : List (P × ℕ))
          → Oldest p.1 rs
          → All (λ r. Newest r.1 qs) rs
          → All (λ r. Newest r.1 (p ∷ qs)) rs
      All-both [] a b = tt
      All-both (r ∷ rs) a b = ((a.0, b.0), All-both rs a.1 b.1)

  Newest-nil : (ps : List (P × ℕ)) → All (λ p. Newest p.1 []) ps
  Newest-nil [] = tt
  Newest-nil (p ∷ ps) = (tt, Newest-nil ps)

  reverse-Descending : (ps : List (P × ℕ)) → Ascending ps → Descending (reverse ps)
  reverse-Descending ps up = reverse_aux-Descending ps [] up tt (Newest-nil ps)

  reverse_aux-Perm : (ps qs : List (P × ℕ)) → Perm (reverse_aux ps qs) (ps ++ qs)
  reverse_aux-Perm [] qs = Perm.refl qs
  reverse_aux-Perm (p ∷ ps) qs = Perm.trans (reverse_aux-Perm ps (p ∷ qs)) (perm_middle ps qs)

  reverse-Perm : (ps : List (P × ℕ)) → Perm (reverse ps) ps
  reverse-Perm ps = rw (append-nil ps) at (reverse_aux-Perm ps [])

module _ {IO P : Type 0} where
  -- What the entry of a directory gives: its path and time where it is an index file.
  abbrev pub IdxFile : DirEntry IO P → Bool → List (P × ℕ) → Type 0
  IdxFile entry true new =
      (mtime : ℕ) × (entry.modified ≡ ok mtime) × (new ≡ (entry.path, mtime) ∷ [])
  IdxFile entry false new = new ≡ []

  -- The index files among the entries of a directory, with their times.
  abbrev pub IdxFiles : List (Result IO (DirEntry IO P)) → List (P × ℕ) → Type 0
  IdxFiles [] ps = ps ≡ []
  IdxFiles (e ∷ es) ps =
      (entry : DirEntry IO P) × (e ≡ ok entry)
      × ((is_file : Bool) × (entry.is_file ≡ ok is_file)
          × ((new : List (P × ℕ)) × ((rest : List (P × ℕ)) × (ps ≡ new ++ rest)
                × IdxFiles es rest
                × IdxFile entry (is_file && has_idx entry.extension) new)))

module _ {IO X P : Type 0} where
  -- The entry of one file in the list, as `collect_paths` makes it.
  new_of : DirEntry IO P → Bool → Result (Discover IO X) (List (P × ℕ))
  new_of entry b =
      if b
      then (do mtime ← map_err Discover.io entry.modified; ok ((entry.path, mtime) ∷ []))
      else ok []

  new_of-IdxFile :
      (entry : DirEntry IO P) (b : Bool) {new : List (P × ℕ)}
      → new_of entry b ≡ ok new
      → IdxFile entry b new
  unfolding new_of
  new_of-IdxFile entry true h =
      let (mtime, read, h1) = bind-eq-ok (map_err Discover.io entry.modified) _ h in
      (mtime, map_err-ok {F = Discover IO X} Discover.io entry.modified read, sym (ok-injective h1))
  new_of-IdxFile entry false h = sym (ok-injective h)

  collect_paths-IdxFiles :
      (es : List (Result IO (DirEntry IO P))) {ps : List (P × ℕ)}
      → collect_paths {X = X} es ≡ ok ps
      → IdxFiles es ps
  unfolding collect_paths new_of
  collect_paths-IdxFiles [] h = sym (ok-injective h)
  collect_paths-IdxFiles (e ∷ es) h =
      let (entry, e1, h1) = bind-eq-ok (map_err Discover.io e) _ h in
      let (is_file, e2, h2) = bind-eq-ok (map_err Discover.io entry.is_file) _ h1 in
      let (new, e3, h3) = bind-eq-ok (new_of entry (is_file && has_idx entry.extension)) _ h2 in
      let (rest, e4, h4) = bind-eq-ok (collect_paths es) _ h3 in
      (
        entry,
        map_err-ok {F = Discover IO X} Discover.io e e1,
        (
          is_file,
          map_err-ok {F = Discover IO X} Discover.io entry.is_file e2,
          (
            new,
            (
              rest,
              sym (ok-injective h4),
              collect_paths-IdxFiles es e4,
              new_of-IdxFile entry (is_file && has_idx entry.extension) e3,
            ),
          ),
        ),
      )

  open_all-Pairs :
      (open_index : P → Result X (Index P)) (ps : List (P × ℕ)) {is : List (Index P)}
      → open_all {IO = IO} open_index ps ≡ ok is
      → Pairs (λ p i. open_index p.0 ≡ ok i) ps is
  unfolding open_all
  open_all-Pairs open_index [] h = rw (← ok-injective h) tt
  open_all-Pairs open_index ((path, mtime) ∷ ps) h =
      let (i, read, h1) = bind-eq-ok (map_err Discover.index (open_index path)) _ h in
      let (rest, more, h2) = bind-eq-ok (open_all open_index ps) _ h1 in
      rw (← ok-injective h2) (
        map_err-ok {F = Discover IO X} Discover.index (open_index path) read,
        open_all-Pairs open_index ps more,
      )

  -- The indices that are discovered are those of the index files in the directory of packs, those
  -- changed last first; there are none where the directory does not exist.
  pub discover-Descending :
      (dir : PackDir IO X P) {is : List (Index P)}
      → discover dir ≡ ok is
      → ((e : IO) × (dir.read_dir ≡ err e) × (dir.is_not_found e ≡ true) × (is ≡ []))
        ⊎ ((iter : List (Result IO (DirEntry IO P))) × (dir.read_dir ≡ ok iter)
            × ((files sorted : List (P × ℕ)) × IdxFiles iter files
                × Perm sorted files
                × Descending sorted
                × Pairs (λ p i. dir.open_index p.0 ≡ ok i) sorted is))
  unfolding discover
  discover-Descending dir h = elim (Result-cases (dir.read_dir)) [
    | inr (e, failed) ↦ elim (Bool-cases (dir.is_not_found e)) [
      | inl gone ↦ inl (e, failed, gone, sym (ok-injective (rw (discover, failed, gone) at h)))
      | inr other ↦ absurd (let h1 = (rw (discover, failed, other) at h) in cc)
    ]
    | inl (iter, read) ↦
        let (files, e1, h1) = bind-eq-ok (collect_paths iter) _ (rw (discover, read) at h) in
        inr (
          iter,
          read,
          (
            files,
            reverse (sort_paths files),
            collect_paths-IdxFiles iter e1,
            Perm.trans (reverse-Perm (sort_paths files)) (sort_paths-Perm files),
            reverse-Descending (sort_paths files) (sort_paths-Ascending files),
            open_all-Pairs dir.open_index (reverse (sort_paths files)) h1,
          ),
        )
  ]
