-- ===== src/Surf/History/Touches.antt =====
-- Which commits of radicle-surf/src/history.rs touch a path.
use radicle_git.Base.{
  ◌≡◌, ◌≢◌, refl, sym, ap, ◌∙◌, ◌⊎◌, inl, inr, Bool, true, false, if◌then◌else◌, List, [], ◌∷◌,
  Option, none, some, Bool-cases, Option-cases, Result, ok, err, map_ok, map_err, map_err-ok,
  map_err-err, map_ok-ok, map_ok-err, bind-eq-ok, bind-eq-err, ok-injective, Str,
}
use radicle_git.Storage.Previous.{Oid}
use radicle_git.Surf.History.{
  Commits, HistoryError, first, is_nil, old_tree, diff_commits, diff_commit_and_parents, passes,
  found,
}

module _ {G F C T D X K : Type 0} (repo : Commits G F C T D X K) where
  -- The tree of the first parent, if there is one.
  abbrev pub OldTree : List C → Option T → Type 0
  OldTree [] old = old ≡ none
  OldTree (p ∷ ps) old = (t : T) × (repo.tree p ≡ ok t) × (old ≡ some t)

  -- The diff for a path between a commit and its first parent, its renames detected.
  abbrev pub DiffOf : Str → C → D → Type 0
  DiffOf path c d =
      (new : T) × (repo.tree c ≡ ok new)
      × ((old : Option T) × OldTree (repo.parents c) old
          × ((raw : D) × (repo.diff_tree_to_tree old new (some path) ≡ ok raw)
              × (repo.find_similar raw ≡ ok d)))

  -- The commit is there, and its diff to the first parent has no delta for the path of the filter.
  abbrev pub Untouched : Option Str → Result G Oid → Type 0
  Untouched filter oid =
      (path : Str) × (filter ≡ some path)
      × (path ≢ [])
      × ((o : Oid) × (oid ≡ ok o)
          × ((c : C) × (repo.find_commit o ≡ ok c)
              × ((d : D) × DiffOf path c d × (repo.deltas d ≡ []))))

  -- No path is asked for, or the diff to the first parent has a delta for it.
  abbrev pub Touched : Option Str → C → Type 0
  Touched none c = Unit
  Touched (some path) c = (path ≡ []) ⊎ ((d : D) × DiffOf path c d × (repo.deltas d ≢ []))

  -- The commit is there, is touched, and is converted.
  abbrev pub Item : Option Str → Result G Oid → K → Type 0
  Item filter oid k =
      (o : Oid) × (oid ≡ ok o)
      × ((c : C) × (repo.find_commit o ≡ ok c) × Touched filter c × (repo.commit_try_from c ≡ ok k))

  -- The error of a place in a walk: of the walk itself, of the commit, of its diff, or of the
  -- conversion of a commit that is touched.
  pub data Failed (filter : Option Str) : Result G Oid → HistoryError G F → Type 0 where
    no_oid : {e : G} → Failed filter (err e) (HistoryError.git e)
    no_commit :
        {o : Oid} {e : G} → repo.find_commit o ≡ err e → Failed filter (ok o) (HistoryError.git e)
    no_diff :
        {o : Oid} {c : C} {path : Str} {e : HistoryError G F}
        → repo.find_commit o ≡ ok c
        → filter ≡ some path
        → path ≢ []
        → diff_commits repo (some path) (first (repo.parents c)) c ≡ err e
        → Failed filter (ok o) e
    no_conversion :
        {o : Oid} {c : C} {e : F}
        → repo.find_commit o ≡ ok c
        → Touched filter c
        → repo.commit_try_from c ≡ err e
        → Failed filter (ok o) (HistoryError.commit e)

  old_tree-OldTree :
      (ps : List C) {old : Option T} → old_tree repo (first ps) ≡ ok old → OldTree ps old
  unfolding old_tree
  old_tree-OldTree [] h = sym (ok-injective h)
  old_tree-OldTree (p ∷ ps) h =
      let (t, e, same) = map_ok-ok some (repo.tree p) h in (t, e, sym same)

  git_ok :
      {A : Type 0} (r : Result G A) {a : A}
      → map_err {F = HistoryError G F} HistoryError.git r ≡ ok a
      → r ≡ ok a
  git_ok r h = map_err-ok {F = HistoryError G F} HistoryError.git r h

  diff_commits-DiffOf :
      (path : Str) (c : C) {d : D}
      → diff_commits repo (some path) (first (repo.parents c)) c ≡ ok d
      → DiffOf path c d
  unfolding diff_commits
  diff_commits-DiffOf path c h =
      let (new, e1, h1) = bind-eq-ok (map_err HistoryError.git (repo.tree c)) _ h in
      let (old, e2, h2) =
        bind-eq-ok (map_err HistoryError.git (old_tree repo (first (repo.parents c)))) _ h1 in
      let (raw, e3, h3) =
        bind-eq-ok (map_err HistoryError.git (repo.diff_tree_to_tree old new (some path))) _ h2 in
      (
        new,
        git_ok (repo.tree c) e1,
        (
          old,
          old_tree-OldTree (repo.parents c) (git_ok (old_tree repo (first (repo.parents c))) e2),
          (
            raw,
            git_ok (repo.diff_tree_to_tree old new (some path)) e3,
            git_ok (repo.find_similar raw) h3,
          ),
        ),
      )

  no_deltas : (path : Str) (ds : List X) → (if is_nil ds then none else some path) ≡ none → ds ≡ []
  no_deltas path [] h = refl
  no_deltas path (x ∷ ds) h = absurd (cc)

  some_deltas :
      (path : Str) (ds : List X) {p : Str}
      → (if is_nil ds then none else some path) ≡ some p
      → ds ≢ []
  some_deltas path [] h e = absurd (cc)
  some_deltas path (x ∷ ds) h e = absurd (cc)

  diff_commit_and_parents-none :
      (path : Str) (c : C)
      → diff_commit_and_parents repo path c ≡ ok none
      → (d : D) × DiffOf path c d × (repo.deltas d ≡ [])
  unfolding diff_commit_and_parents
  diff_commit_and_parents-none path c h =
      let (d, e, h1) = bind-eq-ok (diff_commits repo (some path) (first (repo.parents c)) c) _ h in
      (d, diff_commits-DiffOf path c e, no_deltas path (repo.deltas d) (ok-injective h1))

  diff_commit_and_parents-some :
      (path : Str) (c : C) {p : Str}
      → diff_commit_and_parents repo path c ≡ ok (some p)
      → (d : D) × DiffOf path c d × (repo.deltas d ≢ [])
  unfolding diff_commit_and_parents
  diff_commit_and_parents-some path c h =
      let (d, e, h1) = bind-eq-ok (diff_commits repo (some path) (first (repo.parents c)) c) _ h in
      (d, diff_commits-DiffOf path c e, some_deltas path (repo.deltas d) (ok-injective h1))

  passes-Touched : (filter : Option Str) (c : C) → passes repo filter c ≡ ok true → Touched filter c
  unfolding passes
  passes-Touched none c h = tt
  passes-Touched (some []) c h = inl refl
  passes-Touched (some (x ∷ path)) c h =
      let (p, e1, h1) = bind-eq-ok (diff_commit_and_parents repo (x ∷ path) c) _ h in
      elim (Option-cases p) [
        | inl gone ↦ absurd (let e = ok-injective (rw gone at h1) in cc)
        | inr (q, there) ↦ inr (diff_commit_and_parents-some (x ∷ path) c (e1 ∙ ap ok there))
      ]

  passes-false :
      (filter : Option Str) (c : C)
      → passes repo filter c ≡ ok false
      → (path : Str) × (filter ≡ some path)
        × (path ≢ [])
        × ((d : D) × DiffOf path c d × (repo.deltas d ≡ []))
  unfolding passes
  passes-false none c h = absurd (let e = ok-injective h in cc)
  passes-false (some []) c h = absurd (let e = ok-injective h in cc)
  passes-false (some (x ∷ path)) c h =
      let (p, e1, h1) = bind-eq-ok (diff_commit_and_parents repo (x ∷ path) c) _ h in
      elim (Option-cases p) [
        | inl gone ↦ (
          x ∷ path,
          refl,
          (λ e. absurd (cc)),
          diff_commit_and_parents-none (x ∷ path) c (e1 ∙ ap ok gone),
        )
        | inr (q, there) ↦ absurd (let e = ok-injective (rw there at h1) in cc)
      ]

  passes-err :
      (filter : Option Str) (c : C) {e : HistoryError G F}
      → passes repo filter c ≡ err e
      → (path : Str) × (filter ≡ some path)
        × (path ≢ [])
        × (diff_commits repo (some path) (first (repo.parents c)) c ≡ err e)
  unfolding passes diff_commit_and_parents
  passes-err none c h = absurd (cc)
  passes-err (some []) c h = absurd (cc)
  passes-err (some (x ∷ path)) c h =
      elim (bind-eq-err (diff_commit_and_parents repo (x ∷ path) c) _ h) [
        | inr (p, e1, h1) ↦ absurd (cc)
        | inl e1 ↦
            elim (bind-eq-err (diff_commits repo (some (x ∷ path)) (first (repo.parents c)) c) _
              e1) [
                | inr (d, e2, h2) ↦ absurd (cc)
                | inl e2 ↦ (x ∷ path, refl, (λ e. absurd (cc)), e2)
              ]
      ]

  map_ok-some : {E A : Type 0} (r : Result E A) → map_ok some r ≢ ok none
  map_ok-some (ok a) h = absurd (cc)
  map_ok-some (err e) h = absurd (cc)

  -- The oid, the commit and the test of the filter that a result of `found` rests on.
  found-passes :
      (filter : Option Str) (oid : Result G Oid) {k : Option K}
      → found repo filter oid ≡ ok k
      → (o : Oid) × (oid ≡ ok o)
        × ((c : C) × (repo.find_commit o ≡ ok c)
            × ((pass : Bool) × (passes repo filter c ≡ ok pass)
                × ((if pass
                      then map_ok some (
                          map_err {F = HistoryError G F} HistoryError.commit
                            (repo.commit_try_from c))
                      else ok none)
                    ≡ ok k)))
  unfolding found
  found-passes filter oid h =
      let (o, e1, h1) = bind-eq-ok (map_err HistoryError.git oid) _ h in
      let (c, e2, h2) = bind-eq-ok (map_err HistoryError.git (repo.find_commit o)) _ h1 in
      let (pass, e3, h3) = bind-eq-ok (passes repo filter c) _ h2 in
      (o, git_ok oid e1, (c, git_ok (repo.find_commit o) e2, (pass, e3, h3)))

  pub found-Untouched :
      (filter : Option Str) (oid : Result G Oid)
      → found repo filter oid ≡ ok none
      → Untouched filter oid
  found-Untouched filter oid h =
      let (o, e1, (c, e2, (pass, e3, h3))) = found-passes filter oid h in
      elim (Bool-cases pass) [
        | inl yes_pass ↦ absurd (
            map_ok-some
              (map_err {F = HistoryError G F} HistoryError.commit (repo.commit_try_from c))
              (rw yes_pass at h3))
        | inr no_pass ↦
            let (path, is, ne, same) = passes-false filter c (e3 ∙ ap ok no_pass) in
            (path, is, ne, (o, e1, (c, e2, same)))
      ]

  pub found-Item :
      (filter : Option Str) (oid : Result G Oid) {k : K}
      → found repo filter oid ≡ ok (some k)
      → Item filter oid k
  found-Item filter oid {k} h =
      let (o, e1, (c, e2, (pass, e3, h3))) = found-passes filter oid h in
      elim (Bool-cases pass) [
        | inr no_pass ↦ absurd (let e = ok-injective (rw no_pass at h3) in cc)
        | inl yes_pass ↦
            let (k1, read, same) =
              map_ok-ok some
                (map_err {F = HistoryError G F} HistoryError.commit (repo.commit_try_from c))
                (rw yes_pass at h3) in
            let eq : k1 ≡ k = cc in
            (
              o,
              e1,
              (
                c,
                e2,
                passes-Touched filter c (e3 ∙ ap ok yes_pass),
                map_err-ok {F = HistoryError G F} HistoryError.commit (repo.commit_try_from c) read
                    ∙ ap ok eq,
              ),
            )
      ]

  found_at-Failed :
      (filter : Option Str) (o : Oid) {e : HistoryError G F}
      → found repo filter (ok o) ≡ err e
      → Failed filter (ok o) e
  unfolding found
  found_at-Failed filter o {e} h =
      elim (bind-eq-err (map_err HistoryError.git (repo.find_commit o)) _ h) [
        | inl e1 ↦
            let (x, is, same) =
              map_err-err {F = HistoryError G F} HistoryError.git (repo.find_commit o) e1 in
            rw (← same) (no_commit is)
        | inr (c, e2, h2) ↦ elim (bind-eq-err (passes repo filter c) _ h2) [
          | inl e3 ↦
              let (path, is, ne, bad) = passes-err filter c e3 in
              no_diff (git_ok (repo.find_commit o) e2) is ne bad
          | inr (pass, e3, h3) ↦ elim (Bool-cases pass) [
            | inr no_pass ↦ absurd (let h4 = (rw no_pass at h3) in cc)
            | inl yes_pass ↦
                let (x, is, same) =
                  map_err-err {F = HistoryError G F} HistoryError.commit (repo.commit_try_from c) (
                    map_ok-err some
                      (map_err {F = HistoryError G F} HistoryError.commit (repo.commit_try_from c))
                      (rw yes_pass at h3)) in
                rw (← same) (
                  no_conversion (git_ok (repo.find_commit o) e2)
                    (passes-Touched filter c (e3 ∙ ap ok yes_pass)) is)
          ]
        ]
      ]

  pub found-Failed :
      (filter : Option Str) (oid : Result G Oid) {e : HistoryError G F}
      → found repo filter oid ≡ err e
      → Failed filter oid e
  unfolding found
  found-Failed filter (ok o) h = found_at-Failed filter o h
  found-Failed filter (err g) {e} h = let same : HistoryError.git g ≡ e = cc in rw (← same) no_oid
