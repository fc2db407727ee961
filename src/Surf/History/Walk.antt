-- ===== src/Surf/History/Walk.antt =====
-- Which commits the history of radicle-surf/src/history.rs gives.
use mathlib.Core.Path.{subst}
use radicle_git.Base.{
  ℕ, zero, suc, ◌<◌, ◌≡◌, refl, sym, ap, ◌∙◌, inl, inr, List, [], ◌∷◌, ◌++◌, Option, none, some,
  Option-cases, Result, ok, err, map_err, map_err-ok, bind-eq-ok, length, All, Str, ok-injective,
  Result-cases, arith,
}
use radicle_git.Storage.Previous.{Oid}
use radicle_git.Surf.History.{
  Commits, HistoryError, History, flip, flip_back, found, next_walk, history_next, history_new,
  last_commit,
}
use radicle_git.Surf.History.Touches.{
  Untouched, Item, Failed, found-Untouched, found-Item, found-Failed,
}

abbrev pub cons_all : {B : Type 0} → Option B → Option (List B) → Option (List B)
cons_all none rest = some []
cons_all (some b) none = none
cons_all (some b) (some bs) = some (b ∷ bs)

-- `collect` of an iterator; `none` means that the fuel ran out.
abbrev pub collect_all : {S B : Type 0} → (S → Option B × S) → ℕ → S → Option (List B)
collect_all step zero s = none
collect_all step (suc f) s = cons_all (step s).0 (collect_all step f (step s).1)

module _ {G F C T D X K : Type 0} (repo : Commits G F C T D X K) where
  -- The items of a walk: the commit of each, or the error for it, less the commits that leave the
  -- path untouched.
  pub data Items (filter : Option Str)
      : List (Result G Oid) → List (Result (HistoryError G F) K) → Type 0 where
    over : Items filter [] []
    skip :
        {oid : Result G Oid} {oids : List (Result G Oid)}
        {items : List (Result (HistoryError G F) K)}
        → Untouched repo filter oid
        → Items filter oids items
        → Items filter (oid ∷ oids) items
    take :
        {oid : Result G Oid} {oids : List (Result G Oid)}
        {items : List (Result (HistoryError G F) K)} {k : K}
        → Item repo filter oid k
        → Items filter oids items
        → Items filter (oid ∷ oids) (ok k ∷ items)
    fail :
        {oid : Result G Oid} {oids : List (Result G Oid)}
        {items : List (Result (HistoryError G F) K)} {e : HistoryError G F}
        → Failed repo filter oid e
        → Items filter oids items
        → Items filter (oid ∷ oids) (err e ∷ items)

  abbrev walk_all : Option Str → List (Result G Oid) → List (Result (HistoryError G F) K)
  walk_all filter [] = []
  walk_all filter (oid ∷ oids) = elim (flip (found repo filter oid)) [
    | none ↦ walk_all filter oids
    | some r ↦ r ∷ walk_all filter oids
  ]

  walk_all-Items :
      (filter : Option Str) (oids : List (Result G Oid)) → Items filter oids (walk_all filter oids)
  walk_all-Items filter [] = over
  walk_all-Items filter (oid ∷ oids) = elim (Result-cases (found repo filter oid)) [
    | inr (e, failed) ↦
        rw (walk_all, failed)
          (fail (found-Failed repo filter oid failed) (walk_all-Items filter oids))
    | inl (k, here) ↦ elim (Option-cases k) [
      | inl gone ↦
          let out = here ∙ ap ok gone in
          rw (walk_all, out)
            (skip (found-Untouched repo filter oid out) (walk_all-Items filter oids))
      | inr (k1, there) ↦
          let out = here ∙ ap ok there in
          rw (walk_all, out) (take (found-Item repo filter oid out) (walk_all-Items filter oids))
    ]
  ]

  collect_all-walk_all :
      (h : History G K) (oids : List (Result G Oid)) (f : ℕ)
      → length oids < f
      → collect_all (history_next repo) f (record h { revwalk = oids })
        ≡ some (walk_all h.filter_by oids)
  unfolding history_next next_walk
  collect_all-walk_all h oids zero lt = absurd (omega (arith, lt))
  collect_all-walk_all h [] (suc f) lt = refl
  collect_all-walk_all h (oid ∷ oids) (suc f) lt =
      elim (Option-cases (flip (found repo h.filter_by oid))) [
        | inl gone ↦
            rw (next_walk, walk_all, gone) (collect_all-walk_all h oids (suc f) (omega (arith, lt)))
        | inr (r, here) ↦
            rw (next_walk, walk_all, here, collect_all-walk_all h oids f (omega (arith, lt))) refl
      ]

  -- Collected to the end, which takes one call more than the walk has commits at most, a history
  -- gives for each place of the walk, in order, one item or none. None for a commit whose diff to its
  -- first parent has no delta for the path of the filter, where there is one that is not empty; the
  -- commit, converted, where there is no such path or the diff has a delta; and else the error that
  -- was met.
  pub history_next-Items :
      (h : History G K)
      → (items : List (Result (HistoryError G F) K)) × (collect_all
            (history_next repo)
            (suc (length h.revwalk))
            h
          ≡ some items)
        × Items h.filter_by h.revwalk items
  history_next-Items h = (
    walk_all h.filter_by h.revwalk,
    collect_all-walk_all h h.revwalk (suc (length h.revwalk)) (omega arith),
    walk_all-Items h.filter_by h.revwalk,
  )

  -- What the last commit for a path is in a walk: that of the first place which touches the path,
  -- with all places before it there and the path untouched by them.
  abbrev pub Last : Str → List (Result G Oid) → Option K → Type 0
  Last path walk none = All (Untouched repo (some path)) walk
  Last path walk (some k) =
      (skipped : List (Result G Oid)) × (oid : Result G Oid) × (rest : List (Result G Oid)) × (walk
        ≡ skipped ++ oid ∷ rest)
      × All (Untouched repo (some path)) skipped
      × Item repo (some path) oid k

  Last-skip :
      (path : Str) (oid : Result G Oid) (walk : List (Result G Oid)) (k : Option K)
      → Untouched repo (some path) oid
      → Last path walk k
      → Last path (oid ∷ walk) k
  Last-skip path oid walk none same h = (same, h)
  Last-skip path oid walk (some k) same (skipped, at, rest, eq, all, here) =
      (oid ∷ skipped, at, rest, ap (λ l. oid ∷ l) eq, (same, all), here)

  next_walk-Last :
      (path : Str) (walk : List (Result G Oid)) (k : Option K)
      → flip_back (next_walk repo (some path) walk).0 ≡ ok k
      → Last path walk k
  unfolding next_walk
  next_walk-Last path [] none h = tt
  next_walk-Last path [] (some k) h = absurd (let e = ok-injective h in cc)
  next_walk-Last path (oid ∷ walk) k h = elim (Result-cases (found repo (some path) oid)) [
    | inr (e, failed) ↦ absurd (let h1 = (rw (next_walk, failed) at h) in cc)
    | inl (x, here) ↦ elim (Option-cases x) [
      | inl gone ↦
          let out = here ∙ ap ok gone in
          Last-skip path oid walk k (found-Untouched repo (some path) oid out)
            (next_walk-Last path walk k (rw (next_walk, out) at h))
      | inr (y, there) ↦
          let out = here ∙ ap ok there in
          let same : some y ≡ k = ok-injective (rw (next_walk, out) at h) in
          subst (λ t. Last path (oid ∷ walk) t) same
            ([], oid, walk, refl, tt, found-Item repo (some path) oid out)
    ]
  ]

  -- Where the last commit for a path is asked for and no error met: it is the first commit of the
  -- walk from the head whose diff to its first parent has a delta for the path (the first of all, if
  -- the path is empty); there is none only if no commit of the walk has such a delta.
  pub last_commit-Last :
      (path : Str) (rev : K) {k : Option K}
      → last_commit repo path rev ≡ ok k
      → (walk : List (Result G Oid)) × (repo.revwalk_push (repo.id rev) ≡ ok walk)
        × Last path walk k
  unfolding last_commit history_new history_next
  last_commit-Last path rev {k} h =
      let (h0, made, h1) = bind-eq-ok (history_new repo rev) _ h in
      let (walk, e, same) =
        bind-eq-ok (map_err HistoryError.git (repo.revwalk_push (repo.id rev))) _ made in
      let next_of : History G K → Type 0 =
        λ h. flip_back (history_next repo (record h { filter_by = some path })).0 ≡ ok k in
      (
        walk,
        map_err-ok {F = HistoryError G F} HistoryError.git (repo.revwalk_push (repo.id rev)) e,
        next_walk-Last path walk k (subst next_of (sym (ok-injective same)) h1),
      )
