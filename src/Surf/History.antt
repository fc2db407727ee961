-- ===== src/Surf/History.antt =====
-- radicle-surf/src/history.rs, with the parts of repo.rs that it uses: the commits from a head on.
pub mod Touches
pub mod Walk
mod Tests
use radicle_git.Base.{
  Bool, true, false, List, [], ◌∷◌, Option, none, some, if◌then◌else◌, Result, ok, err, map_ok,
  map_err, ◌>>=◌, Str,
}
use radicle_git.Storage.Previous.{Oid}

-- The repository of libgit2, as far as the history reads it. `T` is a tree, `D` a diff, `X` a
-- delta; `commit_try_from` is the conversion of commits, and a revision walk is the list of what
-- it gives.
pub record Commits (G F C T D X K : Type 0) : Type 0 where
  pub find_commit : Oid → Result G C
  pub id : K → Oid
  pub parents : C → List C
  pub tree : C → Result G T
  pub diff_tree_to_tree : Option T → T → Option Str → Result G D
  pub find_similar : D → Result G D
  pub deltas : D → List X
  pub commit_try_from : C → Result F K
  pub revwalk_push : Oid → Result G (List (Result G Oid))

pub data HistoryError (G F : Type 0) : Type 0 where
  git : G → HistoryError G F
  commit : F → HistoryError G F

-- `History`, with the path of the filter, and what the revision walk has left
pub record History (G K : Type 0) : Type 0 where
  pub head : K
  pub revwalk : List (Result G Oid)
  pub filter_by : Option Str

abbrev pub first {ℓ} : {A : Type ℓ} → List A → Option A
first [] = none
first (x ∷ xs) = some x

abbrev pub is_nil {ℓ} : {A : Type ℓ} → List A → Bool
is_nil [] = true
is_nil (x ∷ xs) = false

-- `transpose` of a result of an option
abbrev pub flip : {E A : Type 0} → Result E (Option A) → Option (Result E A)
flip (ok none) = none
flip (ok (some a)) = some (ok a)
flip (err e) = some (err e)

-- `transpose` of an option of a result
abbrev pub flip_back : {E A : Type 0} → Option (Result E A) → Result E (Option A)
flip_back none = ok none
flip_back (some r) = map_ok some r

module _ {G F C T D X K : Type 0} (repo : Commits G F C T D X K) where
  -- `from.map_or(Ok(None), |c| c.tree().map(Some))`
  unfoldable pub old_tree : Option C → Result G (Option T)
  old_tree none = ok none
  old_tree (some c) = map_ok some (repo.tree c)

  -- `Repository::diff_commits`
  unfoldable pub diff_commits : Option Str → Option C → C → Result (HistoryError G F) D
  unfolding old_tree
  diff_commits path from to = do
    new ← map_err HistoryError.git (repo.tree to)
    old ← map_err HistoryError.git (old_tree from)
    diff ← map_err HistoryError.git (repo.diff_tree_to_tree old new path)
    map_err HistoryError.git (repo.find_similar diff)

  -- `Repository::diff_commit_and_parents`
  unfoldable pub diff_commit_and_parents : Str → C → Result (HistoryError G F) (Option Str)
  unfolding diff_commits
  diff_commit_and_parents path c = do
    diff ← diff_commits (some path) (first (repo.parents c)) c
    ok (if is_nil (repo.deltas diff) then none else some path)

  -- `History::new`, from a commit
  unfoldable pub history_new : K → Result (HistoryError G F) (History G K)
  history_new head = do
    revwalk ← map_err HistoryError.git (repo.revwalk_push (repo.id head))
    ok (record { head = head; revwalk = revwalk; filter_by = none })

  -- Whether the filter lets a commit pass.
  unfoldable pub passes : Option Str → C → Result (HistoryError G F) Bool
  unfolding diff_commit_and_parents
  passes none c = ok true
  passes (some path) c = if is_nil path then ok true else (do
    path_opt ← diff_commit_and_parents path c
    ok (elim path_opt [ none ↦ false | some p ↦ true ]))

  -- The closure of `next`
  unfoldable pub found : Option Str → Result G Oid → Result (HistoryError G F) (Option K)
  unfolding passes
  found filter oid = do
    o ← map_err HistoryError.git oid
    c ← map_err HistoryError.git (repo.find_commit o)
    pass ← passes filter c
    if pass then map_ok some (map_err HistoryError.commit (repo.commit_try_from c)) else ok none

  -- The loop of `next`
  unfoldable pub next_walk :
      Option Str → List (Result G Oid) → Option (Result (HistoryError G F) K) × List (Result G Oid)
  unfolding found
  next_walk filter [] = (none, [])
  next_walk filter (oid ∷ oids) =
      let rest = next_walk filter oids in
      elim (flip (found filter oid)) [ none ↦ rest | some r ↦ (some r, oids) ]

  -- `History::next`
  unfoldable pub history_next : History G K → Option (Result (HistoryError G F) K) × History G K
  unfolding next_walk
  history_next h =
      let (r, left) = next_walk h.filter_by h.revwalk in (r, record h { revwalk = left })

  -- `Repository::last_commit`, from a commit
  unfoldable pub last_commit : Str → K → Result (HistoryError G F) (Option K)
  unfolding history_new history_next
  last_commit path rev = do
    h ← history_new rev
    flip_back (history_next (record h { filter_by = some path })).0
