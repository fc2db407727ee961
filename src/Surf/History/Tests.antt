-- ===== src/Surf/History/Tests.antt =====
-- Runs of the history of radicle-surf, and its theorems at concrete inputs.
use radicle_git.Base.{
  suc, ◌≡◌, refl, Bool, List, [], ◌∷◌, some, Result, ok, err, if◌then◌else◌, length, codes, str_eq,
}
use radicle_git.Storage.Previous.{Oid}
use radicle_git.Surf.History.{Commits, HistoryError, History, history_next, last_commit}
use radicle_git.Surf.History.Walk.{collect_all, Items, history_next-Items, Last, last_commit-Last}

-- A commit is its identifier. That of "b" does not touch the path "p", and "x" is not found.
abbrev three_commits : Commits (Unit {0}) (Unit {0}) Oid Oid Bool (Unit {0}) Oid
three_commits = record {
  find_commit = λ o. if str_eq o (codes "x") then err tt else ok o;
  id = λ k. k;
  parents = λ c. [];
  tree = λ c. ok c;
  diff_tree_to_tree = λ old new path. ok (str_eq new (codes "b"));
  find_similar = λ d. ok d;
  deltas = λ d. if d then [] else tt ∷ [];
  commit_try_from = λ c. ok c;
  revwalk_push = λ o. ok (ok (codes "b") ∷ ok (codes "a") ∷ ok (codes "x") ∷ []);
}

abbrev for_path : History (Unit {0}) Oid
for_path = record {
  head = codes "b";
  revwalk = ok (codes "b") ∷ ok (codes "a") ∷ ok (codes "x") ∷ [];
  filter_by = some (codes "p");
}

run_history :
    collect_all (history_next three_commits) 4 for_path
    ≡ some (ok (codes "a") ∷ err (HistoryError.git tt) ∷ [])
unfolding history_next str_eq
run_history = refl

history_next-Items_example :
    (items : List (Result (HistoryError (Unit {0}) (Unit {0})) Oid)) × (collect_all
        (history_next three_commits)
        (suc (length for_path.revwalk))
        for_path
      ≡ some items)
    × Items three_commits for_path.filter_by for_path.revwalk items
history_next-Items_example = history_next-Items three_commits for_path

run_last : last_commit three_commits (codes "p") (codes "b") ≡ ok (some (codes "a"))
unfolding last_commit str_eq
run_last = refl

last_commit-Last_example :
    (walk : List (Result (Unit {0}) Oid)) × (three_commits.revwalk_push (codes "b") ≡ ok walk)
    × Last three_commits (codes "p") walk (some (codes "a"))
last_commit-Last_example = last_commit-Last three_commits (codes "p") (codes "b") run_last
