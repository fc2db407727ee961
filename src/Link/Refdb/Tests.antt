-- ===== src/Link/Refdb/Tests.antt =====
-- Runs of the references of archived/link-git, and their theorems at concrete inputs.
use radicle_git.Base.{
  ℕ, ◌≤◌, ◌≡◌, refl, [], ◌∷◌, Option, none, some, Result, ok, err, if◌then◌else◌, codes, str_eq,
}
use radicle_git.Link.Refdb.{
  FullName, peeled, symbolic, Reference, FollowError, cycle, follow, Packed, PackedRefs, snapshot,
}
use radicle_git.Link.Refdb.Follow.{Leads, follow-total}
use radicle_git.Link.Refdb.Stale.{Outcome, snapshot-Outcome}

abbrev main : Reference
main = record { name = codes "main"; target = peeled (1 ∷ []) }

abbrev head : Reference
head = record { name = codes "HEAD"; target = symbolic (codes "main") }

abbrev loop : Reference
loop = record { name = codes "a"; target = symbolic (codes "a") }

abbrev refs : FullName → Result (Unit {0}) (Option Reference)
refs name =
    if str_eq name (codes "main")
    then ok (some main)
    else if str_eq name (codes "a")
    then ok (some loop)
    else ok none

main_found : follow refs head ≡ some (ok main)
unfolding follow str_eq
main_found = refl

cycle_found : follow refs loop ≡ some (err (cycle (codes "a")))
unfolding follow str_eq
cycle_found = refl

follow-total_example :
    (r : Result (FollowError (Unit {0})) Reference) × (follow refs head ≡ some r)
    × ((s : Reference) → r ≡ ok s → (n : ℕ) × (n ≤ 5) × Leads refs n head s)
follow-total_example = follow-total refs head

abbrev old : Packed ℕ
old = record { buf = 1; mtime = 10 }

abbrev new : Packed ℕ
new = record { buf = 2; mtime = 20 }

abbrev newer_file : PackedRefs (Unit {0}) ℕ
newer_file = record { metadata = ok (some 20); open_file = ok (some new) }

run_snapshot : snapshot newer_file (λ x. x) (some old) ≡ (ok (some 1), some old)
unfolding snapshot
run_snapshot = refl

snapshot-Outcome_example : Outcome newer_file (λ x. x) old (snapshot newer_file (λ x. x) (some old))
snapshot-Outcome_example = snapshot-Outcome newer_file (λ x. x) old
