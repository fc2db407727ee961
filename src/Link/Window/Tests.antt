-- ===== src/Link/Window/Tests.antt =====
-- Runs of the cache of packs of archived/link-git, and its theorems at concrete inputs.
use radicle_git.Base.{
  ℕ, ◌<◌, ◌≡◌, refl, List, [], ◌∷◌, some, Result, ok, err, if◌then◌else◌, ◌==◌, length, arith,
}
use radicle_git.Link.Window.{
  Data, Info, Fixed, Bucket, fixed_default, get, stats, store_slot, set_nth,
}
use radicle_git.Link.Window.Eviction.{Least, store_slot-Least}
use radicle_git.Link.Window.Lookup.{Served, get-Served}
use radicle_git.Link.Window.Fresh.{fixed_default-Fits, get_all}

-- Each path but 9 can be opened.
abbrev open_path : ℕ → Result (Unit {0}) ℕ
open_path p = if p == 9 then err tt else ok p

abbrev pack : ℕ → Info ℕ
pack n = record { hash = n; data_path = n }

abbrev one_slot : Fixed ℕ
one_slot = fixed_default 2 1

-- The second and the fourth pack take the slot of the one before.
abbrev asked : List (Info ℕ)
asked = pack 2 ∷ pack 4 ∷ pack 3 ∷ pack 5 ∷ pack 5 ∷ pack 9 ∷ []

run_asked :
    stats (get_all open_path one_slot asked)
    ≡ record { cache_hits = 1; cache_misses = 5; file_loads = 5; open_files = 2 }
unfolding stats get fixed_default
run_asked = refl

get-Served_example : Served 2 1 4 (get open_path (λ x. x) one_slot (pack 4))
get-Served_example =
    get-Served open_path (λ x. x) 2 1 one_slot (pack 4) (omega arith) (omega arith) (λ x h. h)
      (fixed_default-Fits ℕ 2 1)

abbrev full : Bucket ℕ
full =
    some (record { hash = 2; hits = 7; file = 2 })
    ∷ some (record { hash = 4; hits = 3; file = 4 })
    ∷ []

abbrev newer : Data ℕ
newer = record { hash = 6; hits = 1; file = 6 }

store_slot-Least_example :
    (i : ℕ) × (i < length full)
    × Least i full
    × (store_slot newer full ≡ set_nth i (some newer) full)
store_slot-Least_example =
    store_slot-Least newer full (omega arith) (omega arith, (omega arith, tt))
