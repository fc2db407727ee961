-- ===== src/Link/Index/Tests.antt =====
-- Runs of the search for objects of archived/link-git, and its theorems at concrete inputs.
use mathlib.Core.List.{Perm}
use radicle_git.Base.{
  Str, codes, ℕ, ◌+◌, ◌≡◌, refl, ◌⊎◌, Bool, true, false, List, [], ◌∷◌, none, some, Result, ok, err,
  if◌then◌else◌, ◌==◌, Pairs,
}
use radicle_git.Storage.Previous.{Oid}
use radicle_git.Link.Window.{Info}
use radicle_git.Link.Index.{
  Index, DirEntry, PackDir, Shared, Odb, reload, any_contains, discover, push, lookup, contains,
  odb_find,
}
use radicle_git.Link.Index.Search.{odb_find-none}
use radicle_git.Link.Index.Newest.{IdxFiles, Descending, discover-Descending}

abbrev starts : ℕ → Oid → Bool
starts n [] = false
starts n (c ∷ cs) = c == n

-- The index at a path has the one object that begins with that number.
abbrev index_at : ℕ → Index ℕ
index_at p = record {
  info = record { hash = p; data_path = p };
  file = record {
    lookup_oid = λ id. if starts p id then some 0 else none;
    pack_offset_at_index = λ i. i + 12;
  };
}

abbrev entry_at : ℕ → Str → ℕ → Result (Unit {0}) (DirEntry (Unit {0}) ℕ)
entry_at p extension time =
    ok (record { path = p; is_file = ok true; extension = some extension; modified = ok time })

abbrev three_packs : PackDir (Unit {0}) (Unit {0}) ℕ
three_packs = record {
  read_dir = ok (
      entry_at 1 (codes "idx") 10
      ∷ entry_at 2 (codes "pack") 40
      ∷ entry_at 3 (codes "idx") 30
      ∷ entry_at 4 (codes "idx") 20
      ∷ []);
  is_not_found = λ e. false;
  open_index = λ p. ok (index_at p);
}

run_discover : discover three_packs ≡ ok (index_at 3 ∷ index_at 4 ∷ index_at 1 ∷ [])
unfolding discover radicle_git.Base.str_eq
run_discover = refl

abbrev fresh : Shared ℕ
fresh = record { indices = []; stats = record { hits = 0; misses = 0; pushes = 0; reloads = 0 } }

abbrev pack_cache : Unit {0} → Info ℕ → Result (Unit {0}) ℕ × Unit {0}
pack_cache c info = (ok info.hash, tt)

abbrev decode : ℕ → ℕ → Index ℕ → Result (Unit {0}) ℕ
decode d o idx = ok (d + o)

-- The first look loads the indices, and a second one finds the object at once.
run_lookup : lookup three_packs pack_cache decode tt (4 ∷ []) fresh ≡ (
  ok (some 16),
  tt,
  record {
    indices = index_at 3 ∷ index_at 4 ∷ index_at 1 ∷ [];
    stats = record { hits = 1; misses = 0; pushes = 0; reloads = 1 };
  },
)
unfolding lookup radicle_git.Base.str_eq
run_lookup = refl

run_push :
    (contains three_packs (9 ∷ []) (push (index_at 9) fresh)).1.stats
    ≡ record { hits = 1; misses = 0; pushes = 1; reloads = 0 }
unfolding contains push
run_push = refl

abbrev store : Odb ℕ (Unit {0}) (Unit {0}) ℕ
store = record {
  loose = record {
    loose_contains = λ id. starts 7 id;
    try_find = λ id. if starts 7 id then ok (some 70) else ok none;
  };
  index = fresh;
  packs = tt;
}

run_loose : (odb_find three_packs pack_cache decode (7 ∷ []) store).0 ≡ ok (some 70)
unfolding odb_find radicle_git.Base.str_eq
run_loose = refl

run_nowhere : (odb_find three_packs pack_cache decode (5 ∷ []) store).0 ≡ ok none
unfolding odb_find radicle_git.Base.str_eq
run_nowhere = refl

odb_find-none_example :
    (any_contains (5 ∷ []) fresh.indices ≡ false)
    × ((s1 : Shared ℕ)
        → reload three_packs fresh ≡ ok s1
        → any_contains (5 ∷ []) s1.indices ≡ false)
    × (store.loose.try_find (5 ∷ []) ≡ ok none)
odb_find-none_example = odb_find-none three_packs pack_cache decode (5 ∷ []) store run_nowhere

discover-Descending_example :
    ((e : Unit {0}) × (three_packs.read_dir ≡ err e)
      × (three_packs.is_not_found e ≡ true)
      × (index_at 3 ∷ index_at 4 ∷ index_at 1 ∷ [] ≡ []))
    ⊎ ((iter : List (Result (Unit {0}) (DirEntry (Unit {0}) ℕ))) × (three_packs.read_dir ≡ ok iter)
        × ((files sorted : List (ℕ × ℕ)) × IdxFiles iter files
            × Perm sorted files
            × Descending sorted
            × Pairs
                (λ p i. three_packs.open_index p.0 ≡ ok i)
                sorted
                (index_at 3 ∷ index_at 4 ∷ index_at 1 ∷ [])))
unfolding discover
discover-Descending_example = discover-Descending three_packs run_discover
