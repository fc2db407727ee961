-- ===== src/Link/Window.antt =====
-- archived/link-git/src/odb/window.rs, window/metrics.rs and pack.rs: the cache of packs.
pub mod Buckets
pub mod Eviction
pub mod Lookup
pub mod Fresh
mod Tests
use Prim.Native.Nat.{◌%◌, ◌^◌}
use radicle_git.Base.{
  ℕ, zero, suc, ◌+◌, ltb, ◌==◌, Bool, true, false, List, [], ◌∷◌, Option, none, some, if◌then◌else◌,
  Result, ok, err, length,
}

-- `fetch_add` on a `usize` of 64 bits, which wraps around
abbrev pub fetch_add : ℕ → ℕ
fetch_add n = (n + 1) % 2 ^ 64

-- `Data` of pack.rs, over the type of mapped files
pub record Data (F : Type 0) : Type 0 where
  pub hash : ℕ
  pub hits : ℕ
  pub file : F

-- `Data::hit`
unfoldable pub hit : {F : Type 0} → Data F → Data F
hit d = record d { hits = fetch_add d.hits }

-- `Info` of pack.rs
pub record Info (P : Type 0) : Type 0 where
  pub hash : ℕ
  pub data_path : P

pub record Stats : Type 0 where
  pub hits : ℕ
  pub miss : ℕ
  pub load : ℕ

pub record StatsView : Type 0 where
  pub cache_hits : ℕ
  pub cache_misses : ℕ
  pub file_loads : ℕ
  pub open_files : ℕ

unfoldable pub record_hit : Stats → Stats
record_hit s = record s { hits = fetch_add s.hits }

unfoldable pub record_miss : Stats → Stats
record_miss s = record s { miss = fetch_add s.miss }

unfoldable pub record_load : Stats → Stats
record_load s = record s { load = fetch_add s.load }

-- The slots of a bucket.
abbrev pub Bucket : Type 0 → Type 0
Bucket F = List (Option (Data F))

-- `Fixed`; its number of buckets and of slots is the length of these lists.
pub record Fixed (F : Type 0) : Type 0 where
  pub entries : List (Bucket F)
  pub stats : Stats

abbrev pub repeat : {A : Type 0} → ℕ → A → List A
repeat zero x = []
repeat (suc n) x = x ∷ repeat n x

-- An element of an array and an array with an element replaced, where the index is in bounds.
unfoldable pub nth : {A : Type 0} → ℕ → List (List A) → List A
nth i [] = []
nth zero (x ∷ xs) = x
nth (suc i) (x ∷ xs) = nth i xs

unfoldable pub set_nth : {A : Type 0} → ℕ → A → List A → List A
set_nth i y [] = []
set_nth zero y (x ∷ xs) = y ∷ xs
set_nth (suc i) y (x ∷ xs) = x ∷ set_nth i y xs

abbrev pub usize_max : ℕ
usize_max = 18446744073709551615

module _ {F : Type 0} where
  -- `Default for Fixed`, with statistics
  unfoldable pub fixed_default : ℕ → ℕ → Fixed F
  fixed_default buckets slots = record {
    entries = repeat buckets (repeat slots none);
    stats = record { hits = 0; miss = 0; load = 0 };
  }

  unfoldable pub count : Bucket F → ℕ
  count [] = 0
  count (none ∷ b) = count b
  count (some d ∷ b) = suc (count b)

  unfoldable pub open_files : List (Bucket F) → ℕ
  unfolding count
  open_files [] = 0
  open_files (b ∷ bs) = count b + open_files bs

  -- `Fixed::stats`, with `snapshot`
  unfoldable pub stats : Fixed F → StatsView
  unfolding open_files
  stats c = record {
    cache_hits = c.stats.hits;
    cache_misses = c.stats.miss;
    file_loads = c.stats.load;
    open_files = open_files c.entries;
  }

  -- The loops for a hit: the first entry with the hash, counted, and the bucket with its new count,
  -- since the entry is shared.
  unfoldable pub touch : ℕ → Bucket F → Option (Data F × Bucket F)
  unfolding hit
  touch hash [] = none
  touch hash (none ∷ b) = elim (touch hash b) [ none ↦ none | some (d, b1) ↦ some (d, none ∷ b1) ]
  touch hash (some e ∷ b) =
      let rest = touch hash b in
      if e.hash == hash
      then some (hit e, some (hit e) ∷ b)
      else elim rest [ none ↦ none | some (d, b1) ↦ some (d, some e ∷ b1) ]

  -- The loop for an empty slot, or else the entry with the fewest hits, from an index on
  unfoldable pub choose : ℕ → ℕ → ℕ → Bucket F → ℕ
  choose i access evict [] = evict
  choose i access evict (none ∷ b) = i
  choose i access evict (some e ∷ b) =
      let less = choose (suc i) e.hits i b in
      let more = choose (suc i) access evict b in if ltb e.hits access then less else more

  unfoldable pub store_slot : Data F → Bucket F → Bucket F
  unfolding choose set_nth
  store_slot d b = set_nth (choose 0 usize_max 0 b) (some d) b

  unfoldable pub index : ℕ → Fixed F → ℕ
  index hash c = hash % length c.entries

  -- A hit in a bucket that is loaded.
  unfoldable pub found_in : ℕ → Fixed F → Option (Data F × Fixed F)
  unfolding touch index record_hit nth set_nth
  found_in hash c = elim (touch hash (nth (index hash c) c.entries)) [
    | none ↦ none
    | some (d, b) ↦
        some
          (d, record { entries = set_nth (index hash c) b c.entries; stats = record_hit c.stats })
  ]

  -- The load of the file, and its place in the bucket; the entry is counted once it is there.
  unfoldable pub load_into :
      {E P : Type 0} → (P → Result E F) → Fixed F → Info P → Result E (Data F) × Fixed F
  unfolding store_slot record_load index nth set_nth hit
  load_into open_file c info =
      let s = record_load c.stats in
      elim (open_file info.data_path) [
        | err e ↦ (err e, record { entries = c.entries; stats = s })
        | ok file ↦
            let d = hit (record { hash = info.hash; hits = 0; file = file }) in
            let i = index info.hash c in
            (
              ok d,
              record { entries = set_nth i (store_slot d (nth i c.entries)) c.entries; stats = s },
            )
      ]

  -- `Fixed::get`; other threads may change the cache before the lock is taken
  unfoldable pub get :
      {E P : Type 0}
      → (P → Result E F)
      → (Fixed F → Fixed F)
      → Fixed F
      → Info P
      → Result E (Data F) × Fixed F
  unfolding found_in load_into record_miss
  get open_file others c info = elim (found_in info.hash c) [
    | some (d, c1) ↦ (ok d, c1)
    | none ↦
        let c1 = others (record { entries = c.entries; stats = record_miss c.stats }) in
        elim (found_in info.hash c1) [
          | some (d, c2) ↦ (ok d, c2)
          | none ↦ load_into open_file c1 info
        ]
  ]
