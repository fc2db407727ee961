-- ===== src/Link/Index.antt =====
-- archived/link-git/src/odb/index.rs, pack.rs, backend.rs and odb.rs: the search for objects in packs.
pub mod Search
pub mod Newest
mod Tests
use mathlib.Core.List.{reverse}
use radicle_git.Base.{
  ℕ, zero, suc, ◌+◌, ltb, Bool, true, false, ◌&&◌, ◌||◌, List, [], ◌∷◌, ◌++◌, Option, none, some,
  if◌then◌else◌, Result, ok, err, ◌>>=◌, map_err, Str, codes, str_eq, map_ok,
}
use radicle_git.Storage.Previous.{Oid}
use radicle_git.Link.Window.{Info, fetch_add}

-- An index file of gitoxide: the position of an object, and the offset in the pack for it.
pub record IndexFile : Type 0 where
  pub lookup_oid : Oid → Option ℕ
  pub pack_offset_at_index : ℕ → ℕ

-- `Index` of pack.rs, over the paths
pub record Index (P : Type 0) : Type 0 where
  pub info : Info P
  pub file : IndexFile

abbrev pub is_some {ℓ} : {A : Type ℓ} → Option A → Bool
is_some none = false
is_some (some a) = true

module _ {P : Type 0} where
  -- `Index::contains` of pack.rs
  unfoldable pub index_contains : Oid → Index P → Bool
  index_contains id idx = is_some (idx.file.lookup_oid id)

  -- `Index::ofs` of pack.rs
  unfoldable pub ofs : Oid → Index P → Option ℕ
  ofs id idx = elim (idx.file.lookup_oid id) [
    | none ↦ none
    | some i ↦ some (idx.file.pack_offset_at_index i)
  ]

pub record Stats : Type 0 where
  pub hits : ℕ
  pub misses : ℕ
  pub pushes : ℕ
  pub reloads : ℕ

unfoldable pub record_hit : Stats → Stats
record_hit s = record s { hits = fetch_add s.hits }

unfoldable pub record_miss : Stats → Stats
record_miss s = record s { misses = fetch_add s.misses }

unfoldable pub record_push : Stats → Stats
record_push s = record s { pushes = fetch_add s.pushes }

unfoldable pub record_reload : Stats → Stats
record_reload s = record s { reloads = fetch_add s.reloads }

-- `Shared`
pub record Shared (P : Type 0) : Type 0 where
  pub indices : List (Index P)
  pub stats : Stats

-- An entry of the directory of packs: whether it is a file, its extension, and the time of its last
-- change.
pub record DirEntry (IO P : Type 0) : Type 0 where
  pub path : P
  pub is_file : Result IO Bool
  pub extension : Option Str
  pub modified : Result IO ℕ

-- `path.extension().unwrap_or_default() == "idx"`
unfoldable pub has_idx : Option Str → Bool
has_idx none = str_eq [] (codes "idx")
has_idx (some extension) = str_eq extension (codes "idx")

-- The directory of packs, and the opening of an index.
pub record PackDir (IO X P : Type 0) : Type 0 where
  pub read_dir : Result IO (List (Result IO (DirEntry IO P)))
  pub is_not_found : IO → Bool
  pub open_index : P → Result X (Index P)

-- `error::Discover`
pub data Discover (IO X : Type 0) : Type 0 where
  index : X → Discover IO X
  io : IO → Discover IO X

module _ {P : Type 0} where
  -- `sort_by` of the times, which is stable, by insertion
  unfoldable pub insert_path : P × ℕ → List (P × ℕ) → List (P × ℕ)
  insert_path x [] = x ∷ []
  insert_path x (y ∷ ys) =
      let rest = insert_path x ys in if ltb y.1 x.1 then y ∷ rest else x ∷ y ∷ ys

  unfoldable pub sort_paths : List (P × ℕ) → List (P × ℕ)
  unfolding insert_path
  sort_paths [] = []
  sort_paths (x ∷ xs) = insert_path x (sort_paths xs)

  -- `Shared::push`
  unfoldable pub push : Index P → Shared P → Shared P
  unfolding record_push
  push idx s = record { indices = idx ∷ s.indices; stats = record_push s.stats }

module _ {IO X P : Type 0} where
  -- The loop over the entries of the directory.
  unfoldable pub collect_paths :
      List (Result IO (DirEntry IO P)) → Result (Discover IO X) (List (P × ℕ))
  unfolding has_idx
  collect_paths [] = ok []
  collect_paths (e ∷ es) = do
    entry ← map_err Discover.io e
    is_file ← map_err Discover.io entry.is_file
    new ←
        (if is_file && has_idx entry.extension
          then (do mtime ← map_err Discover.io entry.modified; ok ((entry.path, mtime) ∷ []))
          else ok [])
    rest ← collect_paths es
    ok (new ++ rest)

  -- The opening of the indices, and its `collect`
  unfoldable pub open_all :
      (P → Result X (Index P)) → List (P × ℕ) → Result (Discover IO X) (List (Index P))
  open_all open_index [] = ok []
  open_all open_index ((path, mtime) ∷ ps) = do
    idx ← map_err Discover.index (open_index path)
    rest ← open_all open_index ps
    ok (idx ∷ rest)

  -- The function `discover`
  unfoldable pub discover : PackDir IO X P → Result (Discover IO X) (List (Index P))
  unfolding collect_paths sort_paths open_all
  discover dir = elim (dir.read_dir) [
    | ok iter ↦ do paths ← collect_paths iter; open_all dir.open_index (reverse (sort_paths paths))
    | err e ↦ if dir.is_not_found e then ok [] else err (Discover.io e)
  ]

  -- `Shared::reload`
  unfoldable pub reload : PackDir IO X P → Shared P → Result (Discover IO X) (Shared P)
  unfolding discover record_reload
  reload dir s = do
    indices ← discover dir
    ok (record { indices = indices; stats = record_reload s.stats })

-- The loop over the indices for one that has the object.
unfoldable pub any_contains : {P : Type 0} → Oid → List (Index P) → Bool
unfolding index_contains
any_contains id [] = false
any_contains id (i ∷ is) = index_contains id i || any_contains id is

unfoldable pub first_ofs : {P : Type 0} → Oid → List (Index P) → Option (ℕ × Index P)
unfolding ofs
first_ofs id [] = none
first_ofs id (i ∷ is) = elim (ofs id i) [ some o ↦ some (o, i) | none ↦ first_ofs id is ]

abbrev counted : {P : Type 0} → (Stats → Stats) → Shared P → Shared P
counted f s = record { indices = s.indices; stats = f s.stats }

-- `error::Lookup`
pub data Lookup (L D G : Type 0) : Type 0 where
  lookup_failed : L → Lookup L D G
  reload_failed : D → Lookup L D G
  decode_failed : G → Lookup L D G

module _ {IO X P : Type 0} (dir : PackDir IO X P) where
  -- `Shared::contains`: the loop of two rounds, with a reload between them
  unfoldable pub contains : Oid → Shared P → Bool × Shared P
  unfolding any_contains reload record_hit record_miss
  contains id s =
      if any_contains id s.indices then (true, counted record_hit s) else elim (reload dir s) [
        | err e ↦ (false, counted record_miss s)
        | ok s1 ↦
            if any_contains id s1.indices
            then (true, counted record_hit s1)
            else (false, counted record_miss s1)
      ]

  module _ {L D G O C : Type 0} (pack_cache : C → Info P → Result L D × C)
      (decode : D → ℕ → Index P → Result G O) where
    -- The function `load_obj`; the cache of packs has a state, and the decoding is a parameter.
    unfoldable pub load_obj : C → ℕ → Index P → Result (Lookup L (Discover IO X) G) O × C
    load_obj cache o idx =
        let (data1, cache1) = pack_cache cache idx.info in
        (do d ← map_err lookup_failed data1; map_err decode_failed (decode d o idx), cache1)

    -- `Shared::lookup`
    unfoldable pub lookup :
        C → Oid → Shared P → Result (Lookup L (Discover IO X) G) (Option O) × C × Shared P
    unfolding first_ofs reload load_obj record_hit record_miss
    lookup cache id s = elim (first_ofs id s.indices) [
      | some (o, idx) ↦
          let (r, cache1) = load_obj cache o idx in (map_ok some r, cache1, counted record_hit s)
      | none ↦ elim (reload dir s) [
        | err e ↦ (err (reload_failed e), cache, s)
        | ok s1 ↦ elim (first_ofs id s1.indices) [
          | some (o, idx) ↦
              let (r, cache1) = load_obj cache o idx in
              (map_ok some r, cache1, counted record_hit s1)
          | none ↦ (ok none, cache, counted record_miss s1)
        ]
      ]
    ]

-- The loose objects of gitoxide.
pub record Loose (G O : Type 0) : Type 0 where
  pub loose_contains : Oid → Bool
  pub try_find : Oid → Result G (Option O)

-- `Odb`, with `Packed` of backend.rs, over a cache of packs
pub record Odb (P C G O : Type 0) : Type 0 where
  pub loose : Loose G O
  pub index : Shared P
  pub packs : C

-- `Error` of odb.rs
pub data OdbError (E G : Type 0) : Type 0 where
  packed : E → OdbError E G
  loose : G → OdbError E G

module _ {IO X P L D G O C : Type 0} (dir : PackDir IO X P)
    (pack_cache : C → Info P → Result L D × C) (decode : D → ℕ → Index P → Result G O) where
  -- `Odb::contains`; `||` asks the loose objects last
  unfoldable pub odb_contains : {H : Type 0} → Oid → Odb P C H O → Bool × Odb P C H O
  unfolding contains
  odb_contains id o =
      let (found, index1) = contains dir id o.index in
      (
        found || o.loose.loose_contains id,
        record { loose = o.loose; index = index1; packs = o.packs },
      )

  -- `Odb::find`
  unfoldable pub odb_find :
      {H : Type 0}
      → Oid
      → Odb P C H O
      → Result (OdbError (Lookup L (Discover IO X) G) H) (Option O) × Odb P C H O
  unfolding contains lookup
  odb_find id o =
      let (found, index1) = contains dir id o.index in
      let (r, data1, index2) = lookup dir pack_cache decode o.packs id index1 in
      if found
      then (map_err OdbError.packed r, record { loose = o.loose; index = index2; packs = data1 })
      else (
        map_err OdbError.loose (o.loose.try_find id),
        record { loose = o.loose; index = index1; packs = o.packs },
      )
