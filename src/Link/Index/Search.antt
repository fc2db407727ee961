-- ===== src/Link/Index/Search.antt =====
-- Which objects archived/link-git/src/odb/index.rs and odb.rs find.
use radicle_git.Base.{
  ℕ, ◌≡◌, ◌≢◌, refl, inl, inr, true, false, List, [], ◌∷◌, none, some, Bool-cases, Option-cases,
  Result, ok, err, map_ok, map_err-ok, Result-cases,
}
use radicle_git.Storage.Previous.{Oid}
use radicle_git.Link.Window.{Info}
use radicle_git.Link.Index.{
  Index, index_contains, ofs, is_some, Shared, PackDir, reload, any_contains, first_ofs, contains,
  load_obj, lookup, Odb, OdbError, odb_find,
}

-- The loop for an offset finds one exactly if the loop for the object finds it.
first_ofs-any_contains :
    {P : Type 0} (id : Oid) (is : List (Index P)) → is_some (first_ofs id is) ≡ any_contains id is
unfolding first_ofs any_contains ofs index_contains
first_ofs-any_contains id [] = refl
first_ofs-any_contains id (i ∷ is) = elim (Option-cases (i.file.lookup_oid id)) [
  | inl gone ↦ rw (first_ofs, gone) (first_ofs-any_contains id is)
  | inr (k, found) ↦ rw (first_ofs, found) refl
]

module _ {IO X P : Type 0} (dir : PackDir IO X P) where
  -- What `contains` says is so of the indices that are held from then on.
  contains-held :
      (id : Oid) (s : Shared P)
      → (contains dir id s).0 ≡ true
      → any_contains id (contains dir id s).1.indices ≡ true
  unfolding contains
  contains-held id s h = elim (Bool-cases (any_contains id s.indices)) [
    | inl here ↦ rw (contains, here) here
    | inr gone ↦ elim (Result-cases (reload dir s)) [
      | inr (e, failed) ↦ absurd (let h1 = (rw (contains, gone, failed) at h) in cc)
      | inl (s1, loaded) ↦ elim (Bool-cases (any_contains id s1.indices)) [
        | inl here ↦ rw (contains, gone, loaded, here) here
        | inr gone1 ↦ absurd (let h1 = (rw (contains, gone, loaded, gone1) at h) in cc)
      ]
    ]
  ]

  -- Where `contains` says no, neither the held indices have the object nor those on disk.
  contains-none :
      (id : Oid) (s : Shared P)
      → (contains dir id s).0 ≡ false
      → (any_contains id s.indices ≡ false)
        × ((s1 : Shared P) → reload dir s ≡ ok s1 → any_contains id s1.indices ≡ false)
  unfolding contains
  contains-none id s h = elim (Bool-cases (any_contains id s.indices)) [
    | inl here ↦ absurd (let h1 = (rw (contains, here) at h) in cc)
    | inr gone ↦ (
      gone,
      λ s1 loaded. elim (Bool-cases (any_contains id s1.indices)) [
        | inl here ↦ absurd (let h1 = (rw (contains, gone, loaded, here) at h) in cc)
        | inr gone1 ↦ gone1
      ],
    )
  ]

map_ok-some : {E A : Type 0} (r : Result E A) → map_ok some r ≢ ok none
map_ok-some (ok a) h = absurd (cc)
map_ok-some (err e) h = absurd (cc)

module _ {IO X P L D G O C : Type 0} (dir : PackDir IO X P)
    (pack_cache : C → Info P → Result L D × C) (decode : D → ℕ → Index P → Result G O) where
  -- An object that the held indices have is looked up, or an error tells why not.
  lookup-held :
      (cache : C) (id : Oid) (s : Shared P)
      → any_contains id s.indices ≡ true
      → (lookup dir pack_cache decode cache id s).0 ≢ ok none
  unfolding lookup
  lookup-held cache id s held h = elim (Option-cases (first_ofs id s.indices)) [
    | inl gone ↦
        absurd (
          let same = first_ofs-any_contains id s.indices in
          let none_found = (rw gone at same) in cc)
    | inr ((o, idx), found) ↦
        map_ok-some (load_obj dir pack_cache decode cache o idx).0 (rw (lookup, found) at h)
  ]

  -- `find` returns no object only if the held indices do not have it, those on disk neither where
  -- they can be read, and it is no loose object.
  pub odb_find-none :
      {H : Type 0} (id : Oid) (o : Odb P C H O)
      → (odb_find dir pack_cache decode id o).0 ≡ ok none
      → (any_contains id o.index.indices ≡ false)
        × ((s1 : Shared P) → reload dir o.index ≡ ok s1 → any_contains id s1.indices ≡ false)
        × (o.loose.try_find id ≡ ok none)
  unfolding odb_find
  odb_find-none id o h = elim (Bool-cases (contains dir id o.index).0) [
    | inl found ↦ absurd (
        lookup-held o.packs id (contains dir id o.index).1 (contains-held dir id o.index found)
          (map_err-ok OdbError.packed _ (rw (odb_find, found) at h)))
    | inr gone ↦
        let (held, loaded) = contains-none dir id o.index gone in
        (held, loaded, map_err-ok OdbError.loose (o.loose.try_find id) (rw (odb_find, gone) at h))
  ]
