-- ===== src/Link/Window/Eviction.antt =====
-- Which slot of a bucket the cache of archived/link-git/src/odb/window.rs gives up.
use Prim.Native.Nat.{◌%◌}
use radicle_git.Base.{
  ℕ, zero, suc, ◌≤◌, ◌<◌, ltb, ◌==◌, ◌≡◌, ◌≢◌, refl, sym, ap, ◌∙◌, List, [], ◌∷◌, ◌++◌,
  append_assoc, Option, none, some, Bool-cases, inl, inr, ◌⊎◌, ==_iff, length, length-append, All,
  arith,
}
use radicle_git.Link.Window.{Data, hit, Bucket, set_nth, touch, choose, store_slot, usize_max}
use radicle_git.Link.Window.Buckets.{Holds, Absent, Unique, Good, Counted, length-set_nth}

-- What a slot holds.
abbrev pub Slot : {A : Type 0} → ℕ → A → List A → Type 0
Slot i x [] = ⊥
Slot zero x (y ∷ ys) = y ≡ x
Slot (suc i) x (y ∷ ys) = Slot i x ys

Slot-append : {A : Type 0} (i : ℕ) (x : A) (xs ys : List A) → Slot i x xs → Slot i x (xs ++ ys)
Slot-append i x [] ys h = absurd h
Slot-append zero x (y ∷ xs) ys h = h
Slot-append (suc i) x (y ∷ xs) ys h = Slot-append i x xs ys h

Slot-length : {A : Type 0} (xs : List A) (y : A) (ys : List A) → Slot (length xs) y (xs ++ y ∷ ys)
Slot-length [] y ys = refl
Slot-length (x ∷ xs) y ys = Slot-length xs y ys

Slot-lt : {A : Type 0} (i : ℕ) (x : A) (xs : List A) → Slot i x xs → i < length xs
Slot-lt i x [] h = absurd h
Slot-lt zero x (y ∷ ys) h = omega arith
Slot-lt (suc i) x (y ∷ ys) h = omega (arith, Slot-lt i x ys h)

module _ {F : Type 0} where
  -- Each slot has an entry, with so many hits at least.
  abbrev pub AtLeast : ℕ → Bucket F → Type 0
  AtLeast n [] = Unit
  AtLeast n (none ∷ b) = ⊥
  AtLeast n (some d ∷ b) = (n ≤ d.hits) × AtLeast n b

  -- The slot is empty, or none is and no entry has fewer hits than the one in it.
  abbrev pub Least : ℕ → Bucket F → Type 0
  Least i b = Slot i none b ⊎ ((d : Data F) × Slot i (some d) b × AtLeast d.hits b)

  AtLeast-append : (n : ℕ) (a b : Bucket F) → AtLeast n a → AtLeast n b → AtLeast n (a ++ b)
  AtLeast-append n [] b h g = g
  AtLeast-append n (none ∷ a) b h g = absurd h
  AtLeast-append n (some d ∷ a) b h g = (h.0, AtLeast-append n a b h.1 g)

  AtLeast-le : (n m : ℕ) (b : Bucket F) → m ≤ n → AtLeast n b → AtLeast m b
  AtLeast-le n m [] le h = tt
  AtLeast-le n m (none ∷ b) le h = h
  AtLeast-le n m (some d ∷ b) le h = (omega (arith, le, h.0), AtLeast-le n m b le h.1)

  choose-Least :
      (pre b : Bucket F) (evict : ℕ) (d : Data F)
      → Slot evict (some d) pre
      → AtLeast d.hits pre
      → Least (choose (length pre) d.hits evict b) (pre ++ b)
  unfolding choose
  choose-Least pre [] evict d slot least =
      inr (d, Slot-append evict (some d) pre [] slot, AtLeast-append d.hits pre [] least tt)
  choose-Least pre (none ∷ b) evict d slot least = inl (Slot-length pre none b)
  choose-Least pre (some e ∷ b) evict d slot least =
      let longer : length (pre ++ some e ∷ []) ≡ suc (length pre) =
        omega (arith, length-append pre (some e ∷ [])) in
      let joined = append_assoc pre (some e ∷ []) b in
      elim (Bool-cases (ltb e.hits d.hits)) [
        | inl less ↦
            rw (less, ← longer, ← joined)
              (choose-Least (pre ++ some e ∷ []) b (length pre) e (Slot-length pre (some e) []) (
                AtLeast-append e.hits pre (some e ∷ [])
                  (AtLeast-le d.hits e.hits pre (ground (arith, less)) least) (omega arith, tt)))
        | inr more ↦
            rw (more, ← longer, ← joined)
              (choose-Least (pre ++ some e ∷ []) b evict d
                (Slot-append evict (some d) pre (some e ∷ []) slot)
                (AtLeast-append d.hits pre (some e ∷ []) least (ground (arith, more), tt)))
      ]

  Least-lt : (i : ℕ) (b : Bucket F) → Least i b → i < length b
  Least-lt i b (inl slot) = Slot-lt i none b slot
  Least-lt i b (inr (d, slot, least)) = Slot-lt i (some d) b slot

  first_kept :
      (e : Data F) (b : Bucket F)
      → e.hits ≤ usize_max
      → choose 0 usize_max 0 (some e ∷ b) ≡ choose 1 e.hits 0 b
  unfolding choose
  first_kept e b le = elim (Bool-cases (ltb e.hits usize_max)) [
    | inl less ↦ rw less refl
    | inr more ↦ let full : e.hits ≡ usize_max = ground (arith, more, le) in rw (more, full) refl
  ]

  -- A new entry is put in a bucket with a slot: into an empty one where there is one, and else in
  -- place of an entry that no other has fewer hits than.
  pub store_slot-Least :
      (d : Data F) (b : Bucket F)
      → 0 < length b
      → Counted b
      → (i : ℕ) × (i < length b) × Least i b × (store_slot d b ≡ set_nth i (some d) b)
  unfolding store_slot choose
  store_slot-Least d [] some_slot counted = absurd (omega (arith, some_slot))
  store_slot-Least d (none ∷ b) some_slot counted = (0, omega arith, inl refl, refl)
  store_slot-Least d (some e ∷ b) some_slot counted =
      let least = choose-Least (some e ∷ []) b 0 e refl (omega arith, tt) in
      let first : choose 0 usize_max 0 (some e ∷ b) ≡ choose 1 e.hits 0 b =
        first_kept e b counted.0 in
      (
        choose 1 e.hits 0 b,
        Least-lt (choose 1 e.hits 0 b) (some e ∷ b) least,
        least,
        ap (λ i. set_nth i (some d) (some e ∷ b)) first,
      )

  -- The parts of a bucket with a new entry in a slot.
  All-set_nth :
      (P : Data F → Type 0) (i : ℕ) (d : Data F) (b : Bucket F)
      → P d
      → All (Holds P) b
      → All (Holds P) (set_nth i (some d) b)
  unfolding set_nth
  All-set_nth P i d [] p all = tt
  All-set_nth P zero d (x ∷ b) p all = (p, all.1)
  All-set_nth P (suc i) d (x ∷ b) p all = (all.0, All-set_nth P i d b p all.1)

  Unique-tail : (x : Option (Data F)) (b : Bucket F) → Unique (x ∷ b) → Unique b
  Unique-tail none b u = u
  Unique-tail (some d) b u = u.1

  Unique-set_nth :
      (i : ℕ) (d : Data F) (b : Bucket F)
      → Absent d.hash b
      → Unique b
      → Unique (set_nth i (some d) b)
  unfolding set_nth
  Unique-set_nth i d [] absent unique = tt
  Unique-set_nth zero d (x ∷ b) absent unique = (absent.1, Unique-tail x b unique)
  Unique-set_nth (suc i) d (none ∷ b) absent unique = Unique-set_nth i d b absent.1 unique
  Unique-set_nth (suc i) d (some x ∷ b) absent unique = (
    All-set_nth (λ y. y.hash ≢ x.hash) i d b (λ e. absent.0 (sym e)) unique.0,
    Unique-set_nth i d b absent.1 unique.1,
  )

  touch-set_nth :
      (i : ℕ) (d : Data F) (b : Bucket F)
      → i < length b
      → Absent d.hash b
      → (d2 : Data F) × (b2 : Bucket F) × (touch d.hash (set_nth i (some d) b) ≡ some (d2, b2))
  unfolding set_nth touch
  touch-set_nth i d [] lt absent = absurd (omega (arith, lt))
  touch-set_nth zero d (x ∷ b) lt absent =
      (hit d, some (hit d) ∷ b, rw ((==_iff d.hash d.hash).1 refl) refl)
  touch-set_nth (suc i) d (none ∷ b) lt absent =
      let (d2, b2, found) = touch-set_nth i d b (omega (arith, lt)) absent.1 in
      (d2, none ∷ b2, rw found refl)
  touch-set_nth (suc i) d (some x ∷ b) lt absent =
      let (d2, b2, found) = touch-set_nth i d b (omega (arith, lt)) absent.1 in
      elim (Bool-cases (x.hash == d.hash)) [
        | inl same ↦ absurd (absent.0 ((==_iff x.hash d.hash).0 same))
        | inr other ↦ (d2, some x ∷ b2, rw (other, found) refl)
      ]

  -- A bucket stays well formed, and has the new entry.
  pub store_slot-Good :
      (n slots i : ℕ) (d : Data F) (b : Bucket F)
      → 0 < slots
      → d.hits ≤ usize_max
      → d.hash % n ≡ i
      → Absent d.hash b
      → Good n slots i b
      → Good n slots i (store_slot d b)
        × ((d2 : Data F) × (b2 : Bucket F) × (touch d.hash (store_slot d b) ≡ some (d2, b2)))
  store_slot-Good n slots i d b some_slot few placed absent (long, all, unique, counted) =
      let (j, lt, least, e) = store_slot-Least d b (rw long some_slot) counted in
      rw e (
        (
          length-set_nth j (some d) b ∙ long,
          All-set_nth (λ x. x.hash % n ≡ i) j d b placed all,
          Unique-set_nth j d b absent unique,
          All-set_nth (λ x. x.hits ≤ usize_max) j d b few counted,
        ),
        touch-set_nth j d b lt absent,
      )
