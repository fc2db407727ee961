-- ===== src/Link/Window/Buckets.antt =====
-- The buckets of the cache of archived/link-git/src/odb/window.rs stay well formed.
use Prim.Native.Nat.{◌%◌}
use radicle_git.Base.{
  ℕ, zero, suc, ◌+◌, ◌≤◌, ◌<◌, ◌==◌, ◌≡◌, ◌≢◌, refl, ap, List, [], ◌∷◌, Option, none, some,
  Bool-cases, Option-cases, inl, inr, ==_iff, length, All, arith,
}
use radicle_git.Link.Window.{Data, hit, Bucket, nth, set_nth, touch, usize_max}

-- A property of the entry, if any, in a slot.
abbrev pub Holds : {F : Type 0} → (Data F → Type 0) → Option (Data F) → Type 0
Holds P none = Unit
Holds P (some d) = P d

-- No entry has the hash.
abbrev pub Absent : {F : Type 0} → ℕ → Bucket F → Type 0
Absent h b = All (Holds (λ d. d.hash ≢ h)) b

-- No two entries have one hash.
abbrev pub Unique : {F : Type 0} → Bucket F → Type 0
Unique [] = Unit
Unique (none ∷ b) = Unique b
Unique (some d ∷ b) = Absent d.hash b × Unique b

sum_zero : (i : ℕ) → i + 0 ≡ i
sum_zero i = omega arith

sum_suc : (i k : ℕ) → i + suc k ≡ suc i + k
sum_suc i k = omega arith

pub length-set_nth :
    {A : Type 0} (k : ℕ) (y : A) (xs : List A) → length (set_nth k y xs) ≡ length xs
unfolding set_nth
length-set_nth k y [] = refl
length-set_nth zero y (x ∷ xs) = refl
length-set_nth (suc k) y (x ∷ xs) = ap suc (length-set_nth k y xs)

pub some_injective : {A : Type 0} {a b : A} → ◌≡◌ {A = Option A} (some a) (some b) → a ≡ b
some_injective h = cc

pub some_pair :
    {A B : Type 0} {a c : A} {b d : B}
    → ◌≡◌ {A = Option (A × B)} (some (a, b)) (some (c, d))
    → (a ≡ c) × (b ≡ d)
some_pair h = let e = some_injective h in (ap (λ p. p.0) e, ap (λ p. p.1) e)

module _ {F : Type 0} where
  -- Counts are numbers of 64 bits.
  abbrev pub Counted : Bucket F → Type 0
  Counted b = All (Holds (λ d. d.hits ≤ usize_max)) b

  -- A bucket of a cache with `n` buckets of `slots` slots, at an index.
  abbrev pub Good : ℕ → ℕ → ℕ → Bucket F → Type 0
  Good n slots i b = (length b ≡ slots) × All (Holds (λ d. d.hash % n ≡ i)) b × Unique b × Counted b

  abbrev pub AllGood : ℕ → ℕ → ℕ → List (Bucket F) → Type 0
  AllGood n slots i [] = Unit
  AllGood n slots i (b ∷ bs) = Good n slots i b × AllGood n slots (suc i) bs

  pub nth-Good :
      (n slots i k : ℕ) (bs : List (Bucket F))
      → k < length bs
      → AllGood n slots i bs
      → Good n slots (i + k) (nth k bs)
  unfolding nth
  nth-Good n slots i k [] lt good = absurd (omega (arith, lt))
  nth-Good n slots i zero (b ∷ bs) lt good = rw (sum_zero i) good.0
  nth-Good n slots i (suc k) (b ∷ bs) lt good =
      rw (sum_suc i k) (nth-Good n slots (suc i) k bs (omega (arith, lt)) good.1)

  pub set_nth-AllGood :
      (n slots i k : ℕ) (b : Bucket F) (bs : List (Bucket F))
      → Good n slots (i + k) b
      → AllGood n slots i bs
      → AllGood n slots i (set_nth k b bs)
  unfolding set_nth
  set_nth-AllGood n slots i k b [] new good = tt
  set_nth-AllGood n slots i zero b (c ∷ bs) new good = (rw (sum_zero i) at new, good.1)
  set_nth-AllGood n slots i (suc k) b (c ∷ bs) new good =
      (good.0, set_nth-AllGood n slots (suc i) k b bs (rw (sum_suc i k) at new) good.1)

  -- A property of the hashes of a bucket.
  abbrev pub Hashes : (ℕ → Type 0) → Bucket F → Type 0
  Hashes Q b = All (Holds (λ d. Q d.hash)) b

  pub touch-some :
      (h : ℕ) (b : Bucket F) {d : Data F} {b1 : Bucket F}
      → touch h b ≡ some (d, b1)
      → (d.hash ≡ h)
        × (length b1 ≡ length b)
        × ((Q : ℕ → Type 0) → Hashes Q b → Hashes Q b1)
        × (Unique b → Unique b1)
        × (Counted b → Counted b1)
        × ((d2 : Data F) × (b2 : Bucket F) × (touch h b1 ≡ some (d2, b2)))
  unfolding touch hit
  touch-some h [] e = absurd (cc)
  touch-some h (none ∷ b) e = elim (Option-cases (touch h b)) [
    | inl gone ↦ absurd (let e1 = (rw gone at e) in cc)
    | inr ((d, b1), found) ↦
        let (same, long, all, unique, counted, (d2, b2, again)) = touch-some h b found in
        let e1 = some_pair (rw found at e) in
        rw (← e1.0, ← e1.1)
          (
            same,
            ap suc long,
            λ Q q. (tt, all Q q.1),
            unique,
            λ c. (tt, counted c.1),
            (d2, none ∷ b2, rw again refl),
          )
  ]
  touch-some h (some x ∷ b) e = elim (Bool-cases (x.hash == h)) [
    | inl eq ↦
        let e1 = some_pair (rw eq at e) in
        rw (← e1.0, ← e1.1)
          (
            (==_iff x.hash h).0 eq,
            refl,
            λ Q q. q,
            λ u. u,
            λ c. (omega arith, c.1),
            (hit (hit x), some (hit (hit x)) ∷ b, rw eq refl),
          )
    | inr ne ↦ elim (Option-cases (touch h b)) [
      | inl gone ↦ absurd (let e1 = (rw (ne, gone) at e) in cc)
      | inr ((d, b1), found) ↦
          let (same, long, all, unique, counted, (d2, b2, again)) = touch-some h b found in
          let e1 = some_pair (rw (ne, found) at e) in
          rw (← e1.0, ← e1.1)
            (
              same,
              ap suc long,
              λ Q q. (q.0, all Q q.1),
              λ u. (all (λ k. k ≢ x.hash) u.0, unique u.1),
              λ c. (c.0, counted c.1),
              (d2, some x ∷ b2, rw (ne, again) refl),
            )
    ]
  ]

  pub touch-none : (h : ℕ) (b : Bucket F) → touch h b ≡ none → Absent h b
  unfolding touch
  touch-none h [] e = tt
  touch-none h (none ∷ b) e = elim (Option-cases (touch h b)) [
    | inl gone ↦ (tt, touch-none h b gone)
    | inr ((d, b1), found) ↦ absurd (let e1 = (rw found at e) in cc)
  ]
  touch-none h (some x ∷ b) e = elim (Bool-cases (x.hash == h)) [
    | inl eq ↦ absurd (let e1 = (rw eq at e) in cc)
    | inr ne ↦ elim (Option-cases (touch h b)) [
      | inl gone ↦ (λ same. absurd (ground (arith, (==_iff x.hash h).1 same)), touch-none h b gone)
      | inr ((d, b1), found) ↦ absurd (let e1 = (rw (ne, found) at e) in cc)
    ]
  ]
