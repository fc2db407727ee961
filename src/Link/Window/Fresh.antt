-- ===== src/Link/Window/Fresh.antt =====
-- A new cache of archived/link-git/src/odb/window.rs, and packs that are asked of it.
use Prim.Native.Nat.{◌%◌}
use radicle_git.Base.{ℕ, zero, suc, ◌≤◌, ◌≡◌, refl, ap, List, [], ◌∷◌, none, Result, length, All}
use radicle_git.Link.Window.{Data, Info, Fixed, Bucket, get, usize_max, repeat, fixed_default}
use radicle_git.Link.Window.Buckets.{Holds, Unique, AllGood}
use radicle_git.Link.Window.Lookup.{Fits}

length-repeat : {A : Type 0} (n : ℕ) (x : A) → length (repeat n x) ≡ n
length-repeat zero x = refl
length-repeat (suc n) x = ap suc (length-repeat n x)

module _ (F : Type 0) where
  abbrev empty_bucket : ℕ → Bucket F
  empty_bucket n = repeat n none

  none-count : (n : ℕ) → length (empty_bucket n) ≡ n
  none-count zero = refl
  none-count (suc n) = ap suc (none-count n)

  none-All : (P : Data F → Type 0) (n : ℕ) → All (Holds P) (empty_bucket n)
  none-All P zero = tt
  none-All P (suc n) = (tt, none-All P n)

  none-Unique : (n : ℕ) → Unique (empty_bucket n)
  none-Unique zero = tt
  none-Unique (suc n) = none-Unique n

  repeat-AllGood : (n slots i m : ℕ) → AllGood n slots i (repeat m (empty_bucket slots))
  repeat-AllGood n slots i zero = tt
  repeat-AllGood n slots i (suc m) = (
    (
      none-count slots,
      none-All (λ d. d.hash % n ≡ i) slots,
      none-Unique slots,
      none-All (λ d. d.hits ≤ usize_max) slots,
    ),
    repeat-AllGood n slots (suc i) m,
  )

  pub fixed_default-Fits : (n slots : ℕ) → Fits n slots (fixed_default {F = F} n slots)
  unfolding fixed_default
  fixed_default-Fits n slots = (length-repeat n (empty_bucket slots), repeat-AllGood n slots 0 n)

module _ {F : Type 0} where
  -- Packs that are asked for, one behind the other.
  abbrev pub get_all : {E P : Type 0} → (P → Result E F) → Fixed F → List (Info P) → Fixed F
  get_all open_file c [] = c
  get_all open_file c (info ∷ infos) = get_all open_file (get open_file (λ x. x) c info).1 infos
