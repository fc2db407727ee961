-- ===== src/Base/Split.antt =====
-- `str::split` with a `char`, and its laws: the pieces of a text joined again are the text, and
-- pieces with no separator are found again.
use Prim.Native.Nat.{ℕ}
use mathlib.Core.Path.{◌≡◌, refl, sym, ap, ap₂, ◌∙◌}
use mathlib.Core.Logic.{inl, inr}
use mathlib.Core.Bool.{false}
use mathlib.Core.List.{List, [], ◌∷◌, ◌++◌, append-nil, append_assoc}
use native.Mathlib.Omega.{arith}
use radicle_git.Base.Tests.{◌==◌, if◌then◌else◌, ==_iff, Bool-cases}
use radicle_git.Base.Lists.{All}
use radicle_git.Base.Text.{Str, contains}

-- The first piece, and those behind each separator.
unfoldable pub split_first : ℕ → Str → Str × List Str
split_first sep [] = ([], [])
split_first sep (c ∷ s) =
    let (piece, pieces) = split_first sep s in
    if c == sep then ([], piece ∷ pieces) else (c ∷ piece, pieces)

unfoldable pub split : ℕ → Str → List Str
unfolding split_first
split sep s = (split_first sep s).0 ∷ (split_first sep s).1

-- Pieces of a text, each behind a separator.
abbrev pub joined : ℕ → List Str → Str
joined sep [] = []
joined sep (x ∷ xs) = sep ∷ (x ++ joined sep xs)

abbrev pub join_with : ℕ → List Str → Str
join_with sep [] = []
join_with sep (x ∷ xs) = x ++ joined sep xs

abbrev pub Lacks : ℕ → Str → Type 0
Lacks sep s = contains sep s ≡ false

pub joined-append :
    (sep : ℕ) (xs ys : List Str) → joined sep (xs ++ ys) ≡ joined sep xs ++ joined sep ys
joined-append sep [] ys = refl
joined-append sep (x ∷ xs) ys = simp (joined-append sep xs ys, append_assoc)

split_first-join :
    (sep : ℕ) (s : Str) → (split_first sep s).0 ++ joined sep (split_first sep s).1 ≡ s
unfolding split_first
split_first-join sep [] = refl
split_first-join sep (c ∷ s) = elim (Bool-cases (c == sep)) [
  | inl h ↦ rw h (ap₂ ◌∷◌ (sym ((==_iff c sep).0 h)) (split_first-join sep s))
  | inr h ↦ rw h (ap (◌∷◌ c) (split_first-join sep s))
]

-- The pieces joined again are the text.
pub join_with-split : (sep : ℕ) (s : Str) → join_with sep (split sep s) ≡ s
unfolding split
join_with-split sep s = split_first-join sep s

pub joined-split : (sep : ℕ) (s : Str) → joined sep (split sep s) ≡ sep ∷ s
unfolding split
joined-split sep s = ap (◌∷◌ sep) (split_first-join sep s)

-- A text is cut at each separator that stands in it.
split_first-append :
    (sep : ℕ) (a b : Str)
    → split_first sep (a ++ sep ∷ b) ≡ ((split_first sep a).0, (split_first sep a).1 ++ split sep b)
unfolding split_first split
split_first-append sep [] b = rw ((==_iff sep sep).1 refl)
split_first-append sep (c ∷ a) b = elim (Bool-cases (c == sep)) [
  | inl h ↦ rw (h, split_first-append sep a b)
  | inr h ↦ rw (h, split_first-append sep a b)
]

pub split-append : (sep : ℕ) (a b : Str) → split sep (a ++ sep ∷ b) ≡ split sep a ++ split sep b
unfolding split
split-append sep a b = rw (split_first-append sep a b)

pub split-Lacks : (sep : ℕ) (s : Str) → Lacks sep s → split sep s ≡ s ∷ []
unfolding split split_first contains
split-Lacks sep [] h = refl
split-Lacks sep (c ∷ s) h = ground (arith, split-Lacks sep s)

pub All-Lacks-split : (sep : ℕ) (s : Str) → All (Lacks sep) (split sep s)
unfolding split split_first contains
All-Lacks-split sep [] = (refl, tt)
All-Lacks-split sep (c ∷ s) = ground (arith, All-Lacks-split sep s)

-- Pieces with no separator in them are what a split of the joined text gives.
pub split-join_with :
    (sep : ℕ) (x : Str) (xs : List Str)
    → All (Lacks sep) (x ∷ xs)
    → split sep (join_with sep (x ∷ xs)) ≡ x ∷ xs
split-join_with sep x [] h = rw append-nil (split-Lacks sep x h.0)
split-join_with sep x (y ∷ ys) h =
    split-append sep x (join_with sep (y ∷ ys))
    ∙ ap₂ ◌++◌ (split-Lacks sep x h.0) (split-join_with sep y ys h.1)
