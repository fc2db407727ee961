-- ===== src/Base/Text.antt =====
-- Texts as lists of code points, with the operations of Rust's `str` that the program calls.
use Prim.Native.Nat.{ℕ, zero, suc}
use Prim.Native.Char.{code}
use Prim.Native.String.{String}
use mathlib.Core.Path.{◌≡◌, refl, ap}
use mathlib.Core.Logic.{◌↔◌, inl, inr}
use mathlib.Core.Bool.{Bool, true, false, ◌&&◌, ◌||◌}
use mathlib.Core.Option.{Option, none, some}
use mathlib.Core.List.{List, [], ◌∷◌, ◌++◌}
use native.Mathlib.Omega.{arith}
use radicle_git.Base.Tests.{◌==◌, if◌then◌else◌, ==_iff, Bool-cases, Option-cases}
use radicle_git.Base.Lists.{length}

abbrev pub Str : Type 0
Str = List ℕ

abbrev pub codes : String → Str
codes String.[] = []
codes (String.◌∷◌ c s) = code c ∷ codes s

-- `==` on `str`
unfoldable pub str_eq : Str → Str → Bool
str_eq [] [] = true
str_eq (x ∷ xs) (y ∷ ys) = x == y && str_eq xs ys
str_eq _ _ = false

pub str_eq_iff : (a b : Str) → (str_eq a b ≡ true) ↔ (a ≡ b)
unfolding str_eq
str_eq_iff (x ∷ a) (y ∷ b) = ground (arith, str_eq_iff a b)
str_eq_iff _ _ = ground arith

pub str_eq_refl : (a : Str) → str_eq a a ≡ true
str_eq_refl a = (str_eq_iff a a).1 refl

-- `str::contains` with a `char`
unfoldable pub contains : ℕ → Str → Bool
contains c [] = false
contains c (x ∷ xs) = x == c || contains c xs

-- `str::strip_prefix` with a `str`
unfoldable pub strip_prefix : Str → Str → Option Str
strip_prefix [] s = some s
strip_prefix (p ∷ ps) [] = none
strip_prefix (p ∷ ps) (c ∷ s) = if p == c then strip_prefix ps s else none

pub strip_prefix_iff : (p s r : Str) → (strip_prefix p s ≡ some r) ↔ (s ≡ p ++ r)
unfolding strip_prefix
strip_prefix_iff [] s r = ground arith
strip_prefix_iff (p ∷ ps) [] r = ground arith
strip_prefix_iff (p ∷ ps) (c ∷ s) r = ground (arith, strip_prefix_iff ps s r)

-- `str::ends_with` with a `str`
unfoldable pub ends_with : Str → Str → Bool
unfolding str_eq
ends_with [] t = str_eq [] t
ends_with (c ∷ s) t = str_eq (c ∷ s) t || ends_with s t

pub ends_with→append : (s t : Str) → ends_with s t ≡ true → (a : Str) × (s ≡ a ++ t)
unfolding ends_with
ends_with→append [] t h = ([], (str_eq_iff [] t).0 h)
ends_with→append (c ∷ s) t h = elim (Bool-cases (str_eq (c ∷ s) t)) [
  | inl e ↦ ([], (str_eq_iff (c ∷ s) t).0 e)
  | inr e ↦ let (a, p) = ends_with→append s t (rw e at h) in (c ∷ a, ap (◌∷◌ c) p)
]

pub ends_with-append : (a t : Str) → ends_with (a ++ t) t ≡ true
unfolding ends_with
ends_with-append [] [] = refl
ends_with-append [] (c ∷ t) = rw (str_eq_refl (c ∷ t))
ends_with-append (c ∷ a) t = grind (arith, ends_with-append a t)

-- `str::rfind` with a `char`: where the last one stands.
unfoldable pub rfind : ℕ → Str → Option ℕ
rfind c [] = none
rfind c (x ∷ xs) = elim (rfind c xs) [
  | some i ↦ some (suc i)
  | none ↦ if x == c then some 0 else none
]

-- `String::truncate`
abbrev pub truncate : ℕ → Str → Str
truncate zero s = []
truncate (suc n) [] = []
truncate (suc n) (c ∷ s) = c ∷ truncate n s

pub truncate-append : (a b : Str) → truncate (length a) (a ++ b) ≡ a
truncate-append [] b = refl
truncate-append (c ∷ a) b = ap (◌∷◌ c) (truncate-append a b)

pub rfind-lacks : (c : ℕ) (s : Str) → contains c s ≡ false → rfind c s ≡ none
unfolding rfind contains
rfind-lacks c [] h = refl
rfind-lacks c (x ∷ xs) h = ground (arith, rfind-lacks c xs)

pub rfind-append :
    (c : ℕ) (a b : Str) → contains c b ≡ false → rfind c (a ++ c ∷ b) ≡ some (length a)
unfolding rfind
rfind-append c [] b h = rw (rfind-lacks c b h, (==_iff c c).1 refl)
rfind-append c (x ∷ a) b h = rw (rfind-append c a b h)

pub rfind-none→lacks : (c : ℕ) (s : Str) → rfind c s ≡ none → contains c s ≡ false
unfolding rfind contains
rfind-none→lacks c [] h = refl
rfind-none→lacks c (x ∷ xs) h = elim (Option-cases (rfind c xs)) [
  | inl e ↦ ground (arith, rfind-none→lacks c xs)
  | inr (j, e) ↦ absurd (ground arith)
]

-- Where `rfind` finds the character, the text is cut in two, with none in the second part.
pub rfind→append :
    (c : ℕ) (s : Str) {i : ℕ}
    → rfind c s ≡ some i
    → (b : Str) × (s ≡ truncate i s ++ c ∷ b) × (contains c b ≡ false)
unfolding rfind contains
rfind→append c [] h = absurd (ground arith)
rfind→append c (x ∷ xs) {i} h = elim (Option-cases (rfind c xs)) [
  | inr (j, e) ↦
      let (b, cut, lacks) = rfind→append c xs e in
      let place : suc j ≡ i = ground arith in rw (← place) (b, ap (◌∷◌ x) cut, lacks)
  | inl e ↦
      let place : 0 ≡ i = ground arith in
      let same : x ≡ c = ground arith in
      rw (← place) (xs, ap (λ y. y ∷ xs) same, rfind-none→lacks c xs e)
]
