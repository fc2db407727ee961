-- ===== src/Base/Map.antt =====
-- `BTreeMap` with texts for keys, as the list of its pairs in the order of the keys.
use mathlib.Core.Path.{◌≡◌, refl}
use mathlib.Core.Logic.{inl, inr}
use mathlib.Core.Bool.{Bool, true, false, ◌&&◌, ◌||◌}
use mathlib.Core.Option.{Option, none, some}
use mathlib.Core.List.{List, [], ◌∷◌}
use native.Mathlib.Omega.{arith}
use radicle_git.Base.Tests.{ltb, ◌==◌, if◌then◌else◌, Bool-cases}
use radicle_git.Base.Text.{Str, str_eq, str_eq_iff}

-- `<` on `str`: the order of the code points is that of the bytes.
unfoldable pub str_lt : Str → Str → Bool
str_lt _ [] = false
str_lt [] (y ∷ ys) = true
str_lt (x ∷ xs) (y ∷ ys) = ltb x y || (x == y && str_lt xs ys)

pub str_lt_irrefl : (a : Str) → str_lt a a ≡ false
unfolding str_lt
str_lt_irrefl [] = refl
str_lt_irrefl (x ∷ a) = ground (arith, str_lt_irrefl a)

pub str_lt_trans : (a b c : Str) → str_lt a b ≡ true → str_lt b c ≡ true → str_lt a c ≡ true
unfolding str_lt
str_lt_trans (x ∷ a) (y ∷ b) (z ∷ c) h g = ground (arith, str_lt_trans a b c)
str_lt_trans [] b [] h g = absurd (ground arith)
str_lt_trans [] b (z ∷ c) h g = refl
str_lt_trans (x ∷ a) [] c h g = absurd (ground arith)
str_lt_trans (x ∷ a) (y ∷ b) [] h g = absurd (ground arith)

pub str_lt_total : (a b : Str) → str_eq a b ≡ false → str_lt a b ≡ false → str_lt b a ≡ true
unfolding str_lt str_eq
str_lt_total (x ∷ a) (y ∷ b) h g = ground (arith, str_lt_total a b)
str_lt_total _ _ h g = ground arith

abbrev pub Map {ℓ} : Type ℓ → Type ℓ
Map V = List (Str × V)

-- `BTreeMap::insert`, which replaces the value of a key that is there
unfoldable pub insert {ℓ} : {V : Type ℓ} → Str → V → Map V → Map V
insert k v [] = (k, v) ∷ []
insert k v ((j, w) ∷ m) =
    let rest = insert k v m in
    if str_eq k j then (j, v) ∷ m else if str_lt k j then (k, v) ∷ (j, w) ∷ m else (j, w) ∷ rest

-- `BTreeMap::get`
unfoldable pub get {ℓ} : {V : Type ℓ} → Str → Map V → Option V
get k [] = none
get k ((j, w) ∷ m) = if str_eq k j then some w else get k m

-- The keys behind one are greater, and the map behind it is sorted.
abbrev pub Above {ℓ} : {V : Type ℓ} → Str → Map V → Type 0
Above k [] = Unit
Above k ((j, w) ∷ m) = (str_lt k j ≡ true) × Above j m

abbrev pub Sorted {ℓ} : {V : Type ℓ} → Map V → Type 0
Sorted [] = Unit
Sorted ((j, w) ∷ m) = Above j m

insert-Above {ℓ} :
    {V : Type ℓ} (i k : Str) (v : V) (m : Map V)
    → str_lt i k ≡ true
    → Above i m
    → Above i (insert k v m)
unfolding insert
insert-Above i k v [] h above = (h, tt)
insert-Above i k v ((j, w) ∷ m) h (lt, above) = elim (Bool-cases (str_eq k j)) [
  | inl e ↦ rw e (lt, above)
  | inr ne ↦ elim (Bool-cases (str_lt k j)) [
    | inl l ↦ rw (ne, l) (h, (l, above))
    | inr nl ↦ rw (ne, nl) (lt, insert-Above j k v m (str_lt_total k j ne nl) above)
  ]
]

pub insert-Sorted {ℓ} :
    {V : Type ℓ} (k : Str) (v : V) (m : Map V) → Sorted m → Sorted (insert k v m)
unfolding insert
insert-Sorted k v [] h = tt
insert-Sorted k v ((j, w) ∷ m) h = elim (Bool-cases (str_eq k j)) [
  | inl e ↦ rw e h
  | inr ne ↦ elim (Bool-cases (str_lt k j)) [
    | inl l ↦ rw (ne, l) (l, h)
    | inr nl ↦ rw (ne, nl) (insert-Above j k v m (str_lt_total k j ne nl) h)
  ]
]

other_key : (i j k : Str) → str_eq i j ≡ true → str_eq k j ≡ false → str_eq i k ≡ false
other_key i j k h ne = elim (Bool-cases (str_eq i k)) [
  | inl e ↦ absurd (let same = (str_eq_iff i k).0 e in let there = (rw same at h) in ground arith)
  | inr e ↦ e
]

pub get-insert {ℓ} :
    {V : Type ℓ} (i k : Str) (v : V) (m : Map V)
    → get i (insert k v m) ≡ (if str_eq i k then some v else get i m)
unfolding get insert
get-insert i k v [] = refl
get-insert i k v ((j, w) ∷ m) = elim (Bool-cases (str_eq k j)) [
  | inl e ↦
      rw (e, (str_eq_iff k j).0 e)
        (elim (Bool-cases (str_eq i j)) [ inl h ↦ rw h refl | inr h ↦ rw h refl ])
  | inr ne ↦ elim (Bool-cases (str_lt k j)) [
    | inl l ↦ rw (ne, l) refl
    | inr nl ↦
        rw (ne, nl, get-insert i k v m)
          (elim (Bool-cases (str_eq i j)) [
            | inl h ↦ rw (h, other_key i j k h ne) refl
            | inr h ↦ rw h refl
          ])
  ]
]
