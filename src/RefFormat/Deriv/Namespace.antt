-- ===== src/RefFormat/Deriv/Namespace.antt =====
-- `Namespaced` of core/src/deriv.rs: adding and stripping namespaces.
pub mod Strip
use radicle_git.Base.{
  ℕ, zero, suc, ◌+◌, ◌≤◌, ◌<◌, ◌≡◌, refl, sym, ap, ap₂, ◌∙◌, ◌≢◌, ◌⊎◌, inl, inr, Bool, true, false,
  List, [], ◌∷◌, ◌++◌, Option, none, some, Option-cases, if◌then◌else◌, ◌&&◌, Bool-cases, Result,
  ok, err, map_ok, ◌>>=◌, length, All, Str, codes, str_eq, str_eq_iff, str_eq_refl, split,
  join_with, join_with-split, split-join_with, All-Lacks-split, Lacks, map, arith,
}
use radicle_git.RefFormat.Name.{
  Panic, RefStr, slash, refs, namespaces, push, join, iter, strip_prefix, Component, to_component,
  components, collect,
}
use radicle_git.RefFormat.Name.Components.{IsComponent, inners, inners-map, collect-join_with}
use radicle_git.RefFormat.Name.Paths.{strip_prefix-join_iff}
use radicle_git.RefFormat.Deriv.{
  Qualified, Namespaced, from_refstr, has_category, has_namespace, to_namespaced, with_namespace,
  namespace, strip_namespace, strip_loop, strip_namespace_recursive, non_empty_components,
}
use radicle_git.RefFormat.Deriv.Category.{HasPieces, from_refstr→HasPieces}

-- The pieces of a namespaced name.
pub record HasNamespace (r : RefStr) : Type 0 where
  pub name : Str
  pub others : List Str
  pub pieces : iter r ≡ refs ∷ namespaces ∷ name ∷ refs ∷ others

has_namespace→shape :
    (xs : List Str)
    → has_namespace xs ≡ true
    → (c : Str) × (r : List Str) × (xs ≡ refs ∷ namespaces ∷ c ∷ refs ∷ r)
unfolding has_namespace
has_namespace→shape [] h = absurd (cc)
has_namespace→shape (a ∷ []) h = absurd (cc)
has_namespace→shape (a ∷ b ∷ []) h = absurd (cc)
has_namespace→shape (a ∷ b ∷ c ∷ []) h = absurd (cc)
has_namespace→shape (a ∷ b ∷ c ∷ d ∷ r) h =
    (c, r, ground (arith, str_eq_iff a refs, str_eq_iff b namespaces, str_eq_iff d refs))

pub to_namespaced→HasNamespace :
    (r : RefStr) {n : Namespaced}
    → to_namespaced r ≡ some n
    → HasNamespace r × (n ≡ record { inner = r })
unfolding to_namespaced
to_namespaced→HasNamespace r h = elim (Bool-cases (has_namespace (iter r))) [
  | inl e ↦
      let (c, rest, shape) = has_namespace→shape (iter r) e in
      (record { name = c; others = rest; pieces = shape }, ground arith)
  | inr e ↦ absurd (ground arith)
]

pub HasNamespace→to_namespaced :
    {r : RefStr} → HasNamespace r → to_namespaced r ≡ some (record { inner = r })
unfolding to_namespaced str_eq
HasNamespace→to_namespaced h = rw h.pieces refl

-- A text is its pieces joined.
pub from_pieces : (r : RefStr) {xs : List Str} → iter r ≡ xs → r ≡ join_with slash xs
unfolding iter
from_pieces r h = sym (join_with-split slash r) ∙ ap (join_with slash) h

-- No piece holds a separator.
pub pieces-Lacks : (r : RefStr) {xs : List Str} → iter r ≡ xs → All (Lacks slash) xs
unfolding iter
pieces-Lacks r h = rw h at (All-Lacks-split slash r)

pub iter-join_with :
    (x : Str) (xs : List Str)
    → All (Lacks slash) (x ∷ xs)
    → iter (join_with slash (x ∷ xs)) ≡ x ∷ xs
unfolding iter
iter-join_with x xs h = split-join_with slash x xs h

collect-map :
    (x : Str) (xs : List Str) → collect (map to_component (x ∷ xs)) ≡ ok (join_with slash (x ∷ xs))
collect-map x xs = collect-join_with _ _ ∙ ap ok (ap (join_with slash) (inners-map (x ∷ xs)))

join-namespaces :
    (x : Str) (xs : List Str)
    → join_with slash (refs ∷ namespaces ∷ x ∷ xs)
      ≡ join (codes "refs/namespaces") (join_with slash (x ∷ xs))
unfolding join
join-namespaces x xs = refl

-- What stripping leaves: the pieces from the second "refs" on.
abbrev pub stripped : {r : RefStr} → HasNamespace r → RefStr
stripped h = join_with slash (refs ∷ h.others)

pub strip_namespace-stripped :
    {r : RefStr} (h : HasNamespace r)
    → strip_namespace (record { inner = r }) ≡ ok (record { inner = stripped h })
unfolding strip_namespace components
strip_namespace-stripped {r} h =
    let lacks = pieces-Lacks r h.pieces in
    let tail : RefStr = join_with slash (h.name ∷ refs ∷ h.others) in
    let cut : strip_prefix r (codes "refs/namespaces") ≡ some tail =
      (strip_prefix-join_iff r _ tail).1
        (from_pieces r h.pieces ∙ join-namespaces h.name (refs ∷ h.others)) in
    rw (cut, iter-join_with h.name (refs ∷ h.others) lacks.1.1, collect-map refs h.others) refl

pub iter-stripped : {r : RefStr} (h : HasNamespace r) → iter (stripped h) ≡ refs ∷ h.others
iter-stripped {r} h = iter-join_with refs h.others (pieces-Lacks r h.pieces).1.1.1
