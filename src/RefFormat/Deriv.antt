-- ===== src/RefFormat/Deriv.antt =====
-- radicle-git-ext/git-ref-format/core/src/deriv.rs: qualified and namespaced names.
pub mod Category
pub mod Namespace
use radicle_git.Base.{
  ℕ, zero, suc, Bool, true, false, List, [], ◌∷◌, ◌++◌, Option, none, some, if◌then◌else◌, ◌&&◌,
  Result, ok, err, map_ok, ◌>>=◌, Str, codes, str_eq, drop, length,
}
use radicle_git.RefFormat.Name.{
  Panic, unwrap_none, RefStr, RefString, refs, namespaces, heads, tags, notes, remotes, join, push,
  extend, iter, strip_prefix, Component, to_component, components, collect,
}

pub record Qualified : Type 0 where
  pub inner : RefStr

pub record Namespaced : Type 0 where
  pub inner : RefStr

-- `Qualified::from_components`
unfoldable pub from_components : Component → Component → List Component → Qualified
from_components a b tail = record { inner = extend (push (join refs a.inner) b.inner) tail }

-- The match on the first three pieces.
unfoldable pub has_category : List Str → Bool
has_category (a ∷ b ∷ c ∷ _) = str_eq a refs
has_category _ = false

-- `Qualified::from_refstr`
unfoldable pub from_refstr : RefStr → Option Qualified
unfolding has_category iter
from_refstr r = if has_category (iter r) then some (record { inner = r }) else none

-- `Qualified::join`
unfoldable pub qualified_join : Qualified → RefStr → Qualified
qualified_join q other = record { inner = join q.inner other }

-- The first three of a list, and the others.
unfoldable pub take_three {ℓ} : {A : Type ℓ} → List A → Result Panic (A × A × A × List A)
take_three (a ∷ b ∷ c ∷ r) = ok (a, b, c, r)
take_three _ = err unwrap_none

-- `Qualified::non_empty_components`
unfoldable pub non_empty_components :
    Qualified → Result Panic (Component × Component × Component × List Component)
unfolding take_three
non_empty_components q = take_three (components q.inner)

-- The match on the first four pieces.
unfoldable pub has_namespace : List Str → Bool
has_namespace (a ∷ b ∷ c ∷ d ∷ _) = str_eq a refs && str_eq b namespaces && str_eq d refs
has_namespace _ = false

-- `From<&RefStr> for Option<Namespaced>`, which is `RefStr::to_namespaced`
unfoldable pub to_namespaced : RefStr → Option Namespaced
unfolding has_namespace iter
to_namespaced r = if has_namespace (iter r) then some (record { inner = r }) else none

-- `Qualified::with_namespace`
unfoldable pub with_namespace : Qualified → Component → Result Panic Namespaced
with_namespace q ns =
    map_ok (λ r. record { inner = r })
      (collect (to_component refs ∷ to_component namespaces ∷ ns ∷ components q.inner))

-- `Iterator::nth` behind `unwrap`
abbrev pub nth {ℓ} : {A : Type ℓ} → ℕ → List A → Result Panic A
nth n [] = err unwrap_none
nth zero (x ∷ xs) = ok x
nth (suc n) (x ∷ xs) = nth n xs

-- `Namespaced::namespace`
unfoldable pub namespace : Namespaced → Result Panic Component
namespace n = nth 2 (components n.inner)

abbrev pub unwrap {ℓ} : {A : Type ℓ} → Option A → Result Panic A
unwrap none = err unwrap_none
unwrap (some a) = ok a

-- `Namespaced::strip_namespace`
unfoldable pub strip_namespace : Namespaced → Result Panic Qualified
strip_namespace n = do
  s ← unwrap (strip_prefix n.inner (codes "refs/namespaces"))
  r ← collect (drop 1 (components s))
  ok (record { inner = r })

-- The loop of `strip_namespace_recursive`; `none` means that the fuel ran out.
unfoldable pub strip_loop : ℕ → Qualified → Option (Result Panic Qualified)
strip_loop zero strip = none
strip_loop (suc f) strip = elim (to_namespaced strip.inner) [
  | none ↦ some (ok strip)
  | some ns ↦ elim (strip_namespace ns) [ err p ↦ some (err p) | ok strip' ↦ strip_loop f strip' ]
]

-- `Namespaced::strip_namespace_recursive`, with fuel for each component.
unfoldable pub strip_namespace_recursive : Namespaced → Option (Result Panic Qualified)
unfolding strip_loop
strip_namespace_recursive n =
    let f = length (iter n.inner) in
    elim (strip_namespace n) [ err p ↦ some (err p) | ok strip ↦ strip_loop f strip ]

-- `From<(lit::Refs, T, U)> for Qualified`
unfoldable pub from_refs : RefStr → RefStr → Qualified
from_refs cat name = record { inner = push (join refs cat) name }

-- `From<lit::RefsHeads<T>>` and the like, which differ in the second literal only.
unfoldable pub from_category : RefStr → RefStr → Result Panic Qualified
from_category cat name =
    map_ok (λ r. record { inner = push r name })
      (collect (to_component refs ∷ to_component cat ∷ []))

-- `From<lit::RefsNamespaces<T>> for Namespaced`
unfoldable pub from_namespaces : Component → Qualified → Result Panic Namespaced
from_namespaces ns name =
    map_ok (λ r. record { inner = push r name.inner })
      (collect (to_component refs ∷ to_component namespaces ∷ ns ∷ []))
