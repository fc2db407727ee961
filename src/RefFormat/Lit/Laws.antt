-- ===== src/RefFormat/Lit/Laws.antt =====
-- The literals of core/src/lit.rs stand for their names and for no others, and the ways of making
-- a name of literals (core/src/deriv.rs) agree.
use radicle_git.Base.{
  ◌≡◌, refl, sym, ap, ◌∙◌, ◌↔◌, inl, inr, [], ◌∷◌, some, Option-cases, ok, str_eq, str_eq_iff,
  codes, ◌++◌, arith, append-nil, joined-split,
}
use radicle_git.RefFormat.Name.{
  RefStr, Component, to_component, refs, heads, namespaces, remotes, tags, notes, slash, push,
  push_lem, join, iter,
}
use radicle_git.RefFormat.Name.Components.{collect-join_with}
use radicle_git.RefFormat.Deriv.{
  Qualified, from_refs, from_category, from_namespaces, with_namespace,
}
use radicle_git.RefFormat.Deriv.Namespace.Strip.{with_namespace-join_with}
use radicle_git.RefFormat.Lit.{
  KnownLit, refs_lit, name_of, known_from_component, component_of, some_lit_of, some_lit_component,
  as_known, lit_from_component,
}

known→name : (c : Component) (k : KnownLit) → known_from_component c ≡ some k → c.inner ≡ name_of k
unfolding known_from_component name_of
known→name c k h = ground (
  arith,
  str_eq_iff c.inner refs,
  str_eq_iff c.inner heads,
  str_eq_iff c.inner namespaces,
  str_eq_iff c.inner remotes,
  str_eq_iff c.inner tags,
  str_eq_iff c.inner notes,
)

known_from_component-component_of : (k : KnownLit) → known_from_component (component_of k) ≡ some k
unfolding known_from_component component_of str_eq
known_from_component-component_of refs_lit = refl
known_from_component-component_of _ = refl

-- `KnownLit::from_component` finds a literal exactly in the component that the literal makes.
pub known_from_component_iff :
    (c : Component) (k : KnownLit) → (known_from_component c ≡ some k) ↔ (c ≡ component_of k)
unfolding component_of
known_from_component_iff c k =
    (λ h. ap to_component (known→name c k h), λ e. rw e (known_from_component-component_of k))

-- `SomeLit` forgets nothing of a component.
pub some_lit_component-some_lit_of : (c : Component) → some_lit_component (some_lit_of c) ≡ c
unfolding some_lit_component some_lit_of
some_lit_component-some_lit_of c = elim (Option-cases (known_from_component c)) [
  | inl e ↦ rw (some_lit_of, e) refl
  | inr (k, e) ↦ rw (some_lit_of, e) (sym ((known_from_component_iff c k).0 e))
]

lit_from_component-name :
    (c : Component) (k : KnownLit) → (lit_from_component k c ≡ some k) ↔ (c.inner ≡ name_of k)
unfolding lit_from_component
lit_from_component-name c k = ground (arith, str_eq_iff c.inner (name_of k))

as_known-some_lit_of : (c : Component) → as_known (some_lit_of c) ≡ known_from_component c
unfolding as_known some_lit_of
as_known-some_lit_of c = elim (Option-cases (known_from_component c)) [
  | inl e ↦ rw (some_lit_of, e) refl
  | inr (k, e) ↦ rw (some_lit_of, e) refl
]

-- `SomeLit` knows a component as the literal that `Lit::from_component` reads from it.
pub as_known-lit_from_component :
    (c : Component) (k : KnownLit)
    → (as_known (some_lit_of c) ≡ some k) ↔ (lit_from_component k c ≡ some k)
unfolding component_of
as_known-lit_from_component c k = (
  λ h. (lit_from_component-name c k).1 (known→name c k (sym (as_known-some_lit_of c) ∙ h)),
  λ h.
      as_known-some_lit_of c
      ∙ (known_from_component_iff c k).1 (ap to_component ((lit_from_component-name c k).0 h)),
)

-- The conversions from a tuple of literals and a name build what joining the parts builds.
pub from_category-from_refs : (cat name : RefStr) → from_category cat name ≡ ok (from_refs cat name)
unfolding from_category from_refs join push
from_category-from_refs cat name =
    rw (collect-join_with (to_component refs) (to_component cat ∷ []), append-nil) refl

-- The conversion from a namespace and a qualified name is `with_namespace`.
pub from_namespaces-with_namespace :
    (ns : Component) (q : Qualified) → from_namespaces ns q ≡ with_namespace q ns
unfolding from_namespaces iter
from_namespaces-with_namespace ns q =
    rw
      (
        collect-join_with (to_component refs) (to_component namespaces ∷ ns ∷ []),
        with_namespace-join_with q.inner ns,
        append-nil,
      )
      (ap ok (
        ap (λ s. record { inner = s })
          (push_lem _ q.inner
            ∙ ap (λ t. codes "refs/namespaces/" ++ (ns.inner ++ t))
                (sym (joined-split slash q.inner)))))
