-- ===== src/RefFormat/Deriv/Namespace/Strip.antt =====
-- `with_namespace`, `strip_namespace` and `strip_namespace_recursive` of core/src/deriv.rs together.
use radicle_git.Base.{
  ℕ, zero, suc, ◌+◌, ◌≤◌, ◌<◌, ◌≡◌, refl, sym, ap, ◌∙◌, inl, inr, List, [], ◌∷◌, none, some,
  Option-cases, ok, err, length, Lacks, str_eq, contains, All, Str, join_with, arith,
}
use radicle_git.RefFormat.Name.{
  unwrap_none, RefStr, slash, refs, namespaces, iter, Component, to_component, components,
}
use radicle_git.RefFormat.Name.Components.{IsComponent, inners-map, collect-join_with}
use radicle_git.RefFormat.Deriv.{
  Qualified, Namespaced, from_refstr, to_namespaced, with_namespace, namespace, strip_namespace,
  strip_loop, strip_namespace_recursive, non_empty_components,
}
use radicle_git.RefFormat.Deriv.Category.{from_refstr→HasPieces}
use radicle_git.RefFormat.Deriv.Namespace.{
  HasNamespace, to_namespaced→HasNamespace, HasNamespace→to_namespaced, stripped,
  strip_namespace-stripped, iter-stripped, from_pieces, pieces-Lacks, iter-join_with,
}

pub with_namespace-join_with :
    (r : RefStr) (ns : Component)
    → with_namespace (record { inner = r }) ns
      ≡ ok (record { inner = join_with slash (refs ∷ namespaces ∷ ns.inner ∷ iter r) })
unfolding with_namespace components
with_namespace-join_with r ns = rw collect-join_with (
    ap (λ l. ok (record { inner = join_with slash (refs ∷ namespaces ∷ ns.inner ∷ l) }))
      (inners-map (iter r)))

namespace-name :
    {r : RefStr} (h : HasNamespace r) → namespace (record { inner = r }) ≡ ok (to_component h.name)
unfolding namespace components
namespace-name h = rw h.pieces refl

-- A qualified name in a namespace passes for namespaced, is in that namespace, and stripped of it
-- is the name.
pub strip_namespace-with_namespace :
    (r : RefStr) (ns : Component) {q : Qualified}
    → from_refstr r ≡ some q
    → IsComponent ns
    → (n : Namespaced) × (with_namespace q ns ≡ ok n)
      × (to_namespaced n.inner ≡ some n)
      × (namespace n ≡ ok ns)
      × (strip_namespace n ≡ ok q)
unfolding contains
strip_namespace-with_namespace r ns {q} h lacks =
    let (p, e) = from_refstr→HasPieces r h in
    let others : List Str = p.category ∷ p.name ∷ p.others in
    let full : RefStr = join_with slash (refs ∷ namespaces ∷ ns.inner ∷ refs ∷ others) in
    let all : All (Lacks slash) (refs ∷ namespaces ∷ ns.inner ∷ refs ∷ others) =
      (refl, (refl, (lacks, pieces-Lacks r p.pieces))) in
    let shape : iter full ≡ refs ∷ namespaces ∷ ns.inner ∷ refs ∷ others = iter-join_with _ _ all in
    let h' : HasNamespace full = record { name = ns.inner; others = others; pieces = shape } in
    let built : with_namespace q ns ≡ ok (record { inner = full }) =
      ap (λ k. with_namespace k ns) e
      ∙ with_namespace-join_with r ns
      ∙ ap (λ l. ok (record { inner = join_with slash (refs ∷ namespaces ∷ ns.inner ∷ l) }))
          p.pieces in
    (
      record { inner = full },
      built,
      HasNamespace→to_namespaced h',
      namespace-name h',
      strip_namespace-stripped h'
          ∙ ap (λ x. ok (record { inner = x })) (sym (from_pieces r p.pieces))
          ∙ ap ok (sym e),
    )

from_refstr-length :
    (q : Qualified) (xs : List Str)
    → iter q.inner ≡ refs ∷ xs
    → (2 ≤ length xs → from_refstr q.inner ≡ some q)
      × (length xs < 2 → (from_refstr q.inner ≡ none) × (non_empty_components q ≡ err unwrap_none))
unfolding from_refstr non_empty_components components str_eq
from_refstr-length q [] h = (λ l. absurd (omega arith), λ l. (rw h refl, rw h refl))
from_refstr-length q (b ∷ []) h = (λ l. absurd (omega arith), λ l. (rw h refl, rw h refl))
from_refstr-length q (b ∷ c ∷ r) h = (λ l. rw h refl, λ l. absurd (omega arith))

-- Stripping a namespaced name does not fail. What is left is qualified exactly if the name has a
-- category behind its namespace; else the three components that a qualified name is to have are
-- not there.
pub strip_namespace-IsQualified :
    (r : RefStr) {n : Namespaced}
    → to_namespaced r ≡ some n
    → (q : Qualified) × (strip_namespace n ≡ ok q)
      × (6 ≤ length (iter r) → from_refstr q.inner ≡ some q)
      × (length (iter r) < 6
          → (from_refstr q.inner ≡ none) × (non_empty_components q ≡ err unwrap_none))
strip_namespace-IsQualified r h =
    let (hn, same) = to_namespaced→HasNamespace r h in
    let q : Qualified = record { inner = stripped hn } in
    let cases = from_refstr-length q hn.others (iter-stripped hn) in
    (
      q,
      ap strip_namespace same ∙ strip_namespace-stripped hn,
      λ six. cases.0 (omega (arith, ap length hn.pieces)),
      λ few. cases.1 (omega (arith, ap length hn.pieces)),
    )

-- `s` is what some rounds of `strip_namespace` make of `r`.
pub data Strips : RefStr → RefStr → Type 0 where
  here : {r : RefStr} → Strips r r
  next :
      {r s : RefStr} {n : Namespaced} {q : Qualified}
      → to_namespaced r ≡ some n
      → strip_namespace n ≡ ok q
      → Strips q.inner s
      → Strips r s

strip_loop-step :
    (f : ℕ) (q q' : Qualified) {n : Namespaced}
    → to_namespaced q.inner ≡ some n
    → strip_namespace n ≡ ok q'
    → strip_loop (suc f) q ≡ strip_loop f q'
unfolding strip_loop
strip_loop-step f q q' e s = rw (strip_loop, e, s) refl

length-stripped :
    {r : RefStr} (h : HasNamespace r) → length (iter (stripped h)) + 3 ≡ length (iter r)
length-stripped h = omega (arith, ap length (iter-stripped h), ap length h.pieces)

strip_loop-total :
    (f : ℕ) (q : Qualified)
    → length (iter q.inner) < f
    → (q' : Qualified) × (strip_loop f q ≡ some (ok q'))
      × Strips q.inner q'.inner
      × (to_namespaced q'.inner ≡ none)
unfolding strip_loop
strip_loop-total zero q h = absurd (omega arith)
strip_loop-total (suc f) q h = elim (Option-cases (to_namespaced q.inner)) [
  | inl e ↦ (q, rw (e, strip_loop) refl, here, e)
  | inr (n, e) ↦
      let (hn, same) = to_namespaced→HasNamespace q.inner e in
      let strip : strip_namespace n ≡ ok (record { inner = stripped hn }) =
        ap strip_namespace same ∙ strip_namespace-stripped hn in
      let (q', run, steps, done) =
        strip_loop-total f (record { inner = stripped hn }) (omega (arith, length-stripped hn)) in
      (q', strip_loop-step f q _ e strip ∙ run, next e strip steps, done)
]

-- `strip_namespace_recursive` ends with no panic, after some rounds, at a name in no namespace.
pub strip_namespace_recursive-total :
    (r : RefStr) {n : Namespaced}
    → to_namespaced r ≡ some n
    → (q : Qualified) × (strip_namespace_recursive n ≡ some (ok q))
      × Strips r q.inner
      × (to_namespaced q.inner ≡ none)
unfolding strip_namespace_recursive
strip_namespace_recursive-total r {n} h =
    let (hn, same) = to_namespaced→HasNamespace r h in
    let strip : strip_namespace n ≡ ok (record { inner = stripped hn }) =
      ap strip_namespace same ∙ strip_namespace-stripped hn in
    let (q, run, steps, done) =
      strip_loop-total (length (iter n.inner)) (record { inner = stripped hn })
        (omega (
          arith,
          length-stripped hn,
          ap (λ k. length (iter k)) (ap (λ (m : Namespaced). m.inner) same),
        )) in
    (q, rw (strip_namespace_recursive, strip) run, next h strip steps, done)
