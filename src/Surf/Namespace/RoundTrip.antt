-- ===== src/Surf/Namespace/RoundTrip.antt =====
-- A namespace that is put around a name is read off it again (radicle-surf/src/namespace.rs).
use mathlib.Core.List.{reverse, reverse_aux, reverse-reverse}
use radicle_git.Base.{
  ℕ, zero, suc, ◌+◌, ◌≤◌, ◌<◌, ◌≡◌, ◌≢◌, refl, sym, ap, ◌∙◌, List, [], ◌∷◌, ◌++◌, append_assoc,
  append-nil, map, none, some, ok, length, Str, All, join_with, joined, split, Lacks,
  All-Lacks-split, join_with-split, arith, ok-injective,
}
use radicle_git.RefFormat.Name.{
  RefStr, RefString, slash, refs, namespaces, iter, Component, to_component, components, push,
  push_lem,
}
use radicle_git.RefFormat.Name.Components.{inners, inners-map, IsComponent}
use radicle_git.RefFormat.Deriv.{
  Qualified, Namespaced, from_refstr, to_namespaced, namespace, strip_namespace,
}
use radicle_git.RefFormat.Deriv.Category.{HasPieces→from_refstr}
use radicle_git.RefFormat.Deriv.Namespace.{
  to_namespaced→HasNamespace, stripped, iter-stripped, strip_namespace-stripped,
}
use radicle_git.RefFormat.Deriv.Namespace.Strip.{strip_namespace-with_namespace}
use radicle_git.Surf.Namespace.{
  Namespace, into_qualified, wrap, wrap_all, add_namespaces, gather, namespace_of,
}

-- The name is in the namespaces listed, the outermost first, and inside them is the other name.
pub data Nested : List Component → Qualified → Namespaced → Type 0 where
  one :
      {c : Component} {q : Qualified} {n : Namespaced}
      → to_namespaced n.inner ≡ some n
      → namespace n ≡ ok c
      → strip_namespace n ≡ ok q
      → Nested (c ∷ []) q n
  more :
      {c : Component} {cs : List Component} {q : Qualified} {n m : Namespaced}
      → to_namespaced n.inner ≡ some n
      → namespace n ≡ ok c
      → strip_namespace n ≡ ok (into_qualified m)
      → Nested cs q m
      → Nested (c ∷ cs) q n

namespaced-from_refstr :
    (n : Namespaced)
    → to_namespaced n.inner ≡ some n
    → from_refstr n.inner ≡ some (into_qualified n)
namespaced-from_refstr n h =
    let (hn, same) = to_namespaced→HasNamespace n.inner h in
    HasPieces→from_refstr (record {
      category = namespaces;
      name = hn.name;
      others = refs ∷ hn.others;
      pieces = hn.pieces;
    })

Nested-to_namespaced :
    {cs : List Component} {q : Qualified} {n : Namespaced}
    → Nested cs q n
    → to_namespaced n.inner ≡ some n
Nested-to_namespaced (one h _ _) = h
Nested-to_namespaced (more h _ _ _) = h

wrap-Nested :
    (cs ds : List Component) {q : Qualified} (n : Namespaced)
    → All IsComponent cs
    → Nested ds q n
    → (m : Namespaced) × (wrap n cs ≡ ok m) × Nested (reverse_aux cs ds) q m
unfolding wrap
wrap-Nested [] ds n h nested = (n, refl, nested)
wrap-Nested (c ∷ cs) ds n h nested =
    let (m, built, is, name, strip) =
      strip_namespace-with_namespace n.inner c
        (namespaced-from_refstr n (Nested-to_namespaced nested)) h.0 in
    let (k, wrapped, result) = wrap-Nested cs (c ∷ ds) m h.1 (more is name strip nested) in
    (k, rw built wrapped, result)

strip-length :
    (r : RefStr) {n : Namespaced} {q : Qualified}
    → to_namespaced r ≡ some n
    → strip_namespace n ≡ ok q
    → length (iter r) ≡ 3 + length (iter q.inner)
strip-length r {n} {q} h strip =
    let (hn, same) = to_namespaced→HasNamespace r h in
    let found : ok q ≡ ok (record { inner = stripped hn }) =
      sym strip ∙ ap strip_namespace same ∙ strip_namespace-stripped hn in
    let left =
      ap (λ (k : Qualified). length (iter k.inner)) (ok-injective found)
      ∙ ap length (iter-stripped hn) in
    ap length hn.pieces ∙ omega (arith, left)

Nested-length :
    {cs : List Component} {q : Qualified} {n : Namespaced}
    → Nested cs q n
    → length cs ≤ length (iter n.inner)
Nested-length {n} (one h _ strip) = omega (arith, strip-length n.inner h strip)
Nested-length {n} (more h _ strip rest) =
    omega (arith, strip-length n.inner h strip, Nested-length rest)

gather-none :
    (f : ℕ) (acc : RefString) (q : Qualified)
    → to_namespaced q.inner ≡ none
    → 0 < f
    → gather f acc q ≡ some (ok acc)
unfolding gather
gather-none zero acc q out h = absurd (omega arith)
gather-none (suc f) acc q out h = rw (gather, out) refl

gather-Nested :
    (f : ℕ) (acc : RefString) {cs : List Component} {q : Qualified} (n : Namespaced)
    → to_namespaced q.inner ≡ none
    → length cs < f
    → Nested cs q n
    → gather f acc (into_qualified n) ≡ some (ok (acc ++ joined slash (inners cs)))
unfolding gather
gather-Nested zero acc n out h nested = absurd (omega arith)
gather-Nested (suc f) acc n out h (one {c} {q} is name strip) =
    rw (gather, is, name, strip)
      (gather-none f (push acc c.inner) q out (omega arith)
        ∙ ap (λ x. some (ok x))
            (push_lem acc c.inner ∙ ap (λ x. acc ++ slash ∷ x) (sym (append-nil c.inner))))
gather-Nested (suc f) acc n out h (more {c} {cs} {q} {m} is name strip rest) =
    rw (gather, is, name, strip)
      (gather-Nested f (push acc c.inner) m out (omega arith) rest
        ∙ ap (λ x. some (ok x))
            (ap (λ x. x ++ joined slash (inners cs)) (push_lem acc c.inner)
              ∙ append_assoc acc (slash ∷ c.inner) (joined slash (inners cs))))

namespace_of-Nested :
    {cs : List Component} {q : Qualified} (n : Namespaced)
    → to_namespaced q.inner ≡ none
    → Nested cs q n
    → namespace_of n ≡ some (ok (join_with slash (inners cs)))
unfolding namespace_of
namespace_of-Nested n out (one {c} {q} is name strip) =
    rw (namespace_of, name, strip)
      (gather-none (length (iter n.inner)) c.inner q out
          (omega (arith, strip-length n.inner is strip))
        ∙ ap (λ x. some (ok x)) (sym (append-nil c.inner)))
namespace_of-Nested n out (more {c} {cs} {q} {m} is name strip rest) =
    rw (namespace_of, name, strip)
      (gather-Nested (length (iter n.inner)) c.inner m out
        (omega (arith, strip-length n.inner is strip, Nested-length rest)) rest)

add-Nested :
    (name : Qualified) (cs : List Component)
    → from_refstr name.inner ≡ some name
    → All IsComponent cs
    → cs ≢ []
    → (n : Namespaced) × (wrap_all name cs ≡ ok n) × Nested (reverse cs) name n
unfolding wrap_all
add-Nested name [] h all some_component = absurd (some_component refl)
add-Nested name (c ∷ cs) h all some_component =
    let (m, built, is, ns, strip) = strip_namespace-with_namespace name.inner c h all.0 in
    let (n, wrapped, nested) = wrap-Nested cs (c ∷ []) m all.1 (one is ns strip) in
    (n, rw built wrapped, nested)

All-reverse_aux :
    (xs ys : List Component)
    → All IsComponent xs
    → All IsComponent ys
    → All IsComponent (reverse_aux xs ys)
All-reverse_aux [] ys hx hy = hy
All-reverse_aux (x ∷ xs) ys hx hy = All-reverse_aux xs (x ∷ ys) hx.1 (hx.0, hy)

All-map : (xs : List Str) → All (Lacks slash) xs → All IsComponent (map to_component xs)
All-map [] h = tt
All-map (x ∷ xs) h = (h.0, All-map xs h.1)

All-components : (s : RefStr) → All IsComponent (components s)
unfolding components iter
All-components s = All-map (split slash s) (All-Lacks-split slash s)

components-ne-nil : (s : RefStr) → components s ≢ []
unfolding components iter split
components-ne-nil s e = cc

inners-components : (s : RefStr) → join_with slash (inners (components s)) ≡ s
unfolding components iter
inners-components s = ap (join_with slash) (inners-map (split slash s)) ∙ join_with-split slash s

-- A namespace that is put around a qualified name, itself in no namespace, is built with no panic,
-- and is the one that is read off the result.
pub namespace_of-add_namespaces :
    (ns : Namespace) (name : Qualified)
    → from_refstr name.inner ≡ some name
    → to_namespaced name.inner ≡ none
    → (n : Namespaced) × (add_namespaces ns name ≡ ok n)
      × (to_namespaced n.inner ≡ some n)
      × (namespace_of n ≡ some (ok ns.namespaces))
unfolding add_namespaces
namespace_of-add_namespaces ns name h out =
    let cs = components ns.namespaces in
    let (n, built, nested) =
      add-Nested name (reverse cs) h (All-reverse_aux cs [] (All-components ns.namespaces) tt)
        (λ e. components-ne-nil ns.namespaces (sym (reverse-reverse cs) ∙ ap reverse e)) in
    let forward : Nested cs name n = rw (reverse-reverse cs) at nested in
    (
      n,
      built,
      Nested-to_namespaced nested,
      namespace_of-Nested n out forward ∙ ap (λ x. some (ok x)) (inners-components ns.namespaces),
    )
