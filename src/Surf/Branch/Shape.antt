-- ===== src/Surf/Branch/Shape.antt =====
-- The pieces of the names that radicle-surf/src/branch.rs reads: qualified, and taken out of their
-- namespaces.
use radicle_git.Base.{
  ◌≡◌, refl, sym, ap, ◌∙◌, inl, inr, List, [], ◌∷◌, ◌++◌, map, Option-cases, Result, ok, err,
  Result-cases, ok-injective, Str, codes, join_with, arith,
}
use radicle_git.RefFormat.Check.{Error}
use radicle_git.RefFormat.Name.{
  Panic, RefStr, slash, refs, namespaces, iter, Component, to_component, components, collect,
  try_from,
}
use radicle_git.RefFormat.Name.Components.{inners, collect-join_with, collect-components}
use radicle_git.RefFormat.Deriv.{
  Qualified, from_refstr, non_empty_components, take_three, to_namespaced, strip_namespace,
}
use radicle_git.RefFormat.Deriv.Category.{HasPieces, from_refstr→HasPieces}
use radicle_git.RefFormat.Deriv.Namespace.{
  to_namespaced→HasNamespace, stripped, iter-stripped, strip_namespace-stripped,
}
use radicle_git.RefFormat.Deriv.Namespace.Strip.{
  Strips, here, next, strip_namespace_recursive-total,
}
use radicle_git.Surf.Branch.{Failure, unwind, strip_to_qualified}

-- The name begins with the component "refs".
abbrev pub BeginsWithRefs : RefStr → Type 0
BeginsWithRefs r = (rest : List Str) × (iter r ≡ refs ∷ rest)

Strips-BeginsWithRefs : {r s : RefStr} → Strips r s → BeginsWithRefs r → BeginsWithRefs s
Strips-BeginsWithRefs here h = h
Strips-BeginsWithRefs (next {r} {q} e strip rest) h =
    let (hn, same) = to_namespaced→HasNamespace r e in
    let found : ok q ≡ ok (record { inner = stripped hn }) =
      sym strip ∙ ap strip_namespace same ∙ strip_namespace-stripped hn in
    Strips-BeginsWithRefs rest
      (hn.others, ap (λ (k : Qualified). iter k.inner) (ok-injective found) ∙ iter-stripped hn)

module _ {ℓ} {E : Type ℓ} (unqualified : Str → E) (invalid : Error → E) where
  pub strip_to_qualified-BeginsWithRefs :
      (s : Str) (q : Qualified)
      → strip_to_qualified unqualified invalid s ≡ ok q
      → BeginsWithRefs q.inner
  unfolding strip_to_qualified
  strip_to_qualified-BeginsWithRefs s q h = elim (Result-cases (try_from s)) [
    | inr (e, bad) ↦ absurd (ground arith)
    | inl (name, good) ↦ elim (Option-cases (to_namespaced name)) [
      | inr (n, e) ↦
          let (q', ran, steps, done) = strip_namespace_recursive-total name e in
          let (hn, same) = to_namespaced→HasNamespace name e in
          let found : q' ≡ q = ground arith in
          rw (← found)
            (Strips-BeginsWithRefs steps (namespaces ∷ hn.name ∷ refs ∷ hn.others, hn.pieces))
      | inl e ↦ elim (Option-cases (from_refstr name)) [
        | inl e' ↦ absurd (ground arith)
        | inr (q', e') ↦
            let (p, same) = from_refstr→HasPieces name e' in
            let found : q ≡ record { inner = name } = ground arith in
            rw found (p.category ∷ p.name ∷ p.others, p.pieces)
      ]
    ]
  ]

take_three-eq :
    {A : Type 0} (xs : List A) {a b c : A} {cs : List A}
    → take_three xs ≡ ok (a, b, c, cs)
    → xs ≡ a ∷ b ∷ c ∷ cs
unfolding take_three
take_three-eq [] h = absurd (cc)
take_three-eq (a ∷ []) h = absurd (cc)
take_three-eq (a ∷ b ∷ []) h = absurd (cc)
take_three-eq (a ∷ b ∷ c ∷ r) h = ground arith

pub unwind-ok {ℓ κ} :
    {E : Type ℓ} {A : Type κ} (r : Result Panic A) {a : A}
    → ◌≡◌ {A = Result (Failure E) A} (unwind r) (ok a)
    → r ≡ ok a
unwind-ok (ok a) h = cc
unwind-ok (err p) h = absurd (cc)

-- A name is its components joined.
pub whole :
    (s : RefStr) {c : Component} {cs : List Component}
    → components s ≡ c ∷ cs
    → s ≡ join_with slash (inners (c ∷ cs))
whole s {c} {cs} h =
    ok-injective (sym (collect-components s) ∙ ap collect h ∙ collect-join_with c cs)

pub non_empty_components-HasPieces :
    {n : RefStr} (p : HasPieces n)
    → non_empty_components (record { inner = n })
      ≡ ok (
        to_component refs,
        to_component p.category,
        to_component p.name,
        map to_component p.others,
      )
unfolding non_empty_components components
non_empty_components-HasPieces p = rw p.pieces refl

abbrev first_text : List Component → Str
first_text [] = []
first_text (c ∷ cs) = c.inner

first-inner :
    {xs : List Component} {a : Component} {cs : List Component} {t : Str} {ts : List Component}
    → xs ≡ a ∷ cs
    → xs ≡ to_component t ∷ ts
    → a.inner ≡ t
first-inner h k = ap first_text (sym h ∙ k)

-- The pieces of a name that `non_empty_components` shows.
pub shown-whole :
    (q : Qualified) {a b c : Component} {cs : List Component}
    → BeginsWithRefs q.inner
    → non_empty_components q ≡ ok (a, b, c, cs)
    → q.inner ≡ codes "refs/" ++ (b.inner ++ slash ∷ join_with slash (inners (c ∷ cs)))
unfolding non_empty_components components
shown-whole q {a} {b} {c} {cs} (rest, begins) h =
    let shape = take_three-eq (components q.inner) h in
    let head : a.inner ≡ refs = first-inner shape (ap (map to_component) begins) in
    whole q.inner shape
    ∙ ap (λ t. t ++ slash ∷ (b.inner ++ slash ∷ join_with slash (inners (c ∷ cs)))) head
