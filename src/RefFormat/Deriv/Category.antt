-- ===== src/RefFormat/Deriv/Category.antt =====
-- `Qualified` of core/src/deriv.rs: the names that start with `refs/` and have a category.
use radicle_git.Base.{
  ◌≤◌, ◌≡◌, refl, sym, ap, ◌∙◌, ◌↔◌, inl, inr, true, List, [], ◌∷◌, ◌++◌, some, Bool-cases, ok,
  length, All, Str, codes, str_eq, str_eq_iff, split, contains, join_with, join_with-split, map,
  arith,
}
use radicle_git.RefFormat.Name.{
  RefStr, slash, refs, push, join, iter, Component, to_component, components, collect,
}
use radicle_git.RefFormat.Name.Components.{
  IsComponent, components-push, components-extend, components-IsComponent, collect-components,
  iter-push,
}
use radicle_git.RefFormat.Deriv.{
  Qualified, from_components, has_category, from_refstr, qualified_join, non_empty_components,
}

-- A refname is qualified if it starts with "refs/" and has at least three components.
pub record IsQualified (r : RefStr) : Type 0 where
  pub rest : RefStr
  pub starts : r ≡ codes "refs/" ++ rest
  pub three : 3 ≤ length (iter r)

-- The pieces of a qualified name.
pub record HasPieces (r : RefStr) : Type 0 where
  pub category : Str
  pub name : Str
  pub others : List Str
  pub pieces : iter r ≡ refs ∷ category ∷ name ∷ others

has_category→shape :
    (xs : List Str)
    → has_category xs ≡ true
    → (b : Str) × (c : Str) × (r : List Str) × (xs ≡ refs ∷ b ∷ c ∷ r)
unfolding has_category
has_category→shape [] h = cc
has_category→shape (a ∷ []) h = cc
has_category→shape (a ∷ b ∷ []) h = cc
has_category→shape (a ∷ b ∷ c ∷ r) h = (b, c, r, ap (λ x. x ∷ b ∷ c ∷ r) ((str_eq_iff a refs).0 h))

pub from_refstr→HasPieces :
    (r : RefStr) {q : Qualified} → from_refstr r ≡ some q → HasPieces r × (q ≡ record { inner = r })
unfolding from_refstr
from_refstr→HasPieces r h = elim (Bool-cases (has_category (iter r))) [
  | inl e ↦
      let (b, c, rest, shape) = has_category→shape (iter r) e in
      (record { category = b; name = c; others = rest; pieces = shape }, ground arith)
  | inr e ↦ absurd (ground arith)
]

pub HasPieces→from_refstr : {r : RefStr} → HasPieces r → from_refstr r ≡ some (record { inner = r })
unfolding from_refstr str_eq
HasPieces→from_refstr h = rw h.pieces refl

iter-refs : (rest : RefStr) → iter (codes "refs/" ++ rest) ≡ refs ∷ iter rest
unfolding iter split
iter-refs rest = refl

three→shape :
    (xs : List Str)
    → 3 ≤ length (refs ∷ xs)
    → (b : Str) × (c : Str) × (r : List Str) × (refs ∷ xs ≡ refs ∷ b ∷ c ∷ r)
three→shape [] h = absurd (omega arith)
three→shape (b ∷ []) h = absurd (omega arith)
three→shape (b ∷ c ∷ r) h = (b, c, r, refl)

HasPieces→IsQualified : {r : RefStr} → HasPieces r → IsQualified r
unfolding iter
HasPieces→IsQualified {r} h = record {
  rest = join_with slash (h.category ∷ h.name ∷ h.others);
  starts = sym (join_with-split slash r) ∙ ap (join_with slash) h.pieces;
  three = rw h.pieces (omega arith);
}

IsQualified→HasPieces : {r : RefStr} → IsQualified r → HasPieces r
IsQualified→HasPieces {r} q =
    let shape : iter r ≡ refs ∷ iter q.rest = ap iter q.starts ∙ iter-refs q.rest in
    let (b, c, others, e) = three→shape (iter q.rest) (rw shape at q.three) in
    record { category = b; name = c; others = others; pieces = shape ∙ e }

-- `from_refstr` returns the name for qualified names, and nothing for all others.
pub from_refstr_iff : (r : RefStr) → (from_refstr r ≡ some (record { inner = r })) ↔ IsQualified r
from_refstr_iff r = (
  λ h. HasPieces→IsQualified (from_refstr→HasPieces r h).0,
  λ h. HasPieces→from_refstr (IsQualified→HasPieces h),
)

components-refs : components refs ≡ to_component refs ∷ []
unfolding contains
components-refs = components-IsComponent (to_component refs) refl

components-from_components :
    (a b : Component) (tail : List Component)
    → All IsComponent (a ∷ b ∷ tail)
    → components (from_components a b tail).inner ≡ to_component refs ∷ a ∷ b ∷ tail
unfolding from_components join
components-from_components a b tail (ha, (hb, ht)) = rw (
  components-extend (push (push refs a.inner) b.inner) tail ht,
  components-push (push refs a.inner) b.inner,
  components-push refs a.inner,
  components-refs,
  components-IsComponent a ha,
  components-IsComponent b hb,
)

-- The components that a qualified name is built of are those that it is taken apart into, behind
-- "refs", and it passes for qualified.
pub non_empty_components-from_components :
    (a b : Component) (tail : List Component)
    → All IsComponent (a ∷ b ∷ tail)
    → non_empty_components (from_components a b tail) ≡ ok (to_component refs, a, b, tail)
unfolding non_empty_components
non_empty_components-from_components a b tail h = rw (components-from_components a b tail h) refl

-- Of a name that passes for qualified the first three components are there, with no panic, and
-- all of them collected are the name.
pub non_empty_components-from_refstr :
    (r : RefStr) {q : Qualified}
    → from_refstr r ≡ some q
    → (b c : Component) × (cs : List Component) × (non_empty_components q
        ≡ ok (to_component refs, b, c, cs))
      × (collect (to_component refs ∷ b ∷ c ∷ cs) ≡ ok r)
unfolding non_empty_components components
non_empty_components-from_refstr r h =
    let (p, e) = from_refstr→HasPieces r h in
    let shape : components r ≡ map to_component (refs ∷ p.category ∷ p.name ∷ p.others) =
      ap (map to_component) p.pieces in
    (
      to_component p.category,
      to_component p.name,
      map to_component p.others,
      rw (e, p.pieces) refl,
      ap collect (sym shape) ∙ collect-components r,
    )

-- A name joined to a qualified name gives a qualified name.
pub from_refstr-join :
    (r other : RefStr) {q : Qualified}
    → from_refstr r ≡ some q
    → from_refstr (qualified_join q other).inner ≡ some (qualified_join q other)
unfolding qualified_join join
from_refstr-join r other {q} h =
    let (p, e) = from_refstr→HasPieces r h in
    HasPieces→from_refstr (record {
      category = p.category;
      name = p.name;
      others = p.others ++ iter other;
      pieces = rw (e, iter-push r other, p.pieces) refl;
    })
