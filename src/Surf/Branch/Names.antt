-- ===== src/Surf/Branch/Names.antt =====
-- The names of branches (radicle-surf/src/branch.rs): a branch read from a reference name gives
-- that name back, and a name that a branch gives is read as the branch.
use radicle_git.Base.{
  ℕ, ◌≡◌, ◌≢◌, refl, sym, ap, ap₂, ◌∙◌, ◌⊎◌, inl, inr, List, [], ◌∷◌, ◌++◌, map, Option-cases,
  Bool-cases, Result, ok, err, map_ok, ◌>>=◌, bind-eq-ok, Result-cases, Str, codes, str_eq,
  str_eq_iff, join_with, split, split_first, drop, none, arith,
}
use radicle_git.RefFormat.Name.{
  empty_iterator, RefStr, RefString, iter, slash, refs, heads, remotes, Component, to_component,
  collect, join, push, push_lem,
}
use radicle_git.RefFormat.Name.Components.{inners, inners-map, collect-join_with}
use radicle_git.RefFormat.Deriv.{Qualified, from_refstr, from_refs, non_empty_components}
use radicle_git.RefFormat.Deriv.Category.{HasPieces, from_refstr→HasPieces, HasPieces→from_refstr}
use radicle_git.RefFormat.Deriv.Namespace.{from_pieces}
use radicle_git.RefFormat.Lit.Laws.{from_category-from_refs}
use radicle_git.Surf.Branch.{
  Failure, unwind, Local, Remote, Branch, local, remote, strip_to_qualified, refstr_join, shorten,
  local_new, local_refname, remote_new, remote_refname, branch_of, branch_from_str, branch_refname,
  branch_short_name, BranchError,
}
use radicle_git.Surf.Branch.Shape.{
  strip_to_qualified-BeginsWithRefs, shown-whole, unwind-ok, non_empty_components-HasPieces,
}

local_new-HasPieces :
    {n : RefStr} (p : HasPieces n)
    → local_new n
      ≡ shorten n (
        to_component refs,
        to_component p.category,
        to_component p.name,
        map to_component p.others,
      )
unfolding local_new
local_new-HasPieces p =
    rw (local_new, HasPieces→from_refstr p, non_empty_components-HasPieces p) refl

pub refstr_join-join_with :
    (c : Component) (cs : List Component)
    → refstr_join c cs ≡ ok (join_with slash (inners (c ∷ cs)))
unfolding refstr_join
refstr_join-join_with c cs = collect-join_with c cs

abbrev first_code : Str → ℕ
first_code [] = 0
first_code (c ∷ s) = c

-- The name begins with "refs/heads/".
abbrev pub InHeads : RefStr → Type 0
InHeads n = (m : Str) × (n ≡ codes "refs/heads/" ++ m)

iter-heads :
    (m : Str)
    → iter (codes "refs/heads/" ++ m)
      ≡ refs ∷ heads ∷ (split_first slash m).0 ∷ (split_first slash m).1
unfolding iter split
iter-heads m = refl

from_refstr-InHeads : (n : RefStr) → InHeads n → from_refstr n ≢ none
from_refstr-InHeads n (m, e) bad =
    let p : HasPieces n = record {
      category = heads;
      name = (split_first slash m).0;
      others = (split_first slash m).1;
      pieces = ap iter e ∙ iter-heads m;
    } in
    absurd (let found = HasPieces→from_refstr p in cc)

category-InHeads : (n : RefStr) (p : HasPieces n) → InHeads n → p.category ≡ heads
category-InHeads n p (m, e) = let both = sym p.pieces ∙ ap iter e ∙ iter-heads m in cc

shorten-name :
    (n : RefStr) (a b c : Component) (cs : List Component) {l : Local}
    → n ≡ join_with slash (refs ∷ b.inner ∷ inners (c ∷ cs))
    → (InHeads n → b.inner ≡ heads)
    → shorten n (a, b, c, cs) ≡ ok l
    → ((l.name ≡ n) × (¬ InHeads n)) ⊎ (n ≡ codes "refs/heads/" ++ l.name)
unfolding shorten
shorten-name n a b c cs {l} eq within h = elim (Bool-cases (str_eq b.inner heads)) [
  | inr other ↦
      inl (
        ground arith,
        λ front. absurd (let same = (str_eq_iff b.inner heads).1 (within front) in cc),
      )
  | inl same ↦
      let found : join_with slash (inners (c ∷ cs)) ≡ l.name =
        ground (arith, refstr_join-join_with c cs) in
      let category : b.inner ≡ heads = (str_eq_iff b.inner heads).0 same in
      inr (eq ∙ ap₂ (λ x y. codes "refs/" ++ (x ++ slash ∷ y)) category found)
]

-- `Local::new` takes "refs/heads/" off the front of a name, and keeps a name that does not begin so.
local_new-name :
    (n : RefStr) {l : Local}
    → local_new n ≡ ok l
    → ((l.name ≡ n) × (¬ InHeads n)) ⊎ (n ≡ codes "refs/heads/" ++ l.name)
unfolding local_new
local_new-name n {l} h = elim (Option-cases (from_refstr n)) [
  | inl e ↦ inl (ground arith, λ front. from_refstr-InHeads n front e)
  | inr (q, e) ↦
      let (p, same) = from_refstr→HasPieces n e in
      let eq =
        from_pieces n p.pieces
        ∙ ap (λ t. join_with slash (refs ∷ p.category ∷ p.name ∷ t)) (sym (inners-map p.others)) in
      shorten-name n (to_component refs) (to_component p.category) (to_component p.name)
        (map to_component p.others) eq (category-InHeads n p) (sym (local_new-HasPieces p) ∙ h)
]

local_refname-join :
    (l : Local) → local_refname l ≡ ok (record { inner = codes "refs/heads/" ++ l.name })
unfolding local_refname from_refs join
local_refname-join l =
    from_category-from_refs heads l.name
    ∙ ap (λ t. ok (record { inner = t }))
        (push_lem (push refs heads) l.name ∙ ap (λ t. t ++ slash ∷ l.name) (push_lem refs heads))

remote_refname-join :
    (r : Remote)
    → remote_refname r
      ≡ ok (record { inner = codes "refs/remotes/" ++ (r.remote ++ slash ∷ r.name) })
unfolding remote_refname from_refs join
remote_refname-join r =
    from_category-from_refs remotes (push r.remote r.name)
    ∙ ap (λ t. ok (record { inner = t }))
        (push_lem (push refs remotes) (push r.remote r.name)
          ∙ ap₂ (λ s t. s ++ slash ∷ t) (push_lem refs remotes) (push_lem r.remote r.name))

-- The branch gives the name back, and it does not begin with "refs/heads/refs/heads/"; or it does,
-- the short name is what is behind that, and the branch gives a name with one "refs/heads/" less.
abbrev pub NameKept : Qualified → Branch → Type 0
NameKept q b =
    ((branch_refname b ≡ ok q) × ((m : Str) → q.inner ≢ codes "refs/heads/refs/heads/" ++ m))
    ⊎ ((q.inner ≡ codes "refs/heads/refs/heads/" ++ branch_short_name b)
        × (branch_refname b ≡ ok (record { inner = codes "refs/heads/" ++ branch_short_name b })))

heads-NameKept :
    (q : Qualified) (n : RefString) (l : Local)
    → q.inner ≡ codes "refs/heads/" ++ n
    → local_new n ≡ ok l
    → NameKept q (local l)
unfolding branch_refname branch_short_name
heads-NameKept q n l eq h = elim (local_new-name n h) [
  | inl (same, front) ↦ inl (
    local_refname-join l
        ∙ ap (λ t. ok (record { inner = t })) (ap (λ t. codes "refs/heads/" ++ t) same ∙ sym eq),
    λ m twice. front (m, ap (drop 11) (sym eq ∙ twice)),
  )
  | inr cut ↦ inr (eq ∙ ap (λ t. codes "refs/heads/" ++ t) cut, local_refname-join l)
]

remotes-NameKept :
    (q : Qualified) (c : Component) (n : RefString)
    → q.inner ≡ codes "refs/remotes/" ++ (c.inner ++ slash ∷ n)
    → NameKept q (remote (remote_new c n))
unfolding branch_refname remote_new
remotes-NameKept q c n eq = inl (
  remote_refname-join (remote_new c n) ∙ ap (λ t. ok (record { inner = t })) (sym eq),
  λ m twice.
      absurd (let letter = ap first_code (ap (drop 5) (sym eq ∙ twice)) in omega (arith, letter)),
)

branch_of_heads-NameKept :
    (q : Qualified) (c : Component) (cs : List Component) {br : Branch}
    → q.inner ≡ codes "refs/heads/" ++ join_with slash (inners (c ∷ cs))
    → ◌≡◌ {A = Result (Failure BranchError) Branch}
        (unwind (map_ok local (refstr_join c cs >>= local_new)))
        (ok br)
    → NameKept q br
branch_of_heads-NameKept q c cs {br} eq h =
    let n = join_with slash (inners (c ∷ cs)) in
    let h' = rw (refstr_join-join_with c cs) at h in
    elim (Result-cases (local_new n)) [
      | inr (e, bad) ↦ absurd (ground arith)
      | inl (l, good) ↦
          let same : local l ≡ br = ground arith in rw (← same) (heads-NameKept q n l eq good)
    ]

collect-nil : collect [] ≡ err empty_iterator
unfolding collect
collect-nil = refl

branch_of_remotes-NameKept :
    (q : Qualified) (c : Component) (cs : List Component) {br : Branch}
    → q.inner ≡ codes "refs/remotes/" ++ join_with slash (inners (c ∷ cs))
    → ◌≡◌ {A = Result (Failure BranchError) Branch}
        (unwind (map_ok (λ n. remote (remote_new c n)) (collect cs)))
        (ok br)
    → NameKept q br
branch_of_remotes-NameKept q c [] eq h = let h' = rw collect-nil at h in absurd (ground arith)
branch_of_remotes-NameKept q c (d ∷ ds) {br} eq h =
    let n = join_with slash (inners (d ∷ ds)) in
    let h' = rw (collect-join_with d ds) at h in
    let same : remote (remote_new c n) ≡ br = ground arith in
    rw (← same) (remotes-NameKept q c n eq)

branch_of-NameKept :
    (q : Qualified) (a b c : Component) (cs : List Component) {br : Branch}
    → q.inner ≡ codes "refs/" ++ (b.inner ++ slash ∷ join_with slash (inners (c ∷ cs)))
    → branch_of q (a, b, c, cs) ≡ ok br
    → NameKept q br
unfolding branch_of branch_refname branch_short_name
branch_of-NameKept q a b c cs {br} eq h = elim (Bool-cases (str_eq b.inner heads)) [
  | inl is_heads ↦
      let category = (str_eq_iff b.inner heads).0 is_heads in
      let eq' =
        eq ∙ ap (λ t. codes "refs/" ++ (t ++ slash ∷ join_with slash (inners (c ∷ cs)))) category in
      branch_of_heads-NameKept q c cs eq' (rw is_heads at h)
  | inr other ↦ elim (Bool-cases (str_eq b.inner remotes)) [
    | inl is_remotes ↦
        let category = (str_eq_iff b.inner remotes).0 is_remotes in
        let eq' =
          eq
          ∙ ap (λ t. codes "refs/" ++ (t ++ slash ∷ join_with slash (inners (c ∷ cs)))) category in
        branch_of_remotes-NameKept q c cs eq' (rw (other, is_remotes) at h)
    | inr neither ↦ absurd (ground arith)
  ]
]

-- A branch that `FromStr` reads from a name, whose namespaces are taken off, gives that name back,
-- unless the name begins with "refs/heads/refs/heads/": then the branch has the short name behind
-- that, and gives a name in which "refs/heads/" stands only once.
pub branch_from_str-NameKept :
    (s : Str) (br : Branch)
    → branch_from_str s ≡ ok br
    → (q : Qualified) × (strip_to_qualified BranchError.not_qualified BranchError.ref_format_error s
        ≡ ok q)
      × NameKept q br
unfolding branch_from_str
branch_from_str-NameKept s br h =
    let (q, strip, rest) =
      bind-eq-ok (strip_to_qualified BranchError.not_qualified BranchError.ref_format_error s) _
        h in
    let ((a, b, c, cs), shown, made) = bind-eq-ok (unwind (non_empty_components q)) _ rest in
    let begins =
      strip_to_qualified-BeginsWithRefs BranchError.not_qualified BranchError.ref_format_error s q
        strip in
    (
      q,
      strip,
      branch_of-NameKept q a b c cs
          (shown-whole q begins (unwind-ok (non_empty_components q) shown)) made,
    )
