-- ===== src/Surf/Branch/Panics.antt =====
-- Where the conversions of radicle-surf/src/branch.rs panic.
use radicle_git.Base.{
  ◌≡◌, refl, ap, ◌∙◌, ◌≢◌, inl, inr, false, List, [], ◌∷◌, ◌++◌, map, Option, none, some,
  if◌then◌else◌, Bool-cases, Result, ok, err, ◌>>=◌, Str, str_eq, str_eq_iff, join_with, joined,
}
use radicle_git.RefFormat.Name.{
  Panic, empty_iterator, RefStr, slash, refs, remotes, to_component, collect, iter,
}
use radicle_git.RefFormat.Name.Components.{inners-map, collect-join_with}
use radicle_git.RefFormat.Deriv.Category.{HasPieces, HasPieces→from_refstr}
use radicle_git.Surf.Branch.{Remote, from_refs_remotes}
use radicle_git.Surf.Branch.Shape.{non_empty_components-HasPieces}

collect-nil : collect [] ≡ err empty_iterator
unfolding collect
collect-nil = refl

collect-map :
    (d : Str) (ds : List Str) → collect (map to_component (d ∷ ds)) ≡ ok (join_with slash (d ∷ ds))
collect-map d ds =
    collect-join_with (to_component d) (map to_component ds)
    ∙ ap (λ t. ok (d ++ joined slash t)) (inners-map ds)

abbrev found : Str → Str → Str → Result Panic (Option Remote)
found category name n =
    ok (if str_eq category remotes then some (record { remote = name; name = n }) else none)

from_refs_remotes-pieces :
    {r : RefStr} (p : HasPieces r)
    → from_refs_remotes r ≡ (collect (map to_component p.others) >>= found p.category p.name)
unfolding from_refs_remotes
from_refs_remotes-pieces p =
    rw (from_refs_remotes, HasPieces→from_refstr p, non_empty_components-HasPieces p) refl

str_eq-other : (category : Str) → category ≢ remotes → str_eq category remotes ≡ false
str_eq-other category e = elim (Bool-cases (str_eq category remotes)) [
  | inl h ↦ absurd (e ((str_eq_iff category remotes).0 h))
  | inr h ↦ h
]

-- `Remote::from_refs_remotes` on a name of the form refs/<category>/<name>/<others>. Where nothing
-- stands behind <name> it panics, whatever the category is; where something does, it gives the
-- remote <name> with the branch <others> if the category is "remotes", and `None` if it is not.
pub from_refs_remotes-HasPieces :
    (r : RefStr) (category name : Str) (others : List Str)
    → iter r ≡ refs ∷ category ∷ name ∷ others
    → (others ≡ [] → from_refs_remotes r ≡ err empty_iterator)
      × (others ≢ []
          → category ≡ remotes
          → from_refs_remotes r
            ≡ ok (some (record { remote = name; name = join_with slash others })))
      × (others ≢ [] → category ≢ remotes → from_refs_remotes r ≡ ok none)
unfolding from_refs_remotes
from_refs_remotes-HasPieces r category name [] h =
    let shown =
      from_refs_remotes-pieces
        (record { category = category; name = name; others = []; pieces = h }) in
    (
      (λ _. shown ∙ ap (λ t. t >>= found category name) collect-nil),
      (λ e _. absurd (e refl)),
      (λ e _. absurd (e refl)),
    )
from_refs_remotes-HasPieces r category name (d ∷ ds) h =
    let shown =
      from_refs_remotes-pieces
        (record { category = category; name = name; others = d ∷ ds; pieces = h })
      ∙ ap (λ t. t >>= found category name) (collect-map d ds) in
    (
      (λ e. absurd (cc)),
      (λ _ e. shown ∙ rw ((str_eq_iff category remotes).1 e) refl),
      (λ _ e. shown ∙ rw (str_eq-other category e) refl),
    )
