-- ===== src/Surf/Glob/Prefixes.antt =====
-- radicle-surf/src/glob.rs: a glob is made of any pattern, and stands behind its prefix.
use radicle_git.Base.{
  ◌≡◌, refl, sym, ap, ◌∙◌, true, List, [], ◌∷◌, ◌++◌, append_assoc, map, Option, none, some, Result,
  ok, err, map_ok, Str, codes, split, split-append, str_eq,
}
use radicle_git.RefFormat.Name.{RefStr, RefString, slash, refs, join, push, iter, try_from}
use radicle_git.RefFormat.Name.Components.{iter-push}
use radicle_git.RefFormat.Name.Validity.{ref_format-join}
use radicle_git.RefFormat.Deriv.{has_category}
use radicle_git.RefFormat.Refspec.{
  PatternString, QualifiedPattern, try_pattern, with_pattern, from_patternstr,
}
use radicle_git.RefFormat.Refspec.Validity.{try_pattern-pattern_push}
use radicle_git.Surf.Glob.{
  RefType, Glob, and, qualify, expect_qualified, qualify_all, namespaces_from_iter,
  namespaces_extend, tags_from_iter, tags_extend, heads_from_iter, heads_extend, remotes_from_iter,
  remotes_extend, qualify_category,
}

-- The pattern behind a prefix.
abbrev pub behind : RefString → PatternString → QualifiedPattern
behind prefix p = record { inner = with_pattern prefix p }

-- A prefix starts with `refs`, and a component follows.
abbrev pub IsPrefix : RefString → Type 0
IsPrefix r = (c : Str) × (cs : List Str) × (split slash r ≡ refs ∷ c ∷ cs)

has_three : (c y : Str) (cs ys : List Str) → has_category (refs ∷ c ∷ (cs ++ y ∷ ys)) ≡ true
unfolding has_category str_eq
has_three c y [] ys = refl
has_three c y (x ∷ cs) ys = refl

has_split :
    (c : Str) (cs : List Str) (p : PatternString)
    → has_category (refs ∷ c ∷ (cs ++ split slash p)) ≡ true
unfolding split
has_split c cs p = has_three c _ cs _

has_category-IsPrefix :
    (r : RefString) (p : PatternString)
    → IsPrefix r
    → has_category (split slash (r ++ slash ∷ p)) ≡ true
has_category-IsPrefix r p (c, cs, e) =
    ap has_category (split-append slash r p ∙ ap (λ x. x ++ split slash p) e) ∙ has_split c cs p

qualify-IsPrefix :
    (r : RefString) (p : PatternString) → IsPrefix r → qualify r p ≡ some (behind r p)
unfolding qualify from_patternstr with_pattern
qualify-IsPrefix r p h = rw (append_assoc r (slash ∷ []) p, has_category-IsPrefix r p h) refl

expect_qualified-IsPrefix :
    (r : RefString) (p : PatternString) → IsPrefix r → expect_qualified r p ≡ ok (behind r p)
unfolding expect_qualified
expect_qualified-IsPrefix r p h = rw (expect_qualified, qualify-IsPrefix r p h) refl

qualify_all-IsPrefix :
    (r : RefString) (ps : List PatternString)
    → IsPrefix r
    → qualify_all r ps ≡ ok (map (behind r) ps)
unfolding qualify_all
qualify_all-IsPrefix r [] h = refl
qualify_all-IsPrefix r (p ∷ ps) h =
    rw (expect_qualified-IsPrefix r p h, qualify_all-IsPrefix r ps h) refl

iter_join :
    (category : RefStr) → split slash (push (codes "refs") category) ≡ refs ∷ split slash category
unfolding iter split
iter_join category = iter-push (codes "refs") category

join-IsPrefix : (category : RefStr) → IsPrefix (join (codes "refs") category)
unfolding join split
join-IsPrefix category = (_, _, iter_join category)

abbrev pub all_behind : {T : RefType} → RefString → List PatternString → Glob T
all_behind prefix ps = record { globs = map (behind prefix) ps }

namespaces_prefix : IsPrefix (codes "refs/namespaces")
unfolding split
namespaces_prefix = (codes "namespaces", [], refl)

tags_prefix : IsPrefix (codes "refs/tags")
unfolding split
tags_prefix = (codes "tags", [], refl)

tag_prefix : IsPrefix (codes "refs/tag")
unfolding split
tag_prefix = (codes "tag", [], refl)

heads_prefix : IsPrefix (codes "refs/heads")
unfolding split
heads_prefix = (codes "heads", [], refl)

remotes_prefix : IsPrefix (codes "refs/remotes")
unfolding split
remotes_prefix = (codes "remotes", [], refl)

-- Globs are collected from patterns of any text with no panic: each pattern stands behind
-- refs/namespaces/, refs/tags/, refs/heads/ or refs/remotes/.
pub from_iter-behind :
    (ps : List PatternString)
    → (namespaces_from_iter ps ≡ ok (all_behind (codes "refs/namespaces") ps))
      × (tags_from_iter ps ≡ ok (all_behind (codes "refs/tags") ps))
      × (heads_from_iter ps ≡ ok (all_behind (codes "refs/heads") ps))
      × (remotes_from_iter ps ≡ ok (all_behind (codes "refs/remotes") ps))
unfolding namespaces_from_iter tags_from_iter heads_from_iter remotes_from_iter
from_iter-behind ps = (
  ap (map_ok _) (qualify_all-IsPrefix _ ps namespaces_prefix),
  ap (map_ok _) (qualify_all-IsPrefix _ ps tags_prefix),
  ap (map_ok _) (qualify_all-IsPrefix _ ps heads_prefix),
  ap (map_ok _) (qualify_all-IsPrefix _ ps remotes_prefix),
)

-- Globs are collected from patterns of any text with no panic: each pattern stands behind
-- refs/namespaces/, refs/tags/, refs/heads/ or refs/remotes/. Nor do globs panic that are extended
-- by patterns: they are the globs joined by `and` to those that are collected from the patterns; but
-- for tags, where the patterns come to stand behind refs/tag/.
pub extend-and :
    (n : Glob RefType.namespace) (t : Glob RefType.tag) (l : Glob RefType.local)
    (r : Glob RefType.remote) (ps : List PatternString)
    → ((namespaces_from_iter ps ≡ ok (all_behind (codes "refs/namespaces") ps))
        × (namespaces_extend n ps ≡ ok (and n (all_behind (codes "refs/namespaces") ps))))
      × ((tags_from_iter ps ≡ ok (all_behind (codes "refs/tags") ps))
          × (tags_extend t ps ≡ ok (and t (all_behind (codes "refs/tag") ps))))
      × ((heads_from_iter ps ≡ ok (all_behind (codes "refs/heads") ps))
          × (heads_extend l ps ≡ ok (and l (all_behind (codes "refs/heads") ps))))
      × ((remotes_from_iter ps ≡ ok (all_behind (codes "refs/remotes") ps))
          × (remotes_extend r ps ≡ ok (and r (all_behind (codes "refs/remotes") ps))))
unfolding namespaces_extend tags_extend heads_extend remotes_extend and
extend-and n t l r ps =
    let (fn, ft, fh, fr) = from_iter-behind ps in
    (
      (fn, rw (qualify_all-IsPrefix (codes "refs/namespaces") ps namespaces_prefix) refl),
      (ft, rw (qualify_all-IsPrefix (codes "refs/tag") ps tag_prefix) refl),
      (fh, rw (qualify_all-IsPrefix (codes "refs/heads") ps heads_prefix) refl),
      (fr, rw (qualify_all-IsPrefix (codes "refs/remotes") ps remotes_prefix) refl),
    )

refs_name : try_from (codes "refs") ≡ ok (codes "refs")
unfolding try_from radicle_git.RefFormat.Check.ref_format split radicle_git.Base.ends_with
    radicle_git.RefFormat.Check.judge
refs_name = refl

refs_category :
    (category : RefStr)
    → try_from category ≡ ok category
    → try_from (join (codes "refs") category) ≡ ok (join (codes "refs") category)
unfolding try_from
refs_category category h = rw (ref_format-join true (codes "refs") category refs_name h) refl

-- Of a name as the category and a valid pattern, a valid pattern is made that passes for qualified.
pub qualify_category-try_pattern :
    (category : RefStr) (p : PatternString)
    → try_from category ≡ ok category
    → try_pattern p ≡ ok p
    → (qualify_category category p ≡ ok (behind (join (codes "refs") category) p))
      × (try_pattern (with_pattern (join (codes "refs") category) p)
          ≡ ok (with_pattern (join (codes "refs") category) p))
      × (from_patternstr (with_pattern (join (codes "refs") category) p)
          ≡ some (behind (join (codes "refs") category) p))
unfolding qualify_category
qualify_category-try_pattern category p hc hp = (
  expect_qualified-IsPrefix _ p (join-IsPrefix category),
  (try_pattern-pattern_push p (join (codes "refs") category) hp (refs_category category hc)).1,
  qualify-IsPrefix _ p (join-IsPrefix category),
)
