-- ===== src/Surf/Glob.antt =====
-- radicle-surf/src/glob.rs: the patterns that stand for namespaces, tags, branches and categories.
pub mod Prefixes
mod Tests
use radicle_git.Base.{
  List, [], ◌∷◌, ◌++◌, Option, none, some, Result, ok, err, map_ok, ◌>>=◌, Str, codes,
}
use radicle_git.RefFormat.Name.{Panic, expect_failed, RefStr, RefString, join}
use radicle_git.RefFormat.Refspec.{
  PatternString, QualifiedPattern, with_pattern, from_patternstr, star,
}

-- The types of references that the globs are for.
pub data RefType : Type 0 where
  namespace tag local remote branch qualified : RefType

pub record Glob (T : RefType) : Type 0 where
  pub globs : List QualifiedPattern

-- `Glob::and`
unfoldable pub and : {T : RefType} → Glob T → Glob T → Glob T
and g other = record { globs = g.globs ++ other.globs }

-- The function `qualify` outside the impls.
unfoldable pub qualify : RefString → PatternString → Option QualifiedPattern
qualify prefix glob = from_patternstr (with_pattern prefix glob)

-- `qualify(..).expect(..)`
unfoldable pub expect_qualified : RefString → PatternString → Result Panic QualifiedPattern
unfolding qualify
expect_qualified prefix glob = elim (qualify prefix glob) [
  | some q ↦ ok q
  | none ↦ err expect_failed
]

abbrev one : {T : RefType} → Result Panic QualifiedPattern → Result Panic (Glob T)
one q = map_ok (λ x. record { globs = x ∷ [] }) q

-- `self.globs.push(..)`
abbrev push_glob : {T : RefType} → Glob T → Result Panic QualifiedPattern → Result Panic (Glob T)
push_glob g q = map_ok (λ x. record { globs = g.globs ++ x ∷ [] }) q

-- The patterns of an iterator, each behind the prefix.
unfoldable pub qualify_all : RefString → List PatternString → Result Panic (List QualifiedPattern)
unfolding expect_qualified
qualify_all prefix [] = ok []
qualify_all prefix (p ∷ ps) = do
  q ← expect_qualified prefix p
  qs ← qualify_all prefix ps
  ok (q ∷ qs)

-- `Glob<Namespace>`
unfoldable pub qualify_namespace : PatternString → Result Panic QualifiedPattern
unfolding expect_qualified
qualify_namespace glob = expect_qualified (codes "refs/namespaces") glob

unfoldable pub namespaces : PatternString → Result Panic (Glob RefType.namespace)
unfolding qualify_namespace
namespaces glob = one (qualify_namespace glob)

unfoldable pub all_namespaces : Result Panic (Glob RefType.namespace)
unfolding namespaces
all_namespaces = namespaces star

unfoldable pub insert_namespace :
    Glob RefType.namespace → PatternString → Result Panic (Glob RefType.namespace)
unfolding qualify_namespace
insert_namespace g glob = push_glob g (qualify_namespace glob)

unfoldable pub namespaces_from_iter : List PatternString → Result Panic (Glob RefType.namespace)
unfolding qualify_all
namespaces_from_iter ps =
    map_ok (λ qs. record { globs = qs }) (qualify_all (codes "refs/namespaces") ps)

unfoldable pub namespaces_extend :
    Glob RefType.namespace → List PatternString → Result Panic (Glob RefType.namespace)
unfolding qualify_all
namespaces_extend g ps =
    map_ok (λ qs. record { globs = g.globs ++ qs }) (qualify_all (codes "refs/namespaces") ps)

-- `Glob<Tag>`
unfoldable pub qualify_tag : PatternString → Result Panic QualifiedPattern
unfolding expect_qualified
qualify_tag glob = expect_qualified (codes "refs/tags") glob

unfoldable pub tags : PatternString → Result Panic (Glob RefType.tag)
unfolding qualify_tag
tags glob = one (qualify_tag glob)

unfoldable pub all_tags : Result Panic (Glob RefType.tag)
unfolding tags
all_tags = tags star

unfoldable pub insert_tag : Glob RefType.tag → PatternString → Result Panic (Glob RefType.tag)
unfolding qualify_tag
insert_tag g glob = push_glob g (qualify_tag glob)

unfoldable pub tags_from_iter : List PatternString → Result Panic (Glob RefType.tag)
unfolding qualify_all
tags_from_iter ps = map_ok (λ qs. record { globs = qs }) (qualify_all (codes "refs/tags") ps)

unfoldable pub tags_extend : Glob RefType.tag → List PatternString → Result Panic (Glob RefType.tag)
unfolding qualify_all
tags_extend g ps =
    map_ok (λ qs. record { globs = g.globs ++ qs }) (qualify_all (codes "refs/tag") ps)

-- `Glob<Local>`
unfoldable pub qualify_heads : PatternString → Result Panic QualifiedPattern
unfolding expect_qualified
qualify_heads glob = expect_qualified (codes "refs/heads") glob

unfoldable pub heads : PatternString → Result Panic (Glob RefType.local)
unfolding qualify_heads
heads glob = one (qualify_heads glob)

unfoldable pub all_heads : Result Panic (Glob RefType.local)
unfolding heads
all_heads = heads star

unfoldable pub insert_local : Glob RefType.local → PatternString → Result Panic (Glob RefType.local)
unfolding qualify_heads
insert_local g glob = push_glob g (qualify_heads glob)

unfoldable pub heads_from_iter : List PatternString → Result Panic (Glob RefType.local)
unfolding qualify_all
heads_from_iter ps = map_ok (λ qs. record { globs = qs }) (qualify_all (codes "refs/heads") ps)

unfoldable pub heads_extend :
    Glob RefType.local → List PatternString → Result Panic (Glob RefType.local)
unfolding qualify_all
heads_extend g ps =
    map_ok (λ qs. record { globs = g.globs ++ qs }) (qualify_all (codes "refs/heads") ps)

-- `Glob<Remote>`
unfoldable pub qualify_remotes : PatternString → Result Panic QualifiedPattern
unfolding expect_qualified
qualify_remotes glob = expect_qualified (codes "refs/remotes") glob

unfoldable pub remotes : PatternString → Result Panic (Glob RefType.remote)
unfolding qualify_remotes
remotes glob = one (qualify_remotes glob)

unfoldable pub all_remotes : Result Panic (Glob RefType.remote)
unfolding remotes
all_remotes = remotes star

unfoldable pub insert_remote :
    Glob RefType.remote → PatternString → Result Panic (Glob RefType.remote)
unfolding qualify_remotes
insert_remote g glob = push_glob g (qualify_remotes glob)

unfoldable pub remotes_from_iter : List PatternString → Result Panic (Glob RefType.remote)
unfolding qualify_all
remotes_from_iter ps = map_ok (λ qs. record { globs = qs }) (qualify_all (codes "refs/remotes") ps)

unfoldable pub remotes_extend :
    Glob RefType.remote → List PatternString → Result Panic (Glob RefType.remote)
unfolding qualify_all
remotes_extend g ps =
    map_ok (λ qs. record { globs = g.globs ++ qs }) (qualify_all (codes "refs/remotes") ps)

-- `From<Glob<Local>>` and `From<Glob<Remote>> for Glob<Branch>`
unfoldable pub local_branches : Glob RefType.local → Glob RefType.branch
local_branches g = record { globs = g.globs }

unfoldable pub remote_branches : Glob RefType.remote → Glob RefType.branch
remote_branches g = record { globs = g.globs }

-- `Glob<Qualified>`
unfoldable pub qualify_category : RefStr → PatternString → Result Panic QualifiedPattern
unfolding expect_qualified join
qualify_category category glob = expect_qualified (join (codes "refs") category) glob

unfoldable pub categories : RefStr → PatternString → Result Panic (Glob RefType.qualified)
unfolding qualify_category
categories category glob = one (qualify_category category glob)

unfoldable pub all_category : RefStr → Result Panic (Glob RefType.qualified)
unfolding qualify_category
all_category category = one (qualify_category category star)

unfoldable pub insert_category :
    Glob RefType.qualified → RefStr → PatternString → Result Panic (Glob RefType.qualified)
unfolding qualify_category
insert_category g category glob = push_glob g (qualify_category category glob)
