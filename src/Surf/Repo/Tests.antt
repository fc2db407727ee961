-- ===== src/Surf/Repo/Tests.antt =====
-- Runs of the lists of references of radicle-surf, and its theorems at concrete inputs.
use radicle_git.Base
use radicle_git.Base.{
  ℕ, ◌≤◌, ◌≡◌, refl, ok, err, some, none, List, [], ◌∷◌, map, Str, codes, Result, if◌then◌else◌,
  str_eq, split, contains, ends_with, true, false, arith,
}
use radicle_git.Base.Map.{str_lt}
use radicle_git.RefFormat.Check.{ref_format, judge}
use radicle_git.RefFormat.Name.{RefString, tags, iter, components, collect, try_from}
use radicle_git.RefFormat.Deriv.{from_category, from_refstr, to_namespaced, non_empty_components}
use radicle_git.RefFormat.Refspec.{QualifiedPattern, pieces}
use radicle_git.RefFormat.Refspec.Pieces.{globs}
use radicle_git.Surf.Glob.{Glob, RefType}
use radicle_git.Surf.Namespace.{Namespace, to_namespaced_pattern}
use radicle_git.Surf.Namespace.Patterns.{to_namespaced_pattern-within}
use radicle_git.Surf.Refs.{Iter}
use radicle_git.Surf.Tag.{Reference, light, annotated, tag_try_from}
use radicle_git.Surf.Tag.Refname.{TagOf, tag_try_from-TagOf}
use radicle_git.Surf.Repo.{GitRepo, branches, repo_namespaces}
use radicle_git.Surf.Repo.Listing.{ListsBranches, branches-Matches}
use radicle_git.Surf.Repo.Namespaces.{Namespaces, repo_namespaces-Namespaces}

abbrev reference : Str → Reference (Unit {0}) (Unit {0})
reference name = record {
  name = ok name;
  peel_to_tag = err tt;
  is_no_tag = λ e. true;
  peel_to_commit = ok (codes "c0");
}

abbrev main : Reference (Unit {0}) (Unit {0})
main = reference (codes "refs/namespaces/a/refs/heads/main")

abbrev in_b : Reference (Unit {0}) (Unit {0})
in_b = reference (codes "refs/namespaces/b/refs/heads/x")

-- The repository is in the namespace "a".
abbrev repo : GitRepo (Unit {0}) (Unit {0})
repo = record {
  namespace_bytes = some (ok (codes "a"));
  references_glob = λ pattern.
      if str_eq pattern (codes "refs/namespaces/a/refs/heads/*")
      then ok (ok main ∷ [])
      else ok (ok in_b ∷ ok main ∷ ok in_b ∷ []);
}

abbrev heads_glob : Glob RefType.branch
heads_glob = record { globs = record { inner = codes "refs/heads/*" } ∷ [] }

abbrev found_main : Iter (Unit {0}) (Unit {0})
found_main = record { references = (ok main ∷ []) ∷ []; current = 0 }

run_branches : branches repo heads_glob ≡ ok found_main
unfolding branches try_from ref_format split ends_with judge pieces
    radicle_git.RefFormat.Refspec.pattern_with_namespace radicle_git.RefFormat.Refspec.from_pieces
run_branches = refl

branches-Matches_example : ListsBranches repo heads_glob.globs found_main
branches-Matches_example = branches-Matches repo heads_glob run_branches

abbrev namespaces_glob : Glob RefType.namespace
namespaces_glob = record { globs = record { inner = codes "refs/namespaces/*" } ∷ [] }

run_namespaces : repo_namespaces repo namespaces_glob ≡ ok ((codes "a", tt) ∷ (codes "b", tt) ∷ [])
unfolding repo_namespaces str_eq try_from ref_format split ends_with judge to_namespaced
    radicle_git.RefFormat.Deriv.namespace components radicle_git.RefFormat.Deriv.strip_namespace
    radicle_git.RefFormat.Name.strip_prefix Base.strip_prefix collect str_lt
run_namespaces = refl

repo_namespaces-Namespaces_example :
    Namespaces repo [] namespaces_glob.globs ((codes "a", tt) ∷ (codes "b", tt) ∷ [])
repo_namespaces-Namespaces_example = repo_namespaces-Namespaces repo namespaces_glob run_namespaces

abbrev two_components : Namespace
two_components = record { namespaces = codes "a/b" }

valid_namespace : try_from (codes "a/b") ≡ ok (codes "a/b")
unfolding try_from ref_format split ends_with judge
valid_namespace = refl

one_glob : globs (pieces (codes "refs/heads/*")) ≤ 1
unfolding pieces split radicle_git.RefFormat.Refspec.is_glob
one_glob = omega arith

to_namespaced_pattern-within_example :
    to_namespaced_pattern two_components (record { inner = codes "refs/heads/*" })
    ≡ ok (record { inner = codes "refs/namespaces/a/refs/namespaces/b/refs/heads/*" })
unfolding iter split
to_namespaced_pattern-within_example =
    to_namespaced_pattern-within two_components (record { inner = codes "refs/heads/*" })
      valid_namespace one_glob

abbrev v1 : Reference (Unit {0}) (Unit {0})
v1 = reference (codes "refs/tags/v1")

run_tag : tag_try_from v1 ≡ ok (light (codes "c0") (codes "v1"))
unfolding tag_try_from try_from ref_format split ends_with judge from_refstr non_empty_components
    components collect
run_tag = refl

tag_try_from-TagOf_example :
    (s : Str) × (n : RefString) × (v1.name ≡ ok s)
    × (try_from s ≡ ok s)
    × (from_category tags n ≡ ok (record { inner = s }))
    × TagOf v1 s (light (codes "c0") (codes "v1"))
tag_try_from-TagOf_example = tag_try_from-TagOf v1 run_tag

-- The tag object may have another name than the reference to it.
abbrev renamed : Reference (Unit {0}) (Unit {0})
renamed = record {
  name = ok (codes "refs/tags/v1");
  peel_to_tag = ok (record {
    id = codes "t0";
    target_id = codes "c0";
    name_bytes = ok (codes "v2");
    tagger = none;
    message_bytes = none;
  });
  is_no_tag = λ e. false;
  peel_to_commit = ok (codes "c0");
}

run_renamed : tag_try_from renamed ≡ ok (annotated (codes "t0") (codes "c0") (codes "v2") none none)
unfolding tag_try_from try_from ref_format split ends_with judge from_refstr non_empty_components
    components collect
run_renamed = refl
