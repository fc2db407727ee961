-- ===== src/Surf/Tests.antt =====
-- Runs of the modelled functions of radicle-surf, and its theorems at concrete inputs.
use radicle_git.Base
use radicle_git.Base.{
  ◌≡◌, refl, ◌≢◌, ok, err, some, none, List, [], ◌∷◌, Str, codes, split, contains, str_eq,
  ends_with, join_with,
}
use radicle_git.RefFormat.Check.{ref_format, judge}
use radicle_git.RefFormat.Name.{
  Panic, empty_iterator, unwrap_none, slash, refs, heads, remotes, iter, components, collect, push,
  join, try_from,
}
use radicle_git.RefFormat.Deriv.{
  Qualified, from_refstr, non_empty_components, to_namespaced, strip_namespace,
  strip_namespace_recursive, Namespaced, has_category, with_namespace,
}
use radicle_git.Surf.Namespace.{Namespace, add_namespaces, namespace_of}
use radicle_git.Surf.Namespace.RoundTrip.{namespace_of-add_namespaces}
use radicle_git.Surf.Branch.{
  panicked, local, BranchError, strip_to_qualified, local_from_str, remote_from_str,
  branch_from_str, from_refs_remotes,
}
use radicle_git.Surf.Branch.Names.{NameKept, branch_from_str-NameKept}
use radicle_git.Surf.Branch.Panics.{from_refs_remotes-HasPieces}

abbrev main : Str
main = codes "refs/heads/main"

branch_from_str-main : branch_from_str main ≡ ok (local (record { name = codes "main" }))
unfolding branch_from_str strip_to_qualified split judge ends_with try_from ref_format to_namespaced
    from_refstr non_empty_components components collect
branch_from_str-main = refl

remote_without_branch :
    remote_from_str (codes "refs/remotes/origin") ≡ err (panicked empty_iterator)
unfolding remote_from_str strip_to_qualified split judge ends_with try_from ref_format to_namespaced
    from_refstr non_empty_components components collect
remote_without_branch = refl

namespace_without_branch :
    branch_from_str (codes "refs/namespaces/a/refs/heads") ≡ err (panicked unwrap_none)
unfolding branch_from_str strip_to_qualified split judge ends_with try_from ref_format to_namespaced
    strip_namespace_recursive strip_namespace radicle_git.RefFormat.Name.strip_prefix
    Base.strip_prefix collect components non_empty_components
namespace_without_branch = refl

heads_taken_twice :
    local_from_str (codes "refs/heads/refs/heads/main") ≡ ok (record { name = codes "main" })
unfolding local_from_str strip_to_qualified split judge ends_with try_from ref_format to_namespaced
    from_refstr non_empty_components components collect
heads_taken_twice = refl

branch_from_str-NameKept_example :
    (q : Qualified) × (strip_to_qualified BranchError.not_qualified BranchError.ref_format_error
        main
      ≡ ok q)
    × NameKept q (local (record { name = codes "main" }))
branch_from_str-NameKept_example =
    branch_from_str-NameKept main (local (record { name = codes "main" })) branch_from_str-main

abbrev no_others : List Str
no_others = []

from_refs_remotes-HasPieces_example :
    (no_others ≡ [] → from_refs_remotes main ≡ err empty_iterator)
    × (no_others ≢ []
        → heads ≡ remotes
        → from_refs_remotes main
          ≡ ok (some (record { remote = codes "main"; name = join_with slash no_others })))
    × (no_others ≢ [] → heads ≢ remotes → from_refs_remotes main ≡ ok none)
unfolding split iter
from_refs_remotes-HasPieces_example =
    from_refs_remotes-HasPieces main heads (codes "main") no_others refl

abbrev surf_git : Namespace
surf_git = record { namespaces = codes "surf/git" }

add_namespaces-surf_git :
    add_namespaces surf_git (record { inner = main })
    ≡ ok (record { inner = codes "refs/namespaces/surf/refs/namespaces/git/refs/heads/main" })
unfolding add_namespaces with_namespace components split collect
add_namespaces-surf_git = refl

main-from_refstr : from_refstr main ≡ some (record { inner = main })
unfolding from_refstr split iter str_eq has_category
main-from_refstr = refl

main-to_namespaced : to_namespaced main ≡ none
unfolding to_namespaced split iter str_eq
main-to_namespaced = refl

namespace_of-add_namespaces_example :
    (n : Namespaced) × (add_namespaces surf_git (record { inner = main }) ≡ ok n)
    × (to_namespaced n.inner ≡ some n)
    × (namespace_of n ≡ some (ok (codes "surf/git")))
namespace_of-add_namespaces_example =
    namespace_of-add_namespaces surf_git (record { inner = main }) main-from_refstr
      main-to_namespaced
