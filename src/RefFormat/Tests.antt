-- ===== src/RefFormat/Tests.antt =====
-- Runs of the modelled functions of git-ref-format-core, and its theorems at concrete inputs.
use Prim.Native.String.{String}
use radicle_git.Base
use radicle_git.Base.{
  ℕ, ◌≤◌, ◌<◌, ◌≡◌, refl, ◌↔◌, ◌⊎◌, ok, err, map_ok, some, none, true, false, List, [], ◌∷◌, Str,
  codes, split, contains, str_eq, ends_with, length, rfind,
}
use radicle_git.RefFormat.Check.{
  ref_format, judge, check_part, at_open_brace, ends_dot, dot_dot, starts_dot, dot_lock, onelevel,
}
use radicle_git.RefFormat.Check.Spec.{IsRefname, IsPart}
use radicle_git.RefFormat.Check.Sound.{ref_format_iff, check_part→IsPart}
use radicle_git.RefFormat.Name.{
  check_opts, unwrap_none, refs, iter, Component, to_component, components, collect, pop, join,
  strip_prefix, try_from,
}
use radicle_git.RefFormat.Name.Validity.{ref_format-join, pop-try_from}
use radicle_git.RefFormat.Deriv.{
  Qualified, Namespaced, from_refstr, has_category, non_empty_components, to_namespaced,
  with_namespace, namespace, strip_namespace, strip_namespace_recursive,
}
use radicle_git.RefFormat.Deriv.Category.{non_empty_components-from_refstr}
use radicle_git.RefFormat.Deriv.Namespace.Strip.{
  Strips, strip_namespace-with_namespace, strip_namespace-IsQualified,
  strip_namespace_recursive-total,
}

abbrev main : Str
main = codes "refs/heads/main"

ref_format-main : ref_format check_opts main ≡ ok tt
unfolding ref_format split judge ends_with
ref_format-main = refl

ref_format_errors :
    (ref_format check_opts (codes "a/b.lock") ≡ err dot_lock)
    × (ref_format check_opts (codes "a..b") ≡ err dot_dot)
    × (ref_format check_opts (codes "a/.b") ≡ err starts_dot)
    × (ref_format check_opts (codes "a./b") ≡ err ends_dot)
    × (ref_format check_opts (codes "a@{b") ≡ err at_open_brace)
    × (ref_format (record { allow_onelevel = false; allow_pattern = true }) (codes "main")
        ≡ err onelevel)
unfolding ref_format split judge ends_with
ref_format_errors = (refl, refl, refl, refl, refl, refl)

-- The characters are read in a cycle, so the `@` at the end meets the `{` at the start.
ref_format_wraps : ref_format check_opts (codes "{a@") ≡ err at_open_brace
unfolding ref_format split judge ends_with
ref_format_wraps = refl

ref_format_iff_example : (ref_format check_opts main ≡ ok tt) ↔ IsRefname check_opts main
ref_format_iff_example = ref_format_iff check_opts main

abbrev component_of_text : String → Component
component_of_text s = to_component (codes s)

abbrev xyz : Component
xyz = component_of_text "xyz"

abbrev namespaced_main : Str
namespaced_main = codes "refs/namespaces/xyz/refs/heads/main"

from_refstr-main : from_refstr main ≡ some (record { inner = main })
unfolding from_refstr has_category str_eq split
from_refstr-main = refl

to_namespaced-main : to_namespaced namespaced_main ≡ some (record { inner = namespaced_main })
unfolding to_namespaced str_eq split
to_namespaced-main = refl

strip_namespace-main :
    strip_namespace (record { inner = namespaced_main }) ≡ ok (record { inner = main })
unfolding strip_namespace Base.strip_prefix strip_prefix components collect split
strip_namespace-main = refl

try_from-main : try_from main ≡ ok main
unfolding try_from ref_format split judge ends_with
try_from-main = refl

try_from-dev : try_from (codes "dev") ≡ ok (codes "dev")
unfolding try_from ref_format split judge ends_with
try_from-dev = refl

ref_format-join_example :
    ref_format (record { allow_onelevel = false; allow_pattern = false }) (join main (codes "dev"))
    ≡ ok tt
ref_format-join_example = ref_format-join false main (codes "dev") try_from-main try_from-dev

pop-main : pop main ≡ (codes "refs/heads", true)
unfolding pop rfind
pop-main = refl

pop-try_from_example :
    (codes "refs/heads" ≡ codes "@") ⊎ (try_from (codes "refs/heads") ≡ ok (codes "refs/heads"))
pop-try_from_example = pop-try_from main (codes "refs/heads") try_from-main pop-main

dev-IsPart : IsPart (codes "dev")
unfolding check_part judge ends_with
dev-IsPart = (check_part→IsPart 0 (codes "dev") refl).0

non_empty_components-from_refstr_example :
    (b c : Component) × (cs : List Component) × (non_empty_components (record { inner = main })
      ≡ ok (to_component refs, b, c, cs))
    × (collect (to_component refs ∷ b ∷ c ∷ cs) ≡ ok main)
non_empty_components-from_refstr_example = non_empty_components-from_refstr main from_refstr-main

strip_namespace-with_namespace_example :
    (n : Namespaced) × (with_namespace (record { inner = main }) xyz ≡ ok n)
    × (to_namespaced n.inner ≡ some n)
    × (namespace n ≡ ok xyz)
    × (strip_namespace n ≡ ok (record { inner = main }))
unfolding contains
strip_namespace-with_namespace_example =
    strip_namespace-with_namespace main xyz from_refstr-main refl

strip_namespace-IsQualified_example :
    (q : Qualified) × (strip_namespace (record { inner = namespaced_main }) ≡ ok q)
    × (6 ≤ length (iter namespaced_main) → from_refstr q.inner ≡ some q)
    × (length (iter namespaced_main) < 6
        → (from_refstr q.inner ≡ none) × (non_empty_components q ≡ err unwrap_none))
strip_namespace-IsQualified_example = strip_namespace-IsQualified namespaced_main to_namespaced-main

strip_namespace_recursive-total_example :
    (q : Qualified) × (strip_namespace_recursive (record { inner = namespaced_main }) ≡ some (ok q))
    × Strips namespaced_main q.inner
    × (to_namespaced q.inner ≡ none)
strip_namespace_recursive-total_example =
    strip_namespace_recursive-total namespaced_main to_namespaced-main
