-- ===== src/RefFormat/Refspec/Tests.antt =====
-- Runs of the modelled pattern functions of core/src/refspec.rs, and the theorems at concrete inputs.
use radicle_git.Base.{
  ◌≡◌, ◌≢◌, refl, ◌≤◌, ◌<◌, ok, err, some, none, List, [], ◌∷◌, Str, codes, split, contains, str_eq,
  ends_with, join_with,
}
use radicle_git.RefFormat.Check.{ref_format, judge, check_part}
use radicle_git.RefFormat.Check.Sound.{check_part→IsPart}
use radicle_git.RefFormat.Name.{slash, try_from}
use radicle_git.RefFormat.Deriv.{has_category, has_namespace}
use radicle_git.RefFormat.Refspec.{
  Piece, glob, normal, as_str, is_glob, pieces, NamespacedPattern, duplicate_glob, try_pattern,
  from_pieces, from_patternstr, pattern_with_namespace, pattern_to_namespaced, strip_pattern,
  strip_pattern_recursive, PatternStr,
}
use radicle_git.RefFormat.Refspec.Pieces.{globs, strs}
use radicle_git.RefFormat.Refspec.Validity.{IsPiece, from_pieces-IsPiece}
use radicle_git.RefFormat.Refspec.Namespace.{
  EndsIn, strip_pattern-with_namespace, strip_pattern_recursive-total,
}

abbrev all_heads : Str
all_heads = codes "refs/heads/*"

abbrev namespaced_heads : Str
namespaced_heads = codes "refs/namespaces/a/refs/heads/*"

try_pattern-heads : try_pattern all_heads ≡ ok all_heads
unfolding try_pattern ref_format split judge ends_with
try_pattern-heads = refl

try_pattern-namespaced : try_pattern namespaced_heads ≡ ok namespaced_heads
unfolding try_pattern ref_format split judge ends_with
try_pattern-namespaced = refl

try_from-dev : try_from (codes "dev") ≡ ok (codes "dev")
unfolding try_from ref_format split judge ends_with
try_from-dev = refl

from_patternstr-heads : from_patternstr all_heads ≡ some (record { inner = all_heads })
unfolding from_patternstr has_category split str_eq
from_patternstr-heads = refl

pattern_to_namespaced-heads :
    pattern_to_namespaced namespaced_heads ≡ some (record { inner = namespaced_heads })
unfolding pattern_to_namespaced has_namespace split str_eq
pattern_to_namespaced-heads = refl

two_globs :
    from_pieces (glob none ∷ normal (codes "a") ∷ glob (some (codes "b*")) ∷ [])
    ≡ err duplicate_glob
unfolding from_pieces
two_globs = refl

dev-IsPiece : IsPiece (normal (codes "dev"))
unfolding check_part judge ends_with contains as_str is_glob
dev-IsPiece = record {
  whole = refl;
  part = (check_part→IsPart 0 (codes "dev") refl).0;
  star_count = refl;
}

star-IsPiece : IsPiece (glob none)
unfolding check_part judge ends_with contains as_str is_glob
star-IsPiece = record {
  whole = refl;
  part = (check_part→IsPart 0 (codes "*") refl).0;
  star_count = refl;
}

abbrev dev_star : List Piece
dev_star = normal (codes "dev") ∷ glob none ∷ []

dev_star-ne : join_with slash (strs dev_star) ≢ codes "@"
unfolding as_str
dev_star-ne e = cc

from_pieces-IsPiece_example :
    (globs dev_star ≤ 1 → (p : PatternStr) × (from_pieces dev_star ≡ ok p) × (try_pattern p ≡ ok p))
    × (1 < globs dev_star → from_pieces dev_star ≡ err duplicate_glob)
from_pieces-IsPiece_example =
    from_pieces-IsPiece (normal (codes "dev")) (glob none ∷ []) (dev-IsPiece, (star-IsPiece, tt))
      dev_star-ne

strip_pattern-with_namespace_example :
    (globs (normal (codes "a") ∷ pieces all_heads) ≤ 1
      → (n : NamespacedPattern) × (pattern_with_namespace
            (record { inner = all_heads })
            (normal (codes "a"))
          ≡ ok n)
        × (pattern_to_namespaced n.inner ≡ some n)
        × (strip_pattern n ≡ ok all_heads))
    × (1 < globs (normal (codes "a") ∷ pieces all_heads)
        → pattern_with_namespace (record { inner = all_heads }) (normal (codes "a"))
          ≡ err duplicate_glob)
unfolding as_str contains
strip_pattern-with_namespace_example =
    strip_pattern-with_namespace all_heads (normal (codes "a")) from_patternstr-heads refl

strip_pattern_recursive-total_example :
    (p : PatternStr) × (strip_pattern_recursive (record { inner = namespaced_heads }) ≡ some (ok p))
    × EndsIn namespaced_heads p
    × (pattern_to_namespaced p ≡ none)
strip_pattern_recursive-total_example =
    strip_pattern_recursive-total namespaced_heads try_pattern-namespaced
      pattern_to_namespaced-heads
