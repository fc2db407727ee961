-- ===== src/Surf/Namespace.antt =====
-- radicle-surf/src/namespace.rs: a namespace of one or more components, around qualified names.
use mathlib.Core.List.{reverse}
use radicle_git.Base.{
  ℕ, zero, suc, List, [], ◌∷◌, Option, none, some, Result, ok, err, map_ok, map_err, ◌>>=◌, length,
  Str,
}
use radicle_git.RefFormat.Check.{Error}
use radicle_git.RefFormat.Name.{
  Panic, expect_failed, RefString, Component, components, push, iter, try_from, collect,
}
use radicle_git.RefFormat.Deriv.{
  Qualified, Namespaced, with_namespace, to_namespaced, namespace, strip_namespace,
}
use radicle_git.RefFormat.Refspec.{
  Piece, pieces, QualifiedPattern, NamespacedPattern, pattern_with_namespace, expect,
}
pub mod RoundTrip
pub mod Patterns

pub record Namespace : Type 0 where
  pub namespaces : RefString

-- `FromStr for Namespace`
unfoldable pub namespace_from_str : Str → Result Error Namespace
namespace_from_str s = map_ok (λ r. record { namespaces = r }) (try_from s)

-- `Namespaced::into_qualified`
abbrev pub into_qualified : Namespaced → Qualified
into_qualified n = record { inner = n.inner }

-- The loop of `to_namespaced`.
unfoldable pub wrap : Namespaced → List Component → Result Panic Namespaced
wrap n [] = ok n
wrap n (c ∷ cs) = do m ← with_namespace (into_qualified n) c; wrap m cs

-- The first of the reversed components, then the loop.
unfoldable pub wrap_all : Qualified → List Component → Result Panic Namespaced
unfolding wrap
wrap_all name [] = err expect_failed
wrap_all name (c ∷ cs) = do n ← with_namespace name c; wrap n cs

-- `Namespace::to_namespaced`
unfoldable pub add_namespaces : Namespace → Qualified → Result Panic Namespaced
unfolding wrap_all
add_namespaces ns name = wrap_all name (reverse (components ns.namespaces))

-- The loop of `From<Namespaced>`; `none` means that the fuel ran out.
unfoldable pub gather : ℕ → RefString → Qualified → Option (Result Panic RefString)
gather zero namespaces q = none
gather (suc f) namespaces q = elim (to_namespaced q.inner) [
  | none ↦ some (ok namespaces)
  | some n ↦ elim (namespace n) [
    | err p ↦ some (err p)
    | ok c ↦ elim (strip_namespace n) [
      | err p ↦ some (err p)
      | ok q' ↦ gather f (push namespaces c.inner) q'
    ]
  ]
]

-- `From<Namespaced> for Namespace`, with fuel for each component.
unfoldable pub namespace_of : Namespaced → Option (Result Panic RefString)
unfolding gather
namespace_of n =
    let f = length (iter n.inner) in
    elim (namespace n) [
      | err p ↦ some (err p)
      | ok c ↦ elim (strip_namespace n) [ err p ↦ some (err p) | ok q ↦ gather f c.inner q ]
    ]

-- `PatternString::from`, which keeps the text, and its components in reverse
abbrev pub reversed_pieces : Namespace → List Piece
reversed_pieces ns = reverse (pieces ns.namespaces)

-- The loop of `to_namespaced_pattern`.
unfoldable pub wrap_pattern : NamespacedPattern → List Piece → Result Panic NamespacedPattern
wrap_pattern n [] = ok n
wrap_pattern n (c ∷ cs) = do
  m ← expect (pattern_with_namespace (record { inner = n.inner }) c)
  wrap_pattern m cs

-- The first of the reversed components, then the loop.
unfoldable pub wrap_all_pattern : QualifiedPattern → List Piece → Result Panic NamespacedPattern
unfolding wrap_pattern
wrap_all_pattern pat [] = err expect_failed
wrap_all_pattern pat (c ∷ cs) = do n ← expect (pattern_with_namespace pat c); wrap_pattern n cs

-- `Namespace::to_namespaced_pattern`
unfoldable pub to_namespaced_pattern : Namespace → QualifiedPattern → Result Panic NamespacedPattern
unfolding wrap_all_pattern
to_namespaced_pattern ns pat = wrap_all_pattern pat (reversed_pieces ns)

-- The `Error` of namespace.rs
pub data NamespaceError (U : Type 0) : Type 0 where
  empty_namespace : NamespaceError U
  ref_format_error : Error → NamespaceError U
  utf8_error : U → NamespaceError U

-- `TryFrom<&[u8]> for Namespace`, of bytes as `from_utf8` reads them
unfoldable pub namespace_try_from :
    {U : Type 0} → Result U Str → Result (NamespaceError U) Namespace
unfolding namespace_from_str
namespace_try_from bytes = do
  s ← map_err utf8_error bytes
  map_err NamespaceError.ref_format_error (namespace_from_str s)
