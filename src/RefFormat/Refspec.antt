-- ===== src/RefFormat/Refspec.antt =====
-- radicle-git-ext/git-ref-format/core/src/refspec.rs and refspec/iter.rs: reference patterns.
-- `PatternStr` and `PatternString` are texts here, the borrowed and the owned form of one newtype.
pub mod Pieces
pub mod Validity
pub mod Namespace
mod Tests
use radicle_git.Base.{
  ℕ, zero, suc, ◌-◌, Bool, true, false, List, [], ◌∷◌, ◌++◌, map, Option, none, some, if◌then◌else◌,
  length, Result, ok, err, map_ok, ◌>>=◌, Str, codes, str_eq, contains, truncate, drop, split, ◌&&◌,
}
use radicle_git.RefFormat.Check.{Options, Error, ref_format}
use radicle_git.RefFormat.Name.{
  Panic, expect_failed, underflow, unwrap_none, RefStr, RefString, slash, refs, namespaces, push,
  pop, to_component,
}
use radicle_git.RefFormat.Deriv.{has_category, has_namespace, take_three}

abbrev pub PatternStr : Type 0
PatternStr = Str

abbrev pub PatternString : Type 0
PatternString = Str

abbrev pub star : Str
star = codes "*"

-- `CHECK_OPTS`
abbrev pub pattern_opts : Options
pattern_opts = record { allow_onelevel = true; allow_pattern = true }

-- `TryFrom<&str>` and `TryFrom<String>`
unfoldable pub try_pattern : Str → Result Error PatternString
try_pattern s = map_ok (λ _. s) (ref_format pattern_opts s)

-- `PatternStr::join`, `PatternString::push` and `PatternString::and`
unfoldable pub pattern_push : PatternString → RefStr → PatternString
pattern_push s other = (s ++ slash ∷ []) ++ other

-- `RefString::with_pattern`
unfoldable pub with_pattern : RefString → PatternStr → PatternString
with_pattern s pattern = (s ++ slash ∷ []) ++ pattern

pub data Piece : Type 0 where
  glob : Option PatternStr → Piece
  normal : RefStr → Piece

-- `AsRef<str> for Component`
unfoldable pub as_str : Piece → Str
as_str (glob none) = star
as_str (glob (some x)) = x
as_str (normal x) = x

-- The closure of `Components::next`.
unfoldable pub piece_of : Str → Piece
unfolding str_eq contains
piece_of x =
    if str_eq x star then glob none else if contains b'*' x then glob (some x) else normal x

-- `PatternStr::components`
unfoldable pub pieces : PatternStr → List Piece
unfolding piece_of
pieces p = map piece_of (split slash p)

-- `DuplicateGlob`, and the panic of `buf.len() - 1` on an empty buffer where overflow is checked.
pub data Failure : Type 0 where
  duplicate_glob : Failure
  panicked : Panic → Failure

unfoldable pub is_glob : Piece → Bool
is_glob (glob _) = true
is_glob (normal _) = false

-- The loop of `from_iter`.
unfoldable pub collect_pieces : Str → Bool → List Piece → Result Failure Str
unfolding is_glob as_str
collect_pieces buf seen_glob [] = ok buf
collect_pieces buf seen_glob (c ∷ cs) =
    let rest = collect_pieces ((buf ++ as_str c) ++ slash ∷ []) true cs in
    let plain = collect_pieces ((buf ++ as_str c) ++ slash ∷ []) seen_glob cs in
    if is_glob c then if seen_glob then err duplicate_glob else rest else plain

-- `buf.truncate(buf.len() - 1)`
unfoldable pub cut_last : Str → Result Failure PatternString
cut_last [] = err (panicked underflow)
cut_last (c ∷ r) = ok (truncate (length (c ∷ r) - 1) (c ∷ r))

-- `PatternString::from_components`, which is `FromIterator`
unfoldable pub from_pieces : List Piece → Result Failure PatternString
unfolding collect_pieces cut_last
from_pieces cs = collect_pieces [] false cs >>= cut_last

pub record QualifiedPattern : Type 0 where
  pub inner : PatternStr

pub record NamespacedPattern : Type 0 where
  pub inner : PatternStr

-- `QualifiedPattern::from_patternstr`
unfoldable pub from_patternstr : PatternStr → Option QualifiedPattern
from_patternstr r = if has_category (split slash r) then some (record { inner = r }) else none

-- `QualifiedPattern::join`
unfoldable pub qualified_push : QualifiedPattern → RefStr → QualifiedPattern
unfolding pattern_push
qualified_push q other = record { inner = pattern_push q.inner other }

-- `QualifiedPattern::non_empty_components`
unfoldable pub non_empty_pieces :
    QualifiedPattern → Result Panic (Piece × Piece × Piece × List Piece)
non_empty_pieces q = take_three (pieces q.inner)

-- `From<&PatternStr> for Option<NamespacedPattern>`
unfoldable pub pattern_to_namespaced : PatternStr → Option NamespacedPattern
pattern_to_namespaced r =
    if has_namespace (split slash r) then some (record { inner = r }) else none

-- `QualifiedPattern::with_namespace`
unfoldable pub pattern_with_namespace : QualifiedPattern → Piece → Result Failure NamespacedPattern
pattern_with_namespace q ns =
    map_ok (λ p. record { inner = p })
      (from_pieces (normal refs ∷ normal namespaces ∷ ns ∷ pieces q.inner))

-- `Result::expect`
abbrev pub expect {ℓ} : {A : Type ℓ} → Result Failure A → Result Panic A
expect (ok a) = ok a
expect (err duplicate_glob) = err expect_failed
expect (err (panicked p)) = err p

-- `NamespacedPattern::strip_namespace`
unfoldable pub strip_pattern : NamespacedPattern → Result Panic PatternString
strip_pattern n = expect (from_pieces (drop 3 (pieces n.inner)))

-- The loop of `strip_namespace_recursive`; `none` means that the fuel ran out.
unfoldable pub strip_pattern_loop : ℕ → PatternString → Option (Result Panic PatternString)
strip_pattern_loop zero strip = none
strip_pattern_loop (suc f) strip = elim (pattern_to_namespaced strip) [
  | none ↦ some (ok strip)
  | some ns ↦ elim (strip_pattern ns) [
    | err p ↦ some (err p)
    | ok strip' ↦ strip_pattern_loop f strip'
  ]
]

-- `NamespacedPattern::strip_namespace_recursive`, with fuel for each component.
unfoldable pub strip_pattern_recursive : NamespacedPattern → Option (Result Panic PatternString)
unfolding strip_pattern_loop
strip_pattern_recursive n =
    let f = length (split slash n.inner) in
    elim (strip_pattern n) [ err p ↦ some (err p) | ok strip ↦ strip_pattern_loop f strip ]

pub record Refspec {ℓ κ} (T : Type ℓ) (U : Type κ) : Type (ℓ ⊔ κ) where
  pub src : T
  pub dst : U
  pub force : Bool

-- `Display for Refspec`, at texts.
unfoldable pub fmt_refspec : Refspec Str Str → Str
fmt_refspec r = (if r.force then b'+' ∷ [] else []) ++ (r.src ++ b':' ∷ r.dst)
