-- ===== src/RefFormat/Name.antt =====
-- radicle-git-ext/git-ref-format/core/src/name.rs and name/iter.rs: `RefStr` and `RefString` are
-- texts here (the borrowed and the owned form of one newtype), `Component` is a record around one.
pub mod Components
pub mod Validity
pub mod Paths
use radicle_git.Base.{
  ℕ, ◌+◌, ◌-◌, Bool, true, false, not, List, [], ◌∷◌, ◌++◌, map, Option, none, some, if◌then◌else◌,
  length, append_assoc, ◌≡◌, Result, ok, err, map_ok, Str, codes, contains, rfind, truncate, split,
}
use radicle_git.Base
use radicle_git.RefFormat.Check.{Options, Error, ref_format}

-- The panics of the crate's `assert!`, `unwrap` and arithmetic.
pub data Panic : Type 0 where
  empty_iterator unwrap_none expect_failed underflow : Panic

abbrev pub RefStr : Type 0
RefStr = Str

abbrev pub RefString : Type 0
RefString = Str

abbrev pub slash : ℕ
slash = b'/'

abbrev pub refs : RefStr
refs = codes "refs"

abbrev pub heads : RefStr
heads = codes "heads"

abbrev pub namespaces : RefStr
namespaces = codes "namespaces"

abbrev pub remotes : RefStr
remotes = codes "remotes"

abbrev pub tags : RefStr
tags = codes "tags"

abbrev pub notes : RefStr
notes = codes "notes"

-- `CHECK_OPTS`
abbrev pub check_opts : Options
check_opts = record { allow_onelevel = true; allow_pattern = false }

-- `TryFrom<&str>` and `TryFrom<String>`
unfoldable pub try_from : Str → Result Error RefString
try_from s = map_ok (λ _. s) (ref_format check_opts s)

-- `RefString::push`
unfoldable pub push : RefString → RefStr → RefString
push s other = (s ++ slash ∷ []) ++ other

pub push_lem : (s other : RefStr) → push s other ≡ s ++ slash ∷ other
unfolding push
push_lem s other = append_assoc s (slash ∷ []) other

-- `RefStr::join`
unfoldable pub join : RefStr → RefStr → RefString
unfolding push
join s other = push s other

-- `RefString::pop`
unfoldable pub pop : RefString → RefString × Bool
pop s = elim (rfind slash s) [ none ↦ (s, false) | some idx ↦ (truncate idx s, true) ]

unfoldable pub strip_prefix : RefStr → RefStr → Option RefStr
strip_prefix s base = elim (Base.strip_prefix base s) [
  | none ↦ none
  | some r ↦ Base.strip_prefix (slash ∷ []) r
]

-- `RefStr::iter`
unfoldable pub iter : RefStr → List Str
iter s = split slash s

pub record Component : Type 0 where
  pub inner : RefStr

abbrev pub to_component : RefStr → Component
to_component r = record { inner = r }

-- `Component::from_refstr`
unfoldable pub from_refstr : RefStr → Option Component
from_refstr r = if not (contains slash r) then some (to_component r) else none

unfoldable pub components : RefStr → List Component
unfolding iter
components s = map to_component (iter s)

-- The loop of `from_iter`.
unfoldable pub collect_onto : Str → List Component → Str
collect_onto buf [] = buf
collect_onto buf (c ∷ cs) = collect_onto ((buf ++ c.inner) ++ slash ∷ []) cs

-- The assertion and the `truncate` behind the loop.
unfoldable pub cut_slash : Str → Result Panic RefString
cut_slash [] = err empty_iterator
cut_slash (c ∷ r) = ok (truncate (length (c ∷ r) - 1) (c ∷ r))

-- `FromIterator for RefString`
unfoldable pub collect : List Component → Result Panic RefString
unfolding collect_onto cut_slash
collect cs = cut_slash (collect_onto [] cs)

-- `Extend for RefString`
unfoldable pub extend : RefString → List Component → RefString
unfolding push
extend s [] = s
extend s (c ∷ cs) = extend (push s c.inner) cs

-- `RefStr::head`
unfoldable pub head : RefStr → Result Panic Component
unfolding components
head s = elim (components s) [ [] ↦ err expect_failed | c ∷ _ ↦ ok c ]
