-- ===== src/Surf/Branch.antt =====
-- radicle-surf/src/branch.rs: local and remote branches, read from reference names.
pub mod Shape
pub mod Names
pub mod Panics
pub mod Ends
use radicle_git.Base.{
  Bool, true, false, List, [], ◌∷◌, Option, none, some, if◌then◌else◌, Result, ok, err, map_ok,
  ◌>>=◌, Str, str_eq,
}
use radicle_git.RefFormat.Check.{Error}
use radicle_git.RefFormat.Name.{
  Panic, RefStr, RefString, heads, remotes, Component, collect, join, push, try_from,
}
use radicle_git.RefFormat.Deriv.{
  Qualified, from_refstr, non_empty_components, to_namespaced, strip_namespace_recursive,
  from_category,
}

-- How a call can fail: by its error, by a panic, or in the model by running out of fuel.
pub data Failure {ℓ} (E : Type ℓ) : Type ℓ where
  failed : E → Failure E
  panicked : Panic → Failure E
  out_of_fuel : Failure E

abbrev pub unwind {ℓ κ} : {E : Type ℓ} {A : Type κ} → Result Panic A → Result (Failure E) A
unwind (ok a) = ok a
unwind (err p) = err (panicked p)

abbrev pub run {ℓ κ} : {E : Type ℓ} {A : Type κ} → Option (Result Panic A) → Result (Failure E) A
run none = err out_of_fuel
run (some r) = unwind r

-- `Branch`, `Local` and `Remote` of the module `error`, without the unreachable `Utf8`.
pub data BranchError : Type 0 where
  invalid_name : RefString → BranchError
  not_qualified : Str → BranchError
  ref_format_error : Error → BranchError

pub data LocalError : Type 0 where
  not_heads : RefString → LocalError
  not_qualified : Str → LocalError
  ref_format_error : Error → LocalError

pub data RemoteError : Type 0 where
  not_qualified : Str → RemoteError
  not_remotes : RefString → RemoteError
  ref_format_error : Error → RemoteError

pub record Local : Type 0 where
  pub name : RefString

pub record Remote : Type 0 where
  pub remote : RefString
  pub name : RefString

pub data Branch : Type 0 where
  local : Local → Branch
  remote : Remote → Branch

-- `RefStr::try_from_str(name)?` and the match on `to_namespaced` that follows it.
unfoldable pub strip_to_qualified {ℓ} :
    {E : Type ℓ} → (Str → E) → (Error → E) → Str → Result (Failure E) Qualified
strip_to_qualified unqualified invalid s = elim (try_from s) [
  | err e ↦ err (failed (invalid e))
  | ok name ↦ elim (to_namespaced name) [
    | some n ↦ run (strip_namespace_recursive n)
    | none ↦ elim (from_refstr name) [ some q ↦ ok q | none ↦ err (failed (unqualified name)) ]
  ]
]

-- `refstr_join` of refs.rs
unfoldable pub refstr_join : Component → List Component → Result Panic RefString
refstr_join c cs = collect (c ∷ cs)

-- The arm of `Local::new` for a qualified name.
unfoldable pub shorten :
    RefStr → Component × Component × Component × List Component → Result Panic Local
unfolding refstr_join
shorten name (_, category, c, cs) =
    if str_eq category.inner heads
    then map_ok (λ n. record { name = n }) (refstr_join c cs)
    else ok (record { name = name })

-- `Local::new`
unfoldable pub local_new : RefStr → Result Panic Local
unfolding shorten
local_new name = elim (from_refstr name) [
  | none ↦ ok (record { name = name })
  | some q ↦ non_empty_components q >>= shorten name
]

-- `Local::refname`
unfoldable pub local_refname : Local → Result Panic Qualified
local_refname l = from_category heads l.name

-- `Remote::new`
unfoldable pub remote_new : Component → RefStr → Remote
remote_new r name = record { remote = r.inner; name = name }

-- `Remote::refname`
unfoldable pub remote_refname : Remote → Result Panic Qualified
remote_refname r = from_category remotes (join r.remote r.name)

-- `Remote::from_refs_remotes`: the value for `then_some` is computed before the test is read.
unfoldable pub from_refs_remotes : RefStr → Result Panic (Option Remote)
from_refs_remotes name = elim (from_refstr name) [
  | none ↦ ok none
  | some q ↦ do
    (_, category, r, cs) ← non_empty_components q
    n ← collect cs
    ok (
        if str_eq category.inner remotes
        then some (record { remote = r.inner; name = n })
        else none)
]

unfoldable pub local_of :
    Qualified
    → Component × Component × Component × List Component
    → Result (Failure LocalError) Local
unfolding refstr_join local_new
local_of q (_, category, c, cs) =
    if str_eq category.inner heads
    then unwind (refstr_join c cs >>= local_new)
    else err (failed (not_heads q.inner))

-- `FromStr for Local`
unfoldable pub local_from_str : Str → Result (Failure LocalError) Local
unfolding strip_to_qualified local_of
local_from_str s = do
  q ← strip_to_qualified LocalError.not_qualified LocalError.ref_format_error s
  cs ← unwind (non_empty_components q)
  local_of q cs

unfoldable pub remote_of :
    Qualified
    → Component × Component × Component × List Component
    → Result (Failure RemoteError) Remote
unfolding remote_new
remote_of q (_, category, r, cs) =
    if str_eq category.inner remotes
    then unwind (map_ok (remote_new r) (collect cs))
    else err (failed (not_remotes q.inner))

-- `FromStr for Remote`
unfoldable pub remote_from_str : Str → Result (Failure RemoteError) Remote
unfolding strip_to_qualified remote_of
remote_from_str s = do
  q ← strip_to_qualified RemoteError.not_qualified RemoteError.ref_format_error s
  cs ← unwind (non_empty_components q)
  remote_of q cs

unfoldable pub branch_of :
    Qualified
    → Component × Component × Component × List Component
    → Result (Failure BranchError) Branch
unfolding refstr_join local_new remote_new
branch_of q (_, category, c, cs) =
    if str_eq category.inner heads
    then unwind (map_ok local (refstr_join c cs >>= local_new))
    else if str_eq category.inner remotes
    then unwind (map_ok (λ n. remote (remote_new c n)) (collect cs))
    else err (failed (invalid_name q.inner))

-- `FromStr for Branch`
unfoldable pub branch_from_str : Str → Result (Failure BranchError) Branch
unfolding strip_to_qualified branch_of
branch_from_str s = do
  q ← strip_to_qualified BranchError.not_qualified BranchError.ref_format_error s
  cs ← unwind (non_empty_components q)
  branch_of q cs

-- `Branch::refname` and `Branch::short_name`
unfoldable pub branch_refname : Branch → Result Panic Qualified
unfolding local_refname remote_refname
branch_refname (local l) = local_refname l
branch_refname (remote r) = remote_refname r

unfoldable pub branch_short_name : Branch → RefString
branch_short_name (local l) = l.name
branch_short_name (remote r) = r.name
