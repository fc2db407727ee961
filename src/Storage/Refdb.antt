-- ===== src/Storage/Refdb.antt =====
-- git-storage/src/refdb.rs, refdb/write.rs, backend/read.rs and backend/write/error.rs: references,
-- updates to them, and libgit2 as the code uses it.
use radicle_git.Base.{
  Bool, List, Option, none, some, if◌then◌else◌, Result, ok, err, map_ok, ◌>>=◌, Str,
}
use radicle_git.RefFormat.Check.{Error}
use radicle_git.RefFormat.Name.{RefStr, RefString, try_from}
use radicle_git.RefFormat.Deriv.{Qualified}
use radicle_git.Storage.Previous.{Oid, Edit, Remove}

pub data Target : Type 0 where
  direct : Oid → Target
  symbolic : RefString → Target

pub record Reference : Type 0 where
  pub name : RefString
  pub target : Target

pub data Policy : Type 0 where
  abort reject allow : Policy

pub record SymrefTarget : Type 0 where
  pub name : Qualified
  pub target : Oid

pub data Update : Type 0 where
  direct :
      (name : Qualified) (target : Oid) (no_ff : Policy) (previous : Edit) (reflog : Str) → Update
  symbolic :
      (name : Qualified) (target : SymrefTarget) (type_change : Policy) (previous : Edit)
      (reflog : Str)
      → Update
  remove : (name : Qualified) (previous : Remove) → Update

pub data Updated : Type 0 where
  direct : (name : RefString) (target : Oid) (previous : Option Oid) → Updated
  symbolic : (name : RefString) (target : RefString) (previous : Option Oid) → Updated
  removed : (name : RefString) (previous : Oid) → Updated

pub record Applied : Type 0 where
  pub rejected : List Update
  pub updated : List Updated

pub data ParseReference : Type 0 where
  invalid_utf8 : ParseReference
  ref_string : Error → ParseReference

-- `error::FindRef` of backend/read.rs, over the errors of libgit2.
pub data FindRef (E : Type 0) : Type 0 where
  git : E → FindRef E
  parse : ParseReference → FindRef E

-- `error::Transaction`
pub data TransactionError (E : Type 0) : Type 0 where
  ancestry : (name : RefString) (new old : Oid) (source : E) → TransactionError E
  commit : (source : E) → TransactionError E
  lock : (reference : RefString) (source : E) → TransactionError E
  signature : (name email : Str) (source : E) → TransactionError E
  set_direct : (reference : RefString) (target : Oid) (source : E) → TransactionError E
  set_symbolic : (reference target : RefString) (source : E) → TransactionError E
  remove : (reference : RefString) (source : E) → TransactionError E

-- `error::Update`
pub data UpdateError (E : Type 0) : Type 0 where
  non_ff : (name : RefString) (new cur : Oid) → UpdateError E
  find_ref : FindRef E → UpdateError E
  git : E → UpdateError E
  target_symbolic : RefString → UpdateError E
  transaction : TransactionError E → UpdateError E
  type_change : RefString → UpdateError E

-- What `git2::Reference` tells: `none` for a name or target that is missing or is not UTF-8.
pub record RawReference : Type 0 where
  pub name : Option Str
  pub target : Option Oid
  pub symbolic_target : Option Str

-- A call on `git2::Transaction`.
pub data Call : Type 0 where
  lock_ref : RefString → Call
  set_target : (reference : RefString) (target : Oid) (reflog : Str) → Call
  set_symbolic_target : (reference target : RefString) (reflog : Str) → Call
  remove_ref : RefString → Call
  commit_all : Call

-- The calls that a transaction has answered, the last one outermost.
pub data Trace : Type 0 where
  start : Trace
  after : Trace → Call → Trace

-- libgit2 on the repository as it is before the commit. `answer` is the error of a call, which may
-- depend on the calls before it; `is_not_found_err` tells whether the code of an error is `NotFound`.
pub record Git (E : Type 0) : Type 0 where
  pub find_raw : RefStr → Result E RawReference
  pub is_not_found_err : E → Bool
  pub refname_to_id : RefStr → Result E Oid
  pub graph_descendant_of : Oid → Oid → Result E Bool
  pub signature_now : Str → Str → Option E
  pub begin_transaction : Option E
  pub answer : Trace → Call → Option E

pub record UserInfo : Type 0 where
  pub name : Str
  pub email : Str

-- `Write`, the storage.
pub record Storage (E : Type 0) : Type 0 where
  pub raw : Git E
  pub info : UserInfo

unfoldable pub parse_name : Option Str → Result ParseReference RefString
parse_name none = err invalid_utf8
parse_name (some s) = elim (try_from s) [ ok r ↦ ok r | err e ↦ err (ref_string e) ]

unfoldable pub parse_target : RawReference → Result ParseReference Target
unfolding parse_name
parse_target v = elim v.target [
  | some oid ↦ ok (direct oid)
  | none ↦ map_ok symbolic (parse_name v.symbolic_target)
]

-- `TryFrom<git2::Reference> for Reference`
unfoldable pub parse_reference : RawReference → Result ParseReference Reference
unfolding parse_target
parse_reference v = do
  name ← parse_name v.name
  target ← parse_target v
  ok (record { name = name; target = target })

module _ {E : Type 0} (w : Storage E) where
  -- `find_reference` of `Read`
  unfoldable pub find_reference : RefStr → Result (FindRef E) (Option Reference)
  unfolding parse_reference
  find_reference name = elim (w.raw.find_raw name) [
    | err e ↦ if w.raw.is_not_found_err e then ok none else err (git e)
    | ok v ↦ elim (parse_reference v) [ ok r ↦ ok (some r) | err e ↦ err (parse e) ]
  ]

  -- `resolve`
  unfoldable pub resolve : Reference → Result E Oid
  resolve r = elim r.target [ direct oid ↦ ok oid | symbolic name ↦ w.raw.refname_to_id name ]
