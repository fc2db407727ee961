-- ===== src/Storage/Edits.antt =====
-- git-storage/src/backend/write.rs: the calls on a transaction of libgit2.
pub mod Locked
use radicle_git.Base.{
  Bool, true, false, not, ◌&&◌, List, [], ◌∷◌, ◌++◌, Option, none, some, ◌⊎◌, inl, inr,
  if◌then◌else◌, Result, ok, err, map_err, ◌>>=◌, Str, str_eq,
}
use radicle_git.RefFormat.Name.{RefStr, RefString}
use radicle_git.RefFormat.Deriv.{Qualified}
use radicle_git.Storage.Previous.{Oid, Edit, edit_guard, Remove, remove_guard}
use radicle_git.Storage.Refdb.{
  FindRef, Reference, Target, direct, symbolic, Policy, abort, reject, allow, SymrefTarget, Update,
  remove, Updated, removed, Applied, TransactionError, ancestry, commit, lock, signature,
  set_direct, set_symbolic, UpdateError, non_ff, find_ref, git, target_symbolic, transaction,
  type_change, Call, lock_ref, set_target, set_symbolic_target, remove_ref, commit_all, Trace,
  start, after, Git, UserInfo, Storage, find_reference, resolve,
}

module _ {E : Type 0} (w : Storage E) where
  -- A call on the transaction.
  unfoldable pub perform :
      Trace → Call → (E → TransactionError E) → Result (TransactionError E) Trace
  perform t c wrap = elim (w.raw.answer t c) [ none ↦ ok (after t c) | some e ↦ err (wrap e) ]

  -- `Transaction::lock`
  unfoldable pub lock_reference : Trace → RefString → Result (TransactionError E) Trace
  unfolding perform
  lock_reference t r = perform t (lock_ref r) (TransactionError.lock r)

  -- `UserInfo::signature`, and what the edits make of its error.
  unfoldable pub sign : Result (TransactionError E) (Unit {0})
  sign = elim (w.raw.signature_now w.info.name w.info.email) [
    | none ↦ ok tt
    | some e ↦ err (signature w.info.name w.info.email e)
  ]

  -- `Transaction::direct_edit`
  unfoldable pub direct_edit :
      Trace → RefString → Oid → Option Oid → Str → Result (TransactionError E) (Updated × Trace)
  unfolding lock_reference perform sign
  direct_edit t r target prev reflog = do
    t1 ← lock_reference t r
    _ ← sign
    t2 ← perform t1 (set_target r target reflog) (set_direct r target)
    ok (Updated.direct r target prev, t2)

  -- `if is_ff { edits.push(..) }`
  unfoldable pub edit_if :
      Bool
      → Trace
      → RefString
      → Oid
      → Option Oid
      → Str
      → Result (TransactionError E) (List Updated × Trace)
  unfolding direct_edit
  edit_if false t r target prev reflog = ok ([], t)
  edit_if true t r target prev reflog = do
    (u, t1) ← direct_edit t r target prev reflog
    ok (u ∷ [], t1)

  -- `Transaction::symbolic_edit`
  unfoldable pub symbolic_edit :
      Trace
      → RefString
      → SymrefTarget
      → Option Oid
      → Str
      → Bool
      → Result (TransactionError E) (List Updated × Trace)
  unfolding edit_if lock_reference perform sign
  symbolic_edit t r target prev reflog is_ff = do
    t1 ← lock_reference t r
    t2 ← lock_reference t1 target.name.inner
    _ ← sign
    (edits, t3) ← edit_if is_ff t2 target.name.inner target.target prev reflog
    t4 ←
        perform t3 (set_symbolic_target r target.name.inner reflog)
          (set_symbolic r target.name.inner)
    ok (edits ++ Updated.symbolic r target.name.inner prev ∷ [], t4)

  -- `Transaction::remove_edit`
  unfoldable pub remove_edit :
      Trace → RefString → Oid → Result (TransactionError E) (Updated × Trace)
  unfolding lock_reference perform
  remove_edit t r previous = do
    t1 ← lock_reference t r
    t2 ← perform t1 (remove_ref r) (TransactionError.remove r)
    ok (removed r previous, t2)

  -- `Transaction::is_ff`
  unfoldable pub is_ff : RefString → Oid → Oid → Result (TransactionError E) Bool
  is_ff name target prev =
      map_err (ancestry name target prev) (w.raw.graph_descendant_of target prev)
