-- ===== src/Storage/Transaction.antt =====
-- git-storage/src/backend/write.rs: the updates of references within a transaction of libgit2.
pub mod Outcomes
pub mod Symbolic
pub mod Commit
pub mod Policies
pub mod Panics
use radicle_git.Base.{
  map_err, Bool, true, false, not, ◌&&◌, List, [], ◌∷◌, ◌++◌, Option, none, some, ◌⊎◌, inl, inr,
  if◌then◌else◌, Result, ok, err, ◌>>=◌, Str, str_eq,
}
use radicle_git.RefFormat.Name.{RefStr, RefString}
use radicle_git.RefFormat.Deriv.{Qualified}
use radicle_git.Storage.Previous.{Oid, Edit, edit_guard, Remove, remove_guard}
use radicle_git.Storage.Refdb.{
  FindRef, Reference, Target, direct, symbolic, Policy, abort, reject, allow, SymrefTarget, Update,
  remove, Updated, removed, Applied, TransactionError, ancestry, commit, lock, signature,
  set_direct, set_symbolic, UpdateError, non_ff, find_ref, git, target_symbolic, transaction, Call,
  lock_ref, set_target, set_symbolic_target, remove_ref, commit_all, Trace, start, after, Git,
  UserInfo, Storage, find_reference, resolve,
}
use radicle_git.Storage.Edits.{perform, direct_edit, symbolic_edit, remove_edit, is_ff}

-- How an update can fail: by its error, or by the panic of `remove`.
pub data Fault (E : Type 0) : Type 0 where
  failed : UpdateError E → Fault E
  panicked : Fault E

-- `Vec<Updated>` or `Updated` on success, the update itself where it is rejected.
abbrev pub Outcome : Type 0 → Type 0
Outcome A = (Update ⊎ A) × Trace

-- `applied.rejected.push(..)` or `applied.updated.push(..)`
abbrev pub record_one : Applied → Update ⊎ Updated → Applied
record_one a (inl u) = record { rejected = a.rejected ++ u ∷ []; updated = a.updated }
record_one a (inr u) = record { rejected = a.rejected; updated = a.updated ++ u ∷ [] }

-- `applied.rejected.push(..)` or `applied.updated.extend(..)`
abbrev pub record_many : Applied → Update ⊎ List Updated → Applied
record_many a (inl u) = record { rejected = a.rejected ++ u ∷ []; updated = a.updated }
record_many a (inr us) = record { rejected = a.rejected; updated = a.updated ++ us }

module _ {E : Type 0} (w : Storage E) where
  abbrev pub fail_transaction : TransactionError E → Fault E
  fail_transaction e = failed (transaction e)

  -- `self.refdb.find_reference(&name)?`
  unfoldable pub find : RefString → Result (Fault E) (Option Reference)
  find name = map_err (λ e. failed (find_ref e)) (find_reference w name)

  -- `.map(|prev| resolve(..)).transpose()?`
  unfoldable pub resolve_found : Option Reference → Result (Fault E) (Option Oid)
  resolve_found none = ok none
  resolve_found (some r) = map_err (λ e. failed (git e)) (resolve w r >>= λ o. ok (some o))

  -- The current value if the update is no fast-forward.
  unfoldable pub find_not_ff : RefString → Oid → Option Oid → Result (Fault E) (Option Oid)
  unfolding is_ff
  find_not_ff name target none = ok none
  find_not_ff name target (some prev) = do
    ff ← map_err fail_transaction (is_ff w name target prev)
    ok (if not ff then some prev else none)

  unfoldable pub direct_edited :
      Trace → RefString → Oid → Option Oid → Str → Result (Fault E) (Outcome Updated)
  direct_edited t name target given reflog = do
    (u, t1) ← map_err fail_transaction (direct_edit w t name target given reflog)
    ok (inr u, t1)

  -- The match on `not_ff`.
  unfoldable pub direct_checked :
      Trace
      → Qualified
      → Oid
      → Policy
      → Edit
      → Str
      → Option Oid
      → Option Oid
      → Result (Fault E) (Outcome Updated)
  unfolding direct_edited
  direct_checked t name target no_ff previous reflog given none =
      direct_edited t name.inner target given reflog
  direct_checked t name target abort previous reflog given (some cur) =
      err (failed (non_ff name.inner target cur))
  direct_checked t name target reject previous reflog given (some cur) =
      ok (inl (Update.direct name target reject previous reflog), t)
  direct_checked t name target allow previous reflog given (some cur) =
      direct_edited t name.inner target given reflog

  -- `Transaction::direct`
  unfoldable pub direct_update :
      Trace → Qualified → Oid → Policy → Edit → Str → Result (Fault E) (Outcome Updated)
  unfolding find resolve_found find_not_ff direct_checked
  direct_update t name target no_ff previous reflog = do
    prev ← find name.inner
    given ← resolve_found prev
    elim (edit_guard previous given) [
      | err _ ↦ ok (inl (Update.direct name target no_ff previous reflog), t)
      | ok _ ↦ do
        not_ff ← find_not_ff name.inner target given
        direct_checked t name target no_ff previous reflog given not_ff
    ]

  unfoldable pub symbolic_edited :
      Trace
      → RefString
      → SymrefTarget
      → Option Oid
      → Str
      → Bool
      → Result (Fault E) (Outcome (List Updated))
  symbolic_edited t name target prev reflog ff = do
    (us, t1) ← map_err fail_transaction (symbolic_edit w t name target prev reflog ff)
    ok (inr us, t1)

  -- `target.target != dst && self.is_ff(..)?`
  unfoldable pub moves_forward : SymrefTarget → Oid → Result (Fault E) Bool
  unfolding is_ff
  moves_forward target dst =
      if not (str_eq target.target dst)
      then map_err fail_transaction (is_ff w target.name.inner target.target dst)
      else ok false

  -- The match on the reference that the new target names.
  unfoldable pub symbolic_onto :
      Trace
      → Qualified
      → SymrefTarget
      → Option Oid
      → Str
      → Option Reference
      → Result (Fault E) (Outcome (List Updated))
  unfolding symbolic_edited moves_forward
  symbolic_onto t name target prev reflog none =
      symbolic_edited t name.inner target prev reflog true
  symbolic_onto t name target prev reflog (some dst) = elim dst.target [
    | direct oid ↦ do
      ff ← moves_forward target oid
      symbolic_edited t name.inner target prev reflog ff
    | symbolic _ ↦ err (failed (target_symbolic dst.name))
  ]

  unfoldable pub symbolic_retarget :
      Trace
      → Qualified
      → SymrefTarget
      → Option Oid
      → Str
      → Result (Fault E) (Outcome (List Updated))
  unfolding symbolic_onto find
  symbolic_retarget t name target prev reflog = do
    dst ← find target.name.inner
    symbolic_onto t name target prev reflog dst

  -- The arms for a source that is direct.
  unfoldable pub direct_source :
      Trace
      → Qualified
      → SymrefTarget
      → Policy
      → Edit
      → Str
      → Option Oid
      → Result (Fault E) (Outcome (List Updated))
  unfolding symbolic_retarget
  direct_source t name target abort previous reflog prev =
      err (failed (UpdateError.type_change name.inner))
  direct_source t name target reject previous reflog prev =
      ok (inl (Update.symbolic name target reject previous reflog), t)
  direct_source t name target allow previous reflog prev =
      symbolic_retarget t name target prev reflog

  -- The match on the source and its target.
  unfoldable pub symbolic_from :
      Trace
      → Qualified
      → SymrefTarget
      → Policy
      → Edit
      → Str
      → Option Oid
      → Option Reference
      → Result (Fault E) (Outcome (List Updated))
  unfolding symbolic_edited symbolic_retarget direct_source
  symbolic_from t name target change previous reflog prev none =
      symbolic_edited t name.inner target prev reflog true
  symbolic_from t name target change previous reflog prev (some src) = elim src.target [
    | symbolic _ ↦ symbolic_retarget t name target prev reflog
    | direct _ ↦ direct_source t name target change previous reflog prev
  ]

  -- `Transaction::symbolic`
  unfoldable pub symbolic_update :
      Trace
      → Qualified
      → SymrefTarget
      → Policy
      → Edit
      → Str
      → Result (Fault E) (Outcome (List Updated))
  unfolding find resolve_found symbolic_from
  symbolic_update t name target change previous reflog = do
    src ← find name.inner
    prev ← resolve_found src
    symbolic_from t name target change previous reflog prev src

  unfoldable pub remove_given : Trace → Qualified → Option Oid → Result (Fault E) (Outcome Updated)
  unfolding remove_edit
  remove_given t name none = err panicked
  remove_given t name (some previous) = do
    (u, t1) ← map_err fail_transaction (remove_edit w t name.inner previous)
    ok (inr u, t1)

  -- `Transaction::remove`
  unfoldable pub remove_update : Trace → Qualified → Remove → Result (Fault E) (Outcome Updated)
  unfolding find resolve_found remove_given
  remove_update t name previous = do
    prev ← find name.inner
    given ← resolve_found prev
    elim (remove_guard previous given) [
      | err _ ↦ ok (inl (Update.remove name previous), t)
      | ok _ ↦ remove_given t name given
    ]

  -- The body of the loop of `update`.
  unfoldable pub apply : Trace → Applied → Update → Result (Fault E) (Applied × Trace)
  unfolding direct_update symbolic_update remove_update
  apply t a (direct name target no_ff previous reflog) = do
    (o, t1) ← direct_update t name target no_ff previous reflog
    ok (record_one a o, t1)
  apply t a (symbolic name target change previous reflog) = do
    (o, t1) ← symbolic_update t name target change previous reflog
    ok (record_many a o, t1)
  apply t a (remove name previous) = do
    (o, t1) ← remove_update t name previous
    ok (record_one a o, t1)

  unfoldable pub apply_all : Trace → Applied → List Update → Result (Fault E) (Applied × Trace)
  unfolding apply
  apply_all t a [] = ok (a, t)
  apply_all t a (u ∷ us) = do (a1, t1) ← apply t a u; apply_all t1 a1 us

  -- `Transaction::new`
  unfoldable pub begin : Result (Fault E) Trace
  begin = elim w.raw.begin_transaction [ none ↦ ok start | some e ↦ err (failed (git e)) ]

  -- `Write::update`
  unfoldable pub update : List Update → Result (Fault E) (Applied × Trace)
  unfolding begin apply_all perform
  update us = do
    t ← begin
    (a, t1) ← apply_all t (record { rejected = []; updated = [] }) us
    t2 ← map_err fail_transaction (perform w t1 commit_all commit)
    ok (a, t2)
