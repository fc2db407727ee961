-- ===== src/Storage/Tests.antt =====
-- Runs of the modelled functions of git-storage, and its theorems at concrete inputs.
use radicle_git.Base.{
  ◌≡◌, refl, ◌≢◌, inr, true, false, if◌then◌else◌, List, [], ◌∷◌, map, Option, none, some, ok, err,
  codes, str_eq, split, ends_with,
}
use radicle_git.RefFormat.Check.{ref_format, judge}
use radicle_git.RefFormat.Name.{try_from}
use radicle_git.RefFormat.Deriv.{Qualified}
use radicle_git.Storage.Previous.{Oid, any, must_not_exist, edit_guard, must_exist}
use radicle_git.Storage.Refdb.{
  reject, SymrefTarget, Update, Updated, direct, symbolic, Applied, set_target, lock_ref,
  set_symbolic_target, commit_all, Trace, start, after, Git, Storage, find_reference, resolve,
}
use radicle_git.Storage.Edits.{direct_edit, symbolic_edit}
use radicle_git.Storage.Edits.Locked.{IsLocked, changes, reported}
use radicle_git.Storage.Transaction.{panicked, direct_update, symbolic_update, update}
use radicle_git.Storage.Transaction.Policies.{Reads, DirectOutcome, direct_update-DirectOutcome}
use radicle_git.Storage.Transaction.Symbolic.{symbolic_update-ignores_previous}
use radicle_git.Storage.Transaction.Panics.{update-no_panic}
use radicle_git.Storage.Transaction.Commit.{Settles, update-Settles}

abbrev main : Qualified
main = record { inner = codes "refs/heads/main" }

abbrev head : Qualified
head = record { inner = codes "refs/heads/head" }

abbrev old : Oid
old = 1 ∷ []

abbrev new : Oid
new = 2 ∷ []

-- A repository that holds refs/heads/main at the commit `old`, whose child is `new`.
abbrev repository : Git (Unit {0})
repository = record {
  find_raw = λ r.
      if str_eq r main.inner
      then ok (record { name = some main.inner; target = some old; symbolic_target = none })
      else err tt;
  is_not_found_err = λ _. true;
  refname_to_id = λ r. if str_eq r main.inner then ok old else err tt;
  graph_descendant_of = λ a b. if str_eq a new then ok (str_eq b old) else ok false;
  signature_now = λ _ _. none;
  begin_transaction = none;
  answer = λ _ _. none;
}

abbrev storage : Storage (Unit {0})
storage = record { raw = repository; info = record { name = codes "a"; email = codes "a@b" } }

abbrev forward : Update
forward = direct main new reject any (codes "push")

abbrev link : SymrefTarget
link = record { name = main; target = new }

abbrev updates : List Update
updates = forward ∷ direct main old reject must_not_exist [] ∷ symbolic head link reject any [] ∷ []

abbrev reports : List Updated
reports =
    direct main.inner new (some old)
    ∷ direct main.inner new none
    ∷ symbolic head.inner main.inner none
    ∷ []

update-updates :
    (t : Trace) × (update storage updates
      ≡ ok (
        record { rejected = direct main old reject must_not_exist [] ∷ []; updated = reports },
        t,
      ))
unfolding update str_eq split judge ends_with find_reference try_from ref_format resolve edit_guard
    direct_edit symbolic_edit
update-updates = (_, refl)

abbrev applied : Applied
applied = record { rejected = direct main old reject must_not_exist [] ∷ []; updated = reports }

update-Settles_example :
    (t1 : Trace) × (update-updates.0 ≡ after t1 commit_all)
    × IsLocked t1
    × (changes t1 ≡ map reported applied.updated)
    × Settles updates applied.rejected applied.updated
update-Settles_example = update-Settles storage updates applied update-updates.0 update-updates.1

update-no_panic_example : update storage updates ≢ err panicked
update-no_panic_example = update-no_panic storage updates

direct_update-forward :
    direct_update storage start main new reject any (codes "push")
    ≡ ok (
      inr (direct main.inner new (some old)),
      after (after start (lock_ref main.inner)) (set_target main.inner new (codes "push")),
    )
unfolding direct_update str_eq split judge ends_with find_reference try_from ref_format resolve
    edit_guard direct_edit
direct_update-forward = refl

direct_update-DirectOutcome_example :
    (given : Option Oid) × Reads storage main.inner given
    × DirectOutcome storage main new reject any
        (codes "push")
        given
        (inr (direct main.inner new (some old)))
direct_update-DirectOutcome_example =
    direct_update-DirectOutcome storage start main new reject any (codes "push")
      (inr (direct main.inner new (some old)))
      (after (after start (lock_ref main.inner)) (set_target main.inner new (codes "push")))
      direct_update-forward

abbrev head_reports : List Updated
head_reports = direct main.inner new none ∷ symbolic head.inner main.inner none ∷ []

abbrev head_trace : Trace
head_trace =
    after
      (after
        (after (after (after start (lock_ref head.inner)) (lock_ref main.inner))
          (lock_ref main.inner))
        (set_target main.inner new []))
      (set_symbolic_target head.inner main.inner [])

symbolic_update-head :
    symbolic_update storage start head link reject must_not_exist []
    ≡ ok (inr head_reports, head_trace)
unfolding symbolic_update str_eq split judge ends_with find_reference try_from ref_format resolve
    direct_edit symbolic_edit
symbolic_update-head = refl

-- The reference is to match a value, and is missing or not: the update does not ask.
symbolic_update-ignores_previous_example :
    symbolic_update storage start head link reject must_exist [] ≡ ok (inr head_reports, head_trace)
symbolic_update-ignores_previous_example =
    symbolic_update-ignores_previous storage start head link reject must_not_exist must_exist []
      head_reports head_trace symbolic_update-head
