-- ===== src/Storage/Transaction/Outcomes.antt =====
-- The outcome of a transaction of git-storage/src/backend/write.rs: what is reported is what
-- changes, and each update is reported or handed back.
use radicle_git.Base.{
  map_err-ok, map_err, ◌≡◌, refl, sym, ap, ◌⊎◌, inl, inr, List, [], ◌∷◌, Option, none, some, Result,
  ok, Result-cases, bind-eq-ok, ok-injective, Str, arith,
}
use radicle_git.RefFormat.Deriv.{Qualified}
use radicle_git.Storage.Previous.{Oid, Edit, edit_guard, Remove, remove_guard}
use radicle_git.Storage.Refdb.{
  Policy, abort, reject, allow, Update, Updated, direct, symbolic, remove, removed, Trace, Storage,
}
use radicle_git.Storage.Edits.{direct_edit, remove_edit}
use radicle_git.Storage.Edits.Locked.{
  Extends, direct_edit-eq, direct_edit-Extends, remove_edit-eq, remove_edit-Extends,
}
use radicle_git.Storage.Transaction.{
  Fault, Outcome, find, resolve_found, find_not_ff, direct_edited, direct_checked, direct_update,
  remove_given, remove_update,
}

-- The reports that an update may have.
abbrev pub Answers : Update → List Updated → Type 0
Answers (direct name target no_ff previous reflog) us =
    (prev : Option Oid) × (us ≡ direct name.inner target prev ∷ [])
Answers (symbolic name target type_change previous reflog) us =
    (prev : Option Oid) × ((us ≡ symbolic name.inner target.name.inner prev ∷ [])
      ⊎ (us
          ≡ direct target.name.inner target.target prev
            ∷ symbolic name.inner target.name.inner prev
            ∷ []))
Answers (remove name previous) us = (prev : Oid) × (us ≡ removed name.inner prev ∷ [])

-- The update was handed back and nothing was done, or it was done and reported.
abbrev pub Accounts : Update → Trace → Update ⊎ List Updated → Trace → Type 0
Accounts up t (inl u) t' = (u ≡ up) × (t' ≡ t)
Accounts up t (inr us) t' = Answers up us × Extends t t' us

abbrev pub as_list : Update ⊎ Updated → Update ⊎ List Updated
as_list (inl u) = inl u
as_list (inr u) = inr (u ∷ [])

handed_back :
    {E : Type 0} (up : Update) (t : Trace) {o : Update ⊎ Updated} {t' : Trace}
    → ◌≡◌ {A = Result (Fault E) (Outcome Updated)} (ok (inl up, t)) (ok (o, t'))
    → Accounts up t (as_list o) t'
handed_back up t {o} h =
    let found = ok-injective h in
    let made : inl up ≡ o = ap (λ p. p.0) found in rw (← made) (refl, sym (ap (λ p. p.1) found))

module _ {E : Type 0} (w : Storage E) where
  direct_edited-Accounts :
      (t : Trace) (name : Qualified) (target : Oid) (no_ff : Policy) (previous : Edit)
      (reflog : Str) (given : Option Oid) {o : Update ⊎ Updated} {t' : Trace}
      → direct_edited w t name.inner target given reflog ≡ ok (o, t')
      → Accounts (direct name target no_ff previous reflog) t (as_list o) t'
  unfolding direct_edited
  direct_edited-Accounts t name target no_ff previous reflog given {o} {t'} h =
      let ((u, t1), edit, h1) =
        bind-eq-ok (map_err _ (direct_edit w t name.inner target given reflog)) _ h in
      let found = ok-injective h1 in
      let made : inr u ≡ o = ap (λ p. p.0) found in
      let kept : t1 ≡ t' = ap (λ p. p.1) found in
      let run = map_err-ok _ (direct_edit w t name.inner target given reflog) edit in
      rw (← made, ← kept)
        (
          (given, ap (λ x. x ∷ []) (direct_edit-eq w t name.inner target given reflog run).0),
          direct_edit-Extends w t name.inner target given reflog run,
        )

  direct_checked-Accounts :
      (t : Trace) (name : Qualified) (target : Oid) (no_ff : Policy) (previous : Edit)
      (reflog : Str) (given not_ff : Option Oid) {o : Update ⊎ Updated} {t' : Trace}
      → direct_checked w t name target no_ff previous reflog given not_ff ≡ ok (o, t')
      → Accounts (direct name target no_ff previous reflog) t (as_list o) t'
  unfolding direct_checked
  direct_checked-Accounts t name target no_ff previous reflog given none h =
      direct_edited-Accounts t name target no_ff previous reflog given h
  direct_checked-Accounts t name target abort previous reflog given (some cur) h =
      absurd (ground arith)
  direct_checked-Accounts t name target reject previous reflog given (some cur) {o} {t'} h =
      handed_back (direct name target reject previous reflog) t h
  direct_checked-Accounts t name target allow previous reflog given (some cur) h =
      direct_edited-Accounts t name target allow previous reflog given h

  pub direct_update-Accounts :
      (t : Trace) (name : Qualified) (target : Oid) (no_ff : Policy) (previous : Edit)
      (reflog : Str) {o : Update ⊎ Updated} {t' : Trace}
      → direct_update w t name target no_ff previous reflog ≡ ok (o, t')
      → Accounts (direct name target no_ff previous reflog) t (as_list o) t'
  unfolding direct_update
  direct_update-Accounts t name target no_ff previous reflog {o} {t'} h =
      let (prev, _, h1) = bind-eq-ok (find w name.inner) _ h in
      let (given, _, h2) = bind-eq-ok (resolve_found w prev) _ h1 in
      elim (Result-cases (edit_guard previous given)) [
        | inr (e, guarded) ↦
            handed_back (direct name target no_ff previous reflog) t (rw guarded at h2)
        | inl (_, guarded) ↦
            let (not_ff, _, h3) =
              bind-eq-ok (find_not_ff w name.inner target given) _ (rw guarded at h2) in
            direct_checked-Accounts t name target no_ff previous reflog given not_ff h3
      ]

  remove_given-Accounts :
      (t : Trace) (name : Qualified) (previous : Remove) (given : Option Oid) {o : Update ⊎ Updated}
      {t' : Trace}
      → remove_given w t name given ≡ ok (o, t')
      → Accounts (remove name previous) t (as_list o) t'
  unfolding remove_given
  remove_given-Accounts t name previous none h = absurd (ground arith)
  remove_given-Accounts t name previous (some x) {o} {t'} h =
      let ((u, t1), edit, h1) = bind-eq-ok (map_err _ (remove_edit w t name.inner x)) _ h in
      let found = ok-injective h1 in
      let made : inr u ≡ o = ap (λ p. p.0) found in
      let kept : t1 ≡ t' = ap (λ p. p.1) found in
      let run = map_err-ok _ (remove_edit w t name.inner x) edit in
      rw (← made, ← kept)
        (
          (x, ap (λ y. y ∷ []) (remove_edit-eq w t name.inner x run).0),
          remove_edit-Extends w t name.inner x run,
        )

  pub remove_update-Accounts :
      (t : Trace) (name : Qualified) (previous : Remove) {o : Update ⊎ Updated} {t' : Trace}
      → remove_update w t name previous ≡ ok (o, t')
      → Accounts (remove name previous) t (as_list o) t'
  unfolding remove_update
  remove_update-Accounts t name previous h =
      let (prev, _, h1) = bind-eq-ok (find w name.inner) _ h in
      let (given, _, h2) = bind-eq-ok (resolve_found w prev) _ h1 in
      elim (Result-cases (remove_guard previous given)) [
        | inr (e, guarded) ↦ handed_back (remove name previous) t (rw guarded at h2)
        | inl (_, guarded) ↦ remove_given-Accounts t name previous given (rw guarded at h2)
      ]
