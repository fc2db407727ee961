-- ===== src/Storage/Transaction/Symbolic.antt =====
-- The symbolic updates of git-storage/src/backend/write.rs: each is reported or handed back.
use radicle_git.Base.{
  map_err, map_err-ok, ◌≡◌, refl, sym, ap, ◌⊎◌, inl, inr, Bool, true, List, Option, none, some,
  Result, ok, bind-eq-ok, ok-injective, Str, arith,
}
use radicle_git.RefFormat.Name.{RefString}
use radicle_git.RefFormat.Deriv.{Qualified}
use radicle_git.Storage.Previous.{Oid, Edit}
use radicle_git.Storage.Refdb.{
  Reference, Target, Policy, abort, reject, allow, SymrefTarget, Update, Updated, direct, symbolic,
  Trace, Storage,
}
use radicle_git.Storage.Edits.{symbolic_edit}
use radicle_git.Storage.Edits.Locked.{symbolic_edit-Extends, symbolic_edit-Edits}
use radicle_git.Storage.Transaction.{
  Fault, Outcome, find, resolve_found, symbolic_edited, moves_forward, symbolic_onto,
  symbolic_retarget, symbolic_from, symbolic_update,
}
use radicle_git.Storage.Transaction.Outcomes.{Accounts}
use radicle_git.Storage.Transaction.{direct_source}

many_handed_back :
    {E : Type 0} (up : Update) (t : Trace) {o : Update ⊎ List Updated} {t' : Trace}
    → ◌≡◌ {A = Result (Fault E) (Outcome (List Updated))} (ok (inl up, t)) (ok (o, t'))
    → Accounts up t o t'
many_handed_back up t {o} h =
    let found = ok-injective h in
    let made : inl up ≡ o = ap (λ p. p.0) found in rw (← made) (refl, sym (ap (λ p. p.1) found))

pub Target-cases :
    (x : Target) → ((oid : Oid) × (x ≡ direct oid)) ⊎ ((s : RefString) × (x ≡ symbolic s))
Target-cases (direct oid) = inl (oid, refl)
Target-cases (symbolic s) = inr (s, refl)

module _ {E : Type 0} (w : Storage E) where
  symbolic_edited-Accounts :
      (t : Trace) (name : Qualified) (target : SymrefTarget) (change : Policy) (previous : Edit)
      (reflog : Str) (prev : Option Oid) (ff : Bool) {o : Update ⊎ List Updated} {t' : Trace}
      → symbolic_edited w t name.inner target prev reflog ff ≡ ok (o, t')
      → Accounts (symbolic name target change previous reflog) t o t'
  unfolding symbolic_edited
  symbolic_edited-Accounts t name target change previous reflog prev ff {o} {t'} h =
      let ((us, t1), edit, h1) =
        bind-eq-ok (map_err _ (symbolic_edit w t name.inner target prev reflog ff)) _ h in
      let found = ok-injective h1 in
      let made : inr us ≡ o = ap (λ p. p.0) found in
      let kept : t1 ≡ t' = ap (λ p. p.1) found in
      let run = map_err-ok _ (symbolic_edit w t name.inner target prev reflog ff) edit in
      rw (← made, ← kept)
        (
          (prev, symbolic_edit-Edits w t name.inner target prev reflog ff run),
          symbolic_edit-Extends w t name.inner target prev reflog ff run,
        )

  symbolic_onto-Accounts :
      (t : Trace) (name : Qualified) (target : SymrefTarget) (change : Policy) (previous : Edit)
      (reflog : Str) (prev : Option Oid) (dst : Option Reference) {o : Update ⊎ List Updated}
      {t' : Trace}
      → symbolic_onto w t name target prev reflog dst ≡ ok (o, t')
      → Accounts (symbolic name target change previous reflog) t o t'
  unfolding symbolic_onto
  symbolic_onto-Accounts t name target change previous reflog prev none h =
      symbolic_edited-Accounts t name target change previous reflog prev true h
  symbolic_onto-Accounts t name target change previous reflog prev (some dst) h =
      elim (Target-cases dst.target) [
        | inl (oid, e) ↦
            let (ff, _, h1) = bind-eq-ok (moves_forward w target oid) _ (rw e at h) in
            symbolic_edited-Accounts t name target change previous reflog prev ff h1
        | inr (s, e) ↦ let h1 = rw e at h in absurd (ground arith)
      ]

  symbolic_retarget-Accounts :
      (t : Trace) (name : Qualified) (target : SymrefTarget) (change : Policy) (previous : Edit)
      (reflog : Str) (prev : Option Oid) {o : Update ⊎ List Updated} {t' : Trace}
      → symbolic_retarget w t name target prev reflog ≡ ok (o, t')
      → Accounts (symbolic name target change previous reflog) t o t'
  unfolding symbolic_retarget
  symbolic_retarget-Accounts t name target change previous reflog prev h =
      let (dst, _, h1) = bind-eq-ok (find w target.name.inner) _ h in
      symbolic_onto-Accounts t name target change previous reflog prev dst h1

  direct_source-Accounts :
      (t : Trace) (name : Qualified) (target : SymrefTarget) (change : Policy) (previous : Edit)
      (reflog : Str) (prev : Option Oid) {o : Update ⊎ List Updated} {t' : Trace}
      → direct_source w t name target change previous reflog prev ≡ ok (o, t')
      → Accounts (symbolic name target change previous reflog) t o t'
  unfolding direct_source
  direct_source-Accounts t name target abort previous reflog prev h = absurd (ground arith)
  direct_source-Accounts t name target reject previous reflog prev h =
      many_handed_back (symbolic name target reject previous reflog) t h
  direct_source-Accounts t name target allow previous reflog prev h =
      symbolic_retarget-Accounts t name target allow previous reflog prev h

  symbolic_from-Accounts :
      (t : Trace) (name : Qualified) (target : SymrefTarget) (change : Policy) (previous : Edit)
      (reflog : Str) (prev : Option Oid) (src : Option Reference) {o : Update ⊎ List Updated}
      {t' : Trace}
      → symbolic_from w t name target change previous reflog prev src ≡ ok (o, t')
      → Accounts (symbolic name target change previous reflog) t o t'
  unfolding symbolic_from
  symbolic_from-Accounts t name target change previous reflog prev none h =
      symbolic_edited-Accounts t name target change previous reflog prev true h
  symbolic_from-Accounts t name target change previous reflog prev (some src) h =
      elim (Target-cases src.target) [
        | inl (oid, e) ↦
            direct_source-Accounts t name target change previous reflog prev (rw e at h)
        | inr (s, e) ↦
            symbolic_retarget-Accounts t name target change previous reflog prev (rw e at h)
      ]

  pub symbolic_update-Accounts :
      (t : Trace) (name : Qualified) (target : SymrefTarget) (change : Policy) (previous : Edit)
      (reflog : Str) {o : Update ⊎ List Updated} {t' : Trace}
      → symbolic_update w t name target change previous reflog ≡ ok (o, t')
      → Accounts (symbolic name target change previous reflog) t o t'
  unfolding symbolic_update
  symbolic_update-Accounts t name target change previous reflog h =
      let (src, _, h1) = bind-eq-ok (find w name.inner) _ h in
      let (prev, _, h2) = bind-eq-ok (resolve_found w src) _ h1 in
      symbolic_from-Accounts t name target change previous reflog prev src h2

  direct_source-ignores_previous :
      (t : Trace) (name : Qualified) (target : SymrefTarget) (change : Policy)
      (previous other : Edit) (reflog : Str) (prev : Option Oid) {us : List Updated} {t' : Trace}
      → direct_source w t name target change previous reflog prev ≡ ok (inr us, t')
      → direct_source w t name target change other reflog prev ≡ ok (inr us, t')
  unfolding direct_source
  direct_source-ignores_previous t name target abort previous other reflog prev h =
      absurd (ground arith)
  direct_source-ignores_previous t name target reject previous other reflog prev h =
      absurd (ground arith)
  direct_source-ignores_previous t name target allow previous other reflog prev h = h

  symbolic_from-ignores_previous :
      (t : Trace) (name : Qualified) (target : SymrefTarget) (change : Policy)
      (previous other : Edit) (reflog : Str) (prev : Option Oid) (src : Option Reference)
      {us : List Updated} {t' : Trace}
      → symbolic_from w t name target change previous reflog prev src ≡ ok (inr us, t')
      → symbolic_from w t name target change other reflog prev src ≡ ok (inr us, t')
  unfolding symbolic_from
  symbolic_from-ignores_previous t name target change previous other reflog prev none h = h
  symbolic_from-ignores_previous t name target change previous other reflog prev (some src) h =
      elim (Target-cases src.target) [
        | inl (oid, e) ↦ rw e (
            direct_source-ignores_previous t name target change previous other reflog prev
              (rw e at h))
        | inr (s, e) ↦ rw e (rw e at h)
      ]

  -- The expectation that a symbolic update carries has no part in what is done: where the update
  -- is made with one expectation, it is made in the same way with any other.
  pub symbolic_update-ignores_previous :
      (t : Trace) (name : Qualified) (target : SymrefTarget) (change : Policy)
      (previous other : Edit) (reflog : Str) (us : List Updated) (t' : Trace)
      → symbolic_update w t name target change previous reflog ≡ ok (inr us, t')
      → symbolic_update w t name target change other reflog ≡ ok (inr us, t')
  unfolding symbolic_update
  symbolic_update-ignores_previous t name target change previous other reflog us t' h =
      let (src, found, h1) = bind-eq-ok (find w name.inner) _ h in
      let (prev, resolved, h2) = bind-eq-ok (resolve_found w src) _ h1 in
      rw (found, resolved)
        (symbolic_from-ignores_previous t name target change previous other reflog prev src h2)
