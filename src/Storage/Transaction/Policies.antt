-- ===== src/Storage/Transaction/Policies.antt =====
-- The policies of git-storage/src/backend/write.rs: which updates are made, and which are handed
-- back.
use radicle_git.Base.{
  map_err, map_err-ok, ◌≡◌, refl, sym, ap, ◌∙◌, ◌⊎◌, inl, inr, true, false, Bool-cases, Option,
  none, some, ok, Result-cases, ◌>>=◌, bind-eq-ok, ok-injective, Str, arith,
}
use radicle_git.RefFormat.Name.{RefString}
use radicle_git.RefFormat.Deriv.{Qualified}
use radicle_git.Storage.Previous.{Oid, Edit, edit_guard, EditAllows, edit_guard_iff}
use radicle_git.Storage.Refdb.{
  Reference, Target, find_reference, resolve, Policy, abort, reject, allow, Update, Updated, direct,
  Trace, Storage,
}
use radicle_git.Storage.Edits.{direct_edit, is_ff}
use radicle_git.Storage.Edits.Locked.{direct_edit-eq}
use radicle_git.Storage.Transaction.{
  find, resolve_found, find_not_ff, direct_edited, direct_checked, direct_update,
}

module _ {E : Type 0} (w : Storage E) where
  -- The value of a reference: that of a direct one is its target, and that of a symbolic one the
  -- identifier that the name in it resolves to.
  abbrev pub Value : Target → Oid → Type 0
  Value (Target.direct o) oid = oid ≡ o
  Value (Target.symbolic name) oid = w.raw.refname_to_id name ≡ ok oid

  -- The value of the reference before the transaction, if there is one of the name.
  abbrev pub Reads : RefString → Option Oid → Type 0
  Reads name none = find_reference w name ≡ ok none
  Reads name (some oid) =
      (r : Reference) × (find_reference w name ≡ ok (some r)) × Value r.target oid

  resolve-Value : (r : Reference) {oid : Oid} → resolve w r ≡ ok oid → Value r.target oid
  unfolding resolve
  resolve-Value r {oid} h = resolved r.target h
    where
      resolved :
          (t : Target)
          → (elim t [ Target.direct o ↦ ok o | Target.symbolic name ↦ w.raw.refname_to_id name ])
            ≡ ok oid
          → Value t oid
      resolved (Target.direct o) h = sym (ok-injective h)
      resolved (Target.symbolic name) h = h

  resolve_found-Reads :
      (name : RefString) (prev : Option Reference) (given : Option Oid)
      → find_reference w name ≡ ok prev
      → resolve_found w prev ≡ ok given
      → Reads name given
  unfolding resolve_found
  resolve_found-Reads name none none e h = e
  resolve_found-Reads name none (some oid) e h = absurd (let bad = ok-injective h in cc)
  resolve_found-Reads name (some r) none e h =
      let run = map_err-ok _ (resolve w r >>= λ o. ok (some o)) h in
      let (o, value, same) = bind-eq-ok (resolve w r) (λ o. ok (some o)) run in
      absurd (let bad = ok-injective same in cc)
  resolve_found-Reads name (some r) (some oid) e h =
      let run = map_err-ok _ (resolve w r >>= λ o. ok (some o)) h in
      let (o, value, same) = bind-eq-ok (resolve w r) (λ o. ok (some o)) run in
      let eq : o ≡ oid = let inner = ok-injective same in cc in
      (r, e, resolve-Value r (value ∙ ap ok eq))

  -- The update is a fast-forward of the value.
  abbrev pub IsFf : Oid → Option Oid → Type 0
  IsFf target given =
      (cur : Oid) → given ≡ some cur → w.raw.graph_descendant_of target cur ≡ ok true

  -- It is none.
  abbrev pub NotFf : Oid → Option Oid → Type 0
  NotFf target given =
      (cur : Oid) × (given ≡ some cur) × (w.raw.graph_descendant_of target cur ≡ ok false)

  find_not_ff-none :
      (name : RefString) (target : Oid) (given : Option Oid)
      → find_not_ff w name target given ≡ ok none
      → IsFf target given
  unfolding find_not_ff is_ff
  find_not_ff-none name target none h cur e = absurd (cc)
  find_not_ff-none name target (some prev) h cur e =
      let (ff, run, h1) = bind-eq-ok (map_err _ (is_ff w name target prev)) _ h in
      let descends =
        map_err-ok _ (w.raw.graph_descendant_of target prev)
          (map_err-ok _ (is_ff w name target prev) run) in
      let same : prev ≡ cur = ground arith in
      elim (Bool-cases ff) [
        | inl ahead ↦ rw (← same) (descends ∙ ap ok ahead)
        | inr behind ↦ let h2 = rw behind at h1 in absurd (ground arith)
      ]

  find_not_ff-some :
      (name : RefString) (target : Oid) (given : Option Oid) {cur : Oid}
      → find_not_ff w name target given ≡ ok (some cur)
      → NotFf target given
  unfolding find_not_ff is_ff
  find_not_ff-some name target none h = absurd (ground arith)
  find_not_ff-some name target (some prev) h =
      let (ff, run, h1) = bind-eq-ok (map_err _ (is_ff w name target prev)) _ h in
      let descends =
        map_err-ok _ (w.raw.graph_descendant_of target prev)
          (map_err-ok _ (is_ff w name target prev) run) in
      elim (Bool-cases ff) [
        | inl ahead ↦ let h2 = rw ahead at h1 in absurd (ground arith)
        | inr behind ↦ (prev, refl, descends ∙ ap ok behind)
      ]

  -- What the policies say of an outcome. An update that is made sets the reference from its value;
  -- the expectation holds, and the update is a fast-forward or need not be. An update that is handed
  -- back is the one that was asked for; the expectation fails, or the update is no fast-forward and
  -- such are to be rejected.
  abbrev pub DirectOutcome :
      Qualified → Oid → Policy → Edit → Str → Option Oid → Update ⊎ Updated → Type 0
  DirectOutcome name target no_ff previous reflog given (inr u) =
      EditAllows previous given
      × ((no_ff ≡ allow) ⊎ IsFf target given)
      × (u ≡ direct name.inner target given)
  DirectOutcome name target no_ff previous reflog given (inl u) =
      (u ≡ Update.direct name target no_ff previous reflog)
      × ((¬ EditAllows previous given)
          ⊎ (EditAllows previous given × (no_ff ≡ reject) × NotFf target given))

  direct_edited-DirectOutcome :
      (t : Trace) (name : Qualified) (target : Oid) (no_ff : Policy) (previous : Edit)
      (reflog : Str) (given : Option Oid) {o : Update ⊎ Updated} {t' : Trace}
      → EditAllows previous given
      → (no_ff ≡ allow) ⊎ IsFf target given
      → direct_edited w t name.inner target given reflog ≡ ok (o, t')
      → DirectOutcome name target no_ff previous reflog given o
  unfolding direct_edited
  direct_edited-DirectOutcome t name target no_ff previous reflog given {o} allowed forward h =
      let ((u, t1), edit, h1) =
        bind-eq-ok (map_err _ (direct_edit w t name.inner target given reflog)) _ h in
      let made : inr u ≡ o = ap (λ p. p.0) (ok-injective h1) in
      let run = map_err-ok _ (direct_edit w t name.inner target given reflog) edit in
      rw (← made) (allowed, forward, (direct_edit-eq w t name.inner target given reflog run).0)

  direct_checked-DirectOutcome :
      (t : Trace) (name : Qualified) (target : Oid) (no_ff : Policy) (previous : Edit)
      (reflog : Str) (given not_ff : Option Oid) {o : Update ⊎ Updated} {t' : Trace}
      → EditAllows previous given
      → find_not_ff w name.inner target given ≡ ok not_ff
      → direct_checked w t name target no_ff previous reflog given not_ff ≡ ok (o, t')
      → DirectOutcome name target no_ff previous reflog given o
  unfolding direct_checked
  direct_checked-DirectOutcome t name target no_ff previous reflog given none allowed ff h =
      direct_edited-DirectOutcome t name target no_ff previous reflog given allowed
        (inr (find_not_ff-none name.inner target given ff)) h
  direct_checked-DirectOutcome t name target abort previous reflog given (some cur) allowed ff h =
      absurd (ground arith)
  direct_checked-DirectOutcome t name target reject previous reflog given (some cur) {o} allowed ff
        h =
      let made : inl (direct name target reject previous reflog) ≡ o =
        ap (λ p. p.0) (ok-injective h) in
      rw (← made) (refl, inr (allowed, refl, find_not_ff-some name.inner target given ff))
  direct_checked-DirectOutcome t name target allow previous reflog given (some cur) allowed ff h =
      direct_edited-DirectOutcome t name target allow previous reflog given allowed (inl refl) h

  -- Where `Transaction::direct` returns, the value of the reference was read, which for a symbolic
  -- reference is what it resolves to, and the outcome is the one that the policies tell. The update
  -- is made only if that value is as expected and the update is a fast-forward of it or need not be
  -- one; there it counts as a fast-forward if there is no value, or if the target descends from it.
  -- It is handed back as it was asked for only if the value is not as expected, or if the update is
  -- no fast-forward and such are to be rejected.
  pub direct_update-DirectOutcome :
      (t : Trace) (name : Qualified) (target : Oid) (no_ff : Policy) (previous : Edit)
      (reflog : Str) (o : Update ⊎ Updated) (t' : Trace)
      → direct_update w t name target no_ff previous reflog ≡ ok (o, t')
      → (given : Option Oid) × Reads name.inner given
        × DirectOutcome name target no_ff previous reflog given o
  unfolding direct_update
  direct_update-DirectOutcome t name target no_ff previous reflog o t' h =
      let (prev, found, h1) = bind-eq-ok (find w name.inner) _ h in
      let (given, resolved, h2) = bind-eq-ok (resolve_found w prev) _ h1 in
      let read =
        resolve_found-Reads name.inner prev given (map_err-ok _ (find_reference w name.inner) found)
          resolved in
      (
        given,
        read,
        elim (Result-cases (edit_guard previous given)) [
          | inr (e, guarded) ↦
              let made : inl (direct name target no_ff previous reflog) ≡ o =
                ap (λ p. p.0) (ok-injective (rw guarded at h2)) in
              rw (← made) (
                refl,
                inl (λ allowed.
                    let passed = (edit_guard_iff previous given).1 allowed in
                    absurd (ground arith)),
              )
          | inl (_, guarded) ↦
              let (not_ff, ff, h3) =
                bind-eq-ok (find_not_ff w name.inner target given) _ (rw guarded at h2) in
              direct_checked-DirectOutcome t name target no_ff previous reflog given not_ff
                ((edit_guard_iff previous given).0 guarded) ff h3
        ],
      )
