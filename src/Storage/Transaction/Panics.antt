-- ===== src/Storage/Transaction/Panics.antt =====
-- git-storage/src/backend/write.rs: the panic of `remove` is never met.
use radicle_git.Base.{
  map_err, ◌≡◌, refl, ◌≢◌, inl, inr, Bool, true, Bool-cases, List, [], ◌∷◌, Option, none, some,
  Option-cases, Result, ok, err, Result-cases, ◌>>=◌, Str, str_eq,
}
use radicle_git.RefFormat.Name.{RefString}
use radicle_git.RefFormat.Deriv.{Qualified}
use radicle_git.Storage.Previous.{Oid, Edit, edit_guard, Remove, remove_guard, remove_guard_iff}
use radicle_git.Storage.Refdb.{
  Reference, Policy, abort, reject, allow, SymrefTarget, Update, direct, symbolic, remove, Applied,
  Trace, Storage, commit_all, commit, UpdateError, find_ref, git, transaction, find_reference,
  resolve,
}
use radicle_git.Storage.Edits.{perform, direct_edit, symbolic_edit, remove_edit, is_ff}
use radicle_git.Storage.Transaction.Symbolic.{Target-cases}
use radicle_git.Storage.Transaction.{
  Fault, failed, panicked, find, resolve_found, find_not_ff, direct_edited, direct_checked,
  direct_update, symbolic_edited, moves_forward, symbolic_onto, symbolic_retarget, direct_source,
  symbolic_from, symbolic_update, remove_given, remove_update, apply, apply_all, begin, update,
}

abbrev NoPanic {ℓ} : {E : Type 0} {A : Type ℓ} → Result (Fault E) A → Type 0
NoPanic (ok a) = Unit
NoPanic (err (failed e)) = Unit
NoPanic (err panicked) = ⊥

NoPanic-ok {ℓ} : {E : Type 0} {A : Type ℓ} (r : Result (Fault E) A) {a : A} → r ≡ ok a → NoPanic r
NoPanic-ok r h = rw h tt

NoPanic-lem {ℓ} : {E : Type 0} {A : Type ℓ} (r : Result (Fault E) A) → NoPanic r → r ≢ err panicked
NoPanic-lem r h k = rw k at h

NoPanic-bind {ℓ κ} :
    {E : Type 0} {A : Type ℓ} {B : Type κ} (m : Result (Fault E) A) (f : A → Result (Fault E) B)
    → NoPanic m
    → ((a : A) → m ≡ ok a → NoPanic (f a))
    → NoPanic (m >>= f)
NoPanic-bind (ok a) f hm hf = hf a refl
NoPanic-bind (err (failed e)) f hm hf = tt
NoPanic-bind (err panicked) f hm hf = hm

NoPanic-map_err {ℓ} :
    {E F : Type 0} {A : Type ℓ} (wrap : F → UpdateError E) (r : Result F A)
    → NoPanic (map_err (λ x. failed (wrap x)) r)
NoPanic-map_err wrap (ok a) = tt
NoPanic-map_err wrap (err e) = tt

module _ {E : Type 0} (w : Storage E) where
  find-NoPanic : (name : RefString) → NoPanic (find w name)
  unfolding find
  find-NoPanic name = NoPanic-map_err find_ref (find_reference w name)

  resolve_found-NoPanic : (r : Option Reference) → NoPanic (resolve_found w r)
  unfolding resolve_found
  resolve_found-NoPanic none = tt
  resolve_found-NoPanic (some r) = NoPanic-map_err git (resolve w r >>= λ o. ok (some o))

  find_not_ff-NoPanic :
      (name : RefString) (target : Oid) (given : Option Oid)
      → NoPanic (find_not_ff w name target given)
  unfolding find_not_ff
  find_not_ff-NoPanic name target none = tt
  find_not_ff-NoPanic name target (some prev) =
      NoPanic-bind _ _ (NoPanic-map_err transaction (is_ff w name target prev)) (λ ff _. tt)

  direct_edited-NoPanic :
      (t : Trace) (name : RefString) (target : Oid) (given : Option Oid) (reflog : Str)
      → NoPanic (direct_edited w t name target given reflog)
  unfolding direct_edited
  direct_edited-NoPanic t name target given reflog =
      NoPanic-bind _ _ (NoPanic-map_err transaction (direct_edit w t name target given reflog))
        (λ a _. tt)

  direct_checked-NoPanic :
      (t : Trace) (name : Qualified) (target : Oid) (no_ff : Policy) (previous : Edit)
      (reflog : Str) (given not_ff : Option Oid)
      → NoPanic (direct_checked w t name target no_ff previous reflog given not_ff)
  unfolding direct_checked
  direct_checked-NoPanic t name target no_ff previous reflog given none =
      direct_edited-NoPanic t name.inner target given reflog
  direct_checked-NoPanic t name target abort previous reflog given (some cur) = tt
  direct_checked-NoPanic t name target reject previous reflog given (some cur) = tt
  direct_checked-NoPanic t name target allow previous reflog given (some cur) =
      direct_edited-NoPanic t name.inner target given reflog

  direct_update-NoPanic :
      (t : Trace) (name : Qualified) (target : Oid) (no_ff : Policy) (previous : Edit)
      (reflog : Str)
      → NoPanic (direct_update w t name target no_ff previous reflog)
  unfolding direct_update
  direct_update-NoPanic t name target no_ff previous reflog =
      NoPanic-bind _ _ (find-NoPanic name.inner) (λ prev _.
        NoPanic-bind _ _ (resolve_found-NoPanic prev) (λ given _.
          elim (Result-cases (edit_guard previous given)) [
            | inr (e, guarded) ↦ rw guarded tt
            | inl (_, guarded) ↦ rw guarded (
                NoPanic-bind _ _ (find_not_ff-NoPanic name.inner target given) (λ not_ff _.
                  direct_checked-NoPanic t name target no_ff previous reflog given not_ff))
          ]))

  -- The guard of a removal has seen that the reference exists.
  remove_update-NoPanic :
      (t : Trace) (name : Qualified) (previous : Remove) → NoPanic (remove_update w t name previous)
  unfolding remove_update remove_given
  remove_update-NoPanic t name previous = NoPanic-bind _ _ (find-NoPanic name.inner) (λ prev _.
      NoPanic-bind _ _ (resolve_found-NoPanic prev) (λ given _.
        elim (Result-cases (remove_guard previous given)) [
          | inr (e, guarded) ↦ rw guarded tt
          | inl (_, guarded) ↦ elim (Option-cases given) [
            | inl missing ↦
                let (guards, exists) = remove_guard_iff previous given in
                absurd (exists (guards.0 guarded) missing)
            | inr (x, found) ↦
                rw (guarded, found)
                  (NoPanic-bind _ _ (NoPanic-map_err transaction (remove_edit w t name.inner x))
                    (λ a _. tt))
          ]
        ]))

  symbolic_edited-NoPanic :
      (t : Trace) (name : RefString) (target : SymrefTarget) (prev : Option Oid) (reflog : Str)
      (ff : Bool)
      → NoPanic (symbolic_edited w t name target prev reflog ff)
  unfolding symbolic_edited
  symbolic_edited-NoPanic t name target prev reflog ff =
      NoPanic-bind _ _ (NoPanic-map_err transaction (symbolic_edit w t name target prev reflog ff))
        (λ a _. tt)

  moves_forward-NoPanic : (target : SymrefTarget) (dst : Oid) → NoPanic (moves_forward w target dst)
  unfolding moves_forward
  moves_forward-NoPanic target dst = elim (Bool-cases (str_eq target.target dst)) [
    | inl same ↦ rw same tt
    | inr other ↦
        rw other (NoPanic-map_err transaction (is_ff w target.name.inner target.target dst))
  ]

  symbolic_onto-NoPanic :
      (t : Trace) (name : Qualified) (target : SymrefTarget) (prev : Option Oid) (reflog : Str)
      (dst : Option Reference)
      → NoPanic (symbolic_onto w t name target prev reflog dst)
  unfolding symbolic_onto
  symbolic_onto-NoPanic t name target prev reflog none =
      symbolic_edited-NoPanic t name.inner target prev reflog true
  symbolic_onto-NoPanic t name target prev reflog (some dst) = elim (Target-cases dst.target) [
    | inl (oid, e) ↦ rw e (
        NoPanic-bind _ _ (moves_forward-NoPanic target oid)
          (λ ff _. symbolic_edited-NoPanic t name.inner target prev reflog ff))
    | inr (s, e) ↦ rw e tt
  ]

  symbolic_retarget-NoPanic :
      (t : Trace) (name : Qualified) (target : SymrefTarget) (prev : Option Oid) (reflog : Str)
      → NoPanic (symbolic_retarget w t name target prev reflog)
  unfolding symbolic_retarget
  symbolic_retarget-NoPanic t name target prev reflog =
      NoPanic-bind _ _ (find-NoPanic target.name.inner)
        (λ dst _. symbolic_onto-NoPanic t name target prev reflog dst)

  direct_source-NoPanic :
      (t : Trace) (name : Qualified) (target : SymrefTarget) (change : Policy) (previous : Edit)
      (reflog : Str) (prev : Option Oid)
      → NoPanic (direct_source w t name target change previous reflog prev)
  unfolding direct_source
  direct_source-NoPanic t name target abort previous reflog prev = tt
  direct_source-NoPanic t name target reject previous reflog prev = tt
  direct_source-NoPanic t name target allow previous reflog prev =
      symbolic_retarget-NoPanic t name target prev reflog

  symbolic_from-NoPanic :
      (t : Trace) (name : Qualified) (target : SymrefTarget) (change : Policy) (previous : Edit)
      (reflog : Str) (prev : Option Oid) (src : Option Reference)
      → NoPanic (symbolic_from w t name target change previous reflog prev src)
  unfolding symbolic_from
  symbolic_from-NoPanic t name target change previous reflog prev none =
      symbolic_edited-NoPanic t name.inner target prev reflog true
  symbolic_from-NoPanic t name target change previous reflog prev (some src) =
      elim (Target-cases src.target) [
        | inl (oid, e) ↦ rw e (direct_source-NoPanic t name target change previous reflog prev)
        | inr (s, e) ↦ rw e (symbolic_retarget-NoPanic t name target prev reflog)
      ]

  symbolic_update-NoPanic :
      (t : Trace) (name : Qualified) (target : SymrefTarget) (change : Policy) (previous : Edit)
      (reflog : Str)
      → NoPanic (symbolic_update w t name target change previous reflog)
  unfolding symbolic_update
  symbolic_update-NoPanic t name target change previous reflog =
      NoPanic-bind _ _ (find-NoPanic name.inner) (λ src _.
        NoPanic-bind _ _ (resolve_found-NoPanic src)
          (λ prev _. symbolic_from-NoPanic t name target change previous reflog prev src))

  apply-NoPanic : (t : Trace) (a : Applied) (u : Update) → NoPanic (apply w t a u)
  unfolding apply
  apply-NoPanic t a (direct name target no_ff previous reflog) =
      NoPanic-bind _ _ (direct_update-NoPanic t name target no_ff previous reflog) (λ x _. tt)
  apply-NoPanic t a (symbolic name target change previous reflog) =
      NoPanic-bind _ _ (symbolic_update-NoPanic t name target change previous reflog) (λ x _. tt)
  apply-NoPanic t a (remove name previous) =
      NoPanic-bind _ _ (remove_update-NoPanic t name previous) (λ x _. tt)

  apply_all-NoPanic : (t : Trace) (a : Applied) (us : List Update) → NoPanic (apply_all w t a us)
  unfolding apply_all
  apply_all-NoPanic t a [] = tt
  apply_all-NoPanic t a (u ∷ us) =
      NoPanic-bind _ _ (apply-NoPanic t a u) (λ x _. apply_all-NoPanic x.1 x.0 us)

  begin-NoPanic : NoPanic (begin w)
  unfolding begin
  begin-NoPanic = elim (Option-cases w.raw.begin_transaction) [
    | inl e ↦ rw e tt
    | inr (x, e) ↦ rw e tt
  ]

  -- `update` does not panic, whatever the updates are and whatever libgit2 answers.
  pub update-no_panic : (us : List Update) → update w us ≢ err panicked
  unfolding update
  update-no_panic us = NoPanic-lem (update w us) (
      NoPanic-bind _ _ begin-NoPanic (λ t _. NoPanic-bind _ _ (apply_all-NoPanic t _ us) (λ x _.
        NoPanic-bind _ _ (NoPanic-map_err transaction (perform w x.1 commit_all commit))
          (λ t1 _. tt))))
