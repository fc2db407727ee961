-- ===== src/Storage/Edits/Locked.antt =====
-- What the edits of git-storage/src/backend/write.rs ask of a transaction: each changes the
-- references that it reports, and none that it has not locked.
use radicle_git.Base.{
  ◌≡◌, refl, sym, ap, ◌∙◌, ◌⊎◌, inl, inr, Bool, true, false, List, [], ◌∷◌, ◌++◌, map, append-nil,
  append_assoc, Option, Option-cases, ok, bind-eq-ok, ok-injective, Str, arith,
}
use radicle_git.RefFormat.Name.{RefString}
use radicle_git.Storage.Previous.{Oid}
use radicle_git.Storage.Refdb.{
  Updated, direct, symbolic, removed, SymrefTarget, TransactionError, Call, lock_ref, set_target,
  set_symbolic_target, remove_ref, commit_all, Trace, start, after, Storage,
}
use radicle_git.Storage.Edits.{
  perform, lock_reference, sign, direct_edit, edit_if, symbolic_edit, remove_edit,
}

-- What happens to a reference.
pub data Change : Type 0 where
  points : RefString → Oid → Change
  links : RefString → RefString → Change
  removes : RefString → Change

abbrev pub change_of : Call → List Change
change_of (lock_ref r) = []
change_of (set_target r target reflog) = points r target ∷ []
change_of (set_symbolic_target r target reflog) = links r target ∷ []
change_of (remove_ref r) = removes r ∷ []
change_of commit_all = []

-- The changes that a transaction holds, in order.
abbrev pub changes : Trace → List Change
changes start = []
changes (after t c) = changes t ++ change_of c

-- The change that is reported.
abbrev pub reported : Updated → Change
reported (direct name target previous) = points name target
reported (symbolic name target previous) = links name target
reported (removed name previous) = removes name

abbrev pub HasLock : RefString → Trace → Type 0
HasLock r start = ⊥
HasLock r (after t c) = (c ≡ lock_ref r) ⊎ HasLock r t

-- The call may follow: it is no commit, and what it changes is locked.
abbrev pub Follows : Trace → Call → Type 0
Follows t (lock_ref r) = Unit
Follows t (set_target r target reflog) = HasLock r t
Follows t (set_symbolic_target r target reflog) = HasLock r t
Follows t (remove_ref r) = HasLock r t
Follows t commit_all = ⊥

-- A transaction that is not committed and changes locked references only.
abbrev pub IsLocked : Trace → Type 0
IsLocked start = Unit
IsLocked (after t c) = Follows t c × IsLocked t

-- The second trace continues the first, changes what is reported, and stays locked.
pub record Extends (t t' : Trace) (us : List Updated) : Type 0 where
  pub same : changes t' ≡ changes t ++ map reported us
  pub locked : IsLocked t → IsLocked t'

pub Extends-none : (t : Trace) → Extends t t []
Extends-none t = record { same = sym (append-nil (changes t)); locked = λ h. h }

map-append : {A B : Type 0} (f : A → B) (xs ys : List A) → map f (xs ++ ys) ≡ map f xs ++ map f ys
map-append f [] ys = refl
map-append f (x ∷ xs) ys = ap (◌∷◌ (f x)) (map-append f xs ys)

pub Extends-append :
    {t t' t'' : Trace} {us vs : List Updated}
    → Extends t t' us
    → Extends t' t'' vs
    → Extends t t'' (us ++ vs)
Extends-append {t} {us} {vs} e f = record {
  same =
      f.same
      ∙ ap (λ l. l ++ map reported vs) e.same
      ∙ append_assoc (changes t) (map reported us) (map reported vs)
      ∙ ap (λ l. changes t ++ l) (sym (map-append reported us vs));
  locked = λ h. f.locked (e.locked h);
}

module _ {E : Type 0} (w : Storage E) where
  pub perform-eq :
      (t : Trace) (c : Call) (wrap : E → TransactionError E) {t' : Trace}
      → perform w t c wrap ≡ ok t'
      → t' ≡ after t c
  unfolding perform
  perform-eq t c wrap h = elim (Option-cases (w.raw.answer t c)) [
    | inl e ↦ ground arith
    | inr (x, e) ↦ absurd (ground arith)
  ]

  lock_reference-eq :
      (t : Trace) (r : RefString) {t' : Trace}
      → lock_reference w t r ≡ ok t'
      → t' ≡ after t (lock_ref r)
  unfolding lock_reference
  lock_reference-eq t r h = perform-eq t (lock_ref r) (TransactionError.lock r) h

  pub direct_edit-eq :
      (t : Trace) (r : RefString) (target : Oid) (prev : Option Oid) (reflog : Str) {u : Updated}
      {t' : Trace}
      → direct_edit w t r target prev reflog ≡ ok (u, t')
      → (u ≡ direct r target prev)
        × (t' ≡ after (after t (lock_ref r)) (set_target r target reflog))
  unfolding direct_edit
  direct_edit-eq t r target prev reflog {u} {t'} h =
      let (t1, lock, h1) = bind-eq-ok (lock_reference w t r) _ h in
      let (_, _, h2) = bind-eq-ok (sign w) _ h1 in
      let (t2, set, h3) = bind-eq-ok (perform w t1 (set_target r target reflog) _) _ h2 in
      let at1 = lock_reference-eq t r lock in
      let at2 = perform-eq t1 (set_target r target reflog) _ set in
      let found = ok-injective h3 in
      (
        sym (ap (λ p. p.0) found),
        sym (ap (λ p. p.1) found) ∙ at2 ∙ ap (λ x. after x (set_target r target reflog)) at1,
      )

  pub direct_edit-Extends :
      (t : Trace) (r : RefString) (target : Oid) (prev : Option Oid) (reflog : Str) {u : Updated}
      {t' : Trace}
      → direct_edit w t r target prev reflog ≡ ok (u, t')
      → Extends t t' (u ∷ [])
  direct_edit-Extends t r target prev reflog h =
      let (same, calls) = direct_edit-eq t r target prev reflog h in
      rw (same, calls) (record { same = rw append-nil refl; locked = λ k. (inl refl, (tt, k)) })

  pub remove_edit-eq :
      (t : Trace) (r : RefString) (previous : Oid) {u : Updated} {t' : Trace}
      → remove_edit w t r previous ≡ ok (u, t')
      → (u ≡ removed r previous) × (t' ≡ after (after t (lock_ref r)) (remove_ref r))
  unfolding remove_edit
  remove_edit-eq t r previous h =
      let (t1, lock, h1) = bind-eq-ok (lock_reference w t r) _ h in
      let (t2, set, h2) = bind-eq-ok (perform w t1 (remove_ref r) _) _ h1 in
      let at1 = lock_reference-eq t r lock in
      let at2 = perform-eq t1 (remove_ref r) _ set in
      let found = ok-injective h2 in
      (
        sym (ap (λ p. p.0) found),
        sym (ap (λ p. p.1) found) ∙ at2 ∙ ap (λ x. after x (remove_ref r)) at1,
      )

  pub remove_edit-Extends :
      (t : Trace) (r : RefString) (previous : Oid) {u : Updated} {t' : Trace}
      → remove_edit w t r previous ≡ ok (u, t')
      → Extends t t' (u ∷ [])
  remove_edit-Extends t r previous h =
      let (same, calls) = remove_edit-eq t r previous h in
      rw (same, calls) (record { same = rw append-nil refl; locked = λ k. (inl refl, (tt, k)) })

  -- The edit of the target that comes with that of a symbolic reference: it keeps locks.
  edit_if-Extends :
      (ff : Bool) (t : Trace) (r : RefString) (target : Oid) (prev : Option Oid) (reflog : Str)
      {us : List Updated} {t' : Trace}
      → edit_if w ff t r target prev reflog ≡ ok (us, t')
      → Extends t t' us × ((s : RefString) → HasLock s t → HasLock s t')
  unfolding edit_if
  edit_if-Extends false t r target prev reflog {us} {t'} h =
      let found = ok-injective h in
      let none_made : [] ≡ us = ap (λ p. p.0) found in
      let kept : t ≡ t' = ap (λ p. p.1) found in rw (← none_made, ← kept) (Extends-none t, λ s k. k)
  edit_if-Extends true t r target prev reflog {us} {t'} h =
      let ((u, t1), edit, h1) = bind-eq-ok (direct_edit w t r target prev reflog) _ h in
      let found = ok-injective h1 in
      let made : u ∷ [] ≡ us = ap (λ p. p.0) found in
      let kept : t1 ≡ t' = ap (λ p. p.1) found in
      let (_, calls) = direct_edit-eq t r target prev reflog edit in
      rw (← made, ← kept)
        (direct_edit-Extends t r target prev reflog edit, λ s k. rw calls (inr (inr k)))

  pub symbolic_edit-Extends :
      (t : Trace) (r : RefString) (target : SymrefTarget) (prev : Option Oid) (reflog : Str)
      (ff : Bool) {us : List Updated} {t' : Trace}
      → symbolic_edit w t r target prev reflog ff ≡ ok (us, t')
      → Extends t t' us
  unfolding symbolic_edit
  symbolic_edit-Extends t r target prev reflog ff {us} {t'} h =
      let name = target.name.inner in
      let (t1, lock, h1) = bind-eq-ok (lock_reference w t r) _ h in
      let (t2, lock', h2) = bind-eq-ok (lock_reference w t1 name) _ h1 in
      let (_, _, h3) = bind-eq-ok (sign w) _ h2 in
      let ((edits, t3), edit, h4) =
        bind-eq-ok (edit_if w ff t2 name target.target prev reflog) _ h3 in
      let (t4, set, h5) = bind-eq-ok (perform w t3 (set_symbolic_target r name reflog) _) _ h4 in
      let at2 : t2 ≡ after (after t (lock_ref r)) (lock_ref name) =
        lock_reference-eq t1 name lock'
        ∙ ap (λ x. after x (lock_ref name)) (lock_reference-eq t r lock) in
      let at4 = perform-eq t3 (set_symbolic_target r name reflog) _ set in
      let found = ok-injective h5 in
      let made : edits ++ symbolic r name prev ∷ [] ≡ us = ap (λ p. p.0) found in
      let kept : t4 ≡ t' = ap (λ p. p.1) found in
      let (between, keeps) = edit_if-Extends ff t2 name target.target prev reflog edit in
      let has : HasLock r t3 = keeps r (rw at2 (inr (inl refl))) in
      let locks : Extends t t2 [] =
        rw at2 (record { same = simp append-nil; locked = λ k. (tt, (tt, k)) }) in
      let last : Extends t3 t4 (symbolic r name prev ∷ []) =
        rw at4 (record { same = refl; locked = λ k. (has, k) }) in
      rw (← made, ← kept) (Extends-append locks (Extends-append between last))

  edit_if-Edits :
      (ff : Bool) (t : Trace) (r : RefString) (target : Oid) (prev : Option Oid) (reflog : Str)
      {us : List Updated} {t' : Trace}
      → edit_if w ff t r target prev reflog ≡ ok (us, t')
      → (us ≡ []) ⊎ (us ≡ direct r target prev ∷ [])
  unfolding edit_if
  edit_if-Edits false t r target prev reflog h = inl (sym (ap (λ p. p.0) (ok-injective h)))
  edit_if-Edits true t r target prev reflog {us} h =
      let ((u, t1), edit, h1) = bind-eq-ok (direct_edit w t r target prev reflog) _ h in
      let made : u ∷ [] ≡ us = ap (λ p. p.0) (ok-injective h1) in
      inr (sym made ∙ ap (λ x. x ∷ []) (direct_edit-eq t r target prev reflog edit).0)

  pub symbolic_edit-Edits :
      (t : Trace) (r : RefString) (target : SymrefTarget) (prev : Option Oid) (reflog : Str)
      (ff : Bool) {us : List Updated} {t' : Trace}
      → symbolic_edit w t r target prev reflog ff ≡ ok (us, t')
      → (us ≡ symbolic r target.name.inner prev ∷ [])
        ⊎ (us
            ≡ direct target.name.inner target.target prev ∷ symbolic r target.name.inner prev ∷ [])
  unfolding symbolic_edit edit_if
  symbolic_edit-Edits t r target prev reflog ff {us} {t'} h =
      let name = target.name.inner in
      let (t1, _, h1) = bind-eq-ok (lock_reference w t r) _ h in
      let (t2, _, h2) = bind-eq-ok (lock_reference w t1 name) _ h1 in
      let (_, _, h3) = bind-eq-ok (sign w) _ h2 in
      let ((edits, t3), edit, h4) =
        bind-eq-ok (edit_if w ff t2 name target.target prev reflog) _ h3 in
      let (_, _, h5) = bind-eq-ok (perform w t3 (set_symbolic_target r name reflog) _) _ h4 in
      let made : edits ++ symbolic r name prev ∷ [] ≡ us = ap (λ p. p.0) (ok-injective h5) in
      elim (edit_if-Edits ff t2 name target.target prev reflog edit) [
        | inl e ↦ inl (sym made ∙ ap (λ l. l ++ symbolic r name prev ∷ []) e)
        | inr e ↦ inr (sym made ∙ ap (λ l. l ++ symbolic r name prev ∷ []) e)
      ]
