-- ===== src/Storage/Transaction/Commit.antt =====
-- `Write::update` of git-storage/src/backend/write.rs: what it commits and what it reports.
use radicle_git.Base.{
  map_err, map_err-ok, ◌≡◌, refl, sym, ap, ◌∙◌, ◌⊎◌, inl, inr, List, [], ◌∷◌, ◌++◌, map, append-nil,
  append_assoc, Option-cases, ok, bind-eq-ok, ok-injective, arith,
}
use radicle_git.Storage.Refdb.{
  Update, Updated, direct, symbolic, remove, Applied, Trace, start, after, commit_all, Storage,
  commit,
}
use radicle_git.Storage.Edits.{perform}
use radicle_git.Storage.Edits.Locked.{
  changes, reported, IsLocked, Extends, Extends-none, Extends-append, perform-eq,
}
use radicle_git.Storage.Transaction.{
  direct_update, symbolic_update, remove_update, apply, apply_all, begin, update, record_one,
  record_many,
}
use radicle_git.Storage.Transaction.Outcomes.{
  Answers, Accounts, as_list, direct_update-Accounts, remove_update-Accounts,
}
use radicle_git.Storage.Transaction.Symbolic.{symbolic_update-Accounts}

-- Each update is handed back, or it is answered by reports, in the order of the updates.
pub data Settles : List Update → List Update → List Updated → Type 0 where
  done : Settles [] [] []
  rejects :
      {u : Update} {us rs : List Update} {vs : List Updated}
      → Settles us rs vs
      → Settles (u ∷ us) (u ∷ rs) vs
  applies :
      {u : Update} {us rs : List Update} (ws vs : List Updated)
      → Answers u ws
      → Settles us rs vs
      → Settles (u ∷ us) rs (ws ++ vs)

-- What the body of the loop makes of the lists.
abbrev Adds : Update → Applied → Trace → Applied → Trace → Type 0
Adds u a t a' t' =
    ((a' ≡ record { rejected = a.rejected ++ u ∷ []; updated = a.updated }) × (t' ≡ t))
    ⊎ ((ws : List Updated) × (a' ≡ record { rejected = a.rejected; updated = a.updated ++ ws })
        × Answers u ws
        × Extends t t' ws)

many-Adds :
    (u : Update) (a : Applied) (t : Trace) (o : Update ⊎ List Updated) (t' : Trace)
    → Accounts u t o t'
    → Adds u a t (record_many a o) t'
many-Adds u a t (inl x) t' (same, kept) =
    inl (ap (λ y. record { rejected = a.rejected ++ y ∷ []; updated = a.updated }) same, kept)
many-Adds u a t (inr ws) t' (answers, grows) = inr (ws, refl, answers, grows)

one-Adds :
    (u : Update) (a : Applied) (t : Trace) (o : Update ⊎ Updated) (t' : Trace)
    → Accounts u t (as_list o) t'
    → Adds u a t (record_one a o) t'
one-Adds u a t (inl x) t' h = many-Adds u a t (inl x) t' h
one-Adds u a t (inr x) t' h = many-Adds u a t (inr (x ∷ [])) t' h

module _ {E : Type 0} (w : Storage E) where
  apply-Adds :
      (t : Trace) (a : Applied) (u : Update) {a' : Applied} {t' : Trace}
      → apply w t a u ≡ ok (a', t')
      → Adds u a t a' t'
  unfolding apply
  apply-Adds t a (direct name target no_ff previous reflog) h =
      let ((o, t1), run, h1) =
        bind-eq-ok (direct_update w t name target no_ff previous reflog) _ h in
      let found = ok-injective h1 in
      rw (sym (ap (λ p. p.0) found), sym (ap (λ p. p.1) found))
        (one-Adds _ a t o t1 (direct_update-Accounts w t name target no_ff previous reflog run))
  apply-Adds t a (symbolic name target change previous reflog) h =
      let ((o, t1), run, h1) =
        bind-eq-ok (symbolic_update w t name target change previous reflog) _ h in
      let found = ok-injective h1 in
      rw (sym (ap (λ p. p.0) found), sym (ap (λ p. p.1) found))
        (many-Adds _ a t o t1 (symbolic_update-Accounts w t name target change previous reflog run))
  apply-Adds t a (remove name previous) h =
      let ((o, t1), run, h1) = bind-eq-ok (remove_update w t name previous) _ h in
      let found = ok-injective h1 in
      rw (sym (ap (λ p. p.0) found), sym (ap (λ p. p.1) found))
        (one-Adds _ a t o t1 (remove_update-Accounts w t name previous run))

  apply_all-Settles :
      (t : Trace) (a : Applied) (us : List Update) {a' : Applied} {t' : Trace}
      → apply_all w t a us ≡ ok (a', t')
      → (rs : List Update) × (vs : List Updated) × Settles us rs vs
        × (a'.rejected ≡ a.rejected ++ rs)
        × (a'.updated ≡ a.updated ++ vs)
        × Extends t t' vs
  unfolding apply_all
  apply_all-Settles t a [] h =
      let found = ok-injective h in
      rw (sym (ap (λ p. p.0) found), sym (ap (λ p. p.1) found))
        ([], [], done, sym (append-nil a.rejected), sym (append-nil a.updated), Extends-none t)
  apply_all-Settles t a (u ∷ us) {a'} {t'} h =
      let ((a1, t1), run, h1) = bind-eq-ok (apply w t a u) _ h in
      let (rs, vs, settles, rejected, updated, grows) = apply_all-Settles t1 a1 us h1 in
      elim (apply-Adds t a u run) [
        | inl (same, kept) ↦ (
          u ∷ rs,
          vs,
          rejects settles,
          rejected
              ∙ ap (λ (x : Applied). x.rejected ++ rs) same
              ∙ append_assoc a.rejected (u ∷ []) rs,
          updated ∙ ap (λ (x : Applied). x.updated ++ vs) same,
          rw kept at grows,
        )
        | inr (ws, same, answers, grown) ↦ (
          rs,
          ws ++ vs,
          applies ws vs answers settles,
          rejected ∙ ap (λ (x : Applied). x.rejected ++ rs) same,
          updated ∙ ap (λ (x : Applied). x.updated ++ vs) same ∙ append_assoc a.updated ws vs,
          Extends-append grown grows,
        )
      ]

  begin-start : {t : Trace} → begin w ≡ ok t → t ≡ start
  unfolding begin
  begin-start h = elim (Option-cases w.raw.begin_transaction) [
    | inl e ↦ ground arith
    | inr (x, e) ↦ absurd (ground arith)
  ]

  -- Where `update` succeeds, the transaction is committed once, behind all else; it locked each
  -- reference before the change to it; its changes are those that are reported, in order; and each
  -- update is handed back as rejected or answered by reports.
  pub update-Settles :
      (us : List Update) (a : Applied) (t : Trace)
      → update w us ≡ ok (a, t)
      → (t1 : Trace) × (t ≡ after t1 commit_all)
        × IsLocked t1
        × (changes t1 ≡ map reported a.updated)
        × Settles us a.rejected a.updated
  unfolding update
  update-Settles us a t h =
      let (t0, began, h1) = bind-eq-ok (begin w) _ h in
      let ((a1, t1), applied, h2) =
        bind-eq-ok (apply_all w t0 (record { rejected = []; updated = [] }) us) _ h1 in
      let (t2, ended, h3) = bind-eq-ok (map_err _ (perform w t1 commit_all commit)) _ h2 in
      let found = ok-injective h3 in
      let same : a1 ≡ a = ap (λ p. p.0) found in
      let committed =
        perform-eq w t1 commit_all commit (map_err-ok _ (perform w t1 commit_all commit) ended) in
      let (rs, vs, settles, rejected, updated, grows) = apply_all-Settles t0 _ us applied in
      let first = begin-start began in
      (
        t1,
        sym (ap (λ p. p.1) found) ∙ committed,
        grows.locked (rw first tt),
        grows.same
            ∙ ap (λ x. changes x ++ map reported vs) first
            ∙ ap (map reported) (sym updated ∙ ap (λ (x : Applied). x.updated) same),
        rw
            (
              sym (ap (λ (x : Applied). x.rejected) same) ∙ rejected,
              sym (ap (λ (x : Applied). x.updated) same) ∙ updated,
            )
            settles,
      )
