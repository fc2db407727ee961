-- ===== src/Link/Refdb/Stale.antt =====
-- Which packed references `snapshot` of archived/link-git/src/refs/db.rs gives.
use mathlib.Core.Path.{subst}
use radicle_git.Base.{
  ℕ, ◌==◌, not, true, false, ◌≡◌, ◌≢◌, refl, sym, ap, ◌∙◌, Option, none, some, Result, ok, err,
  Bool-cases, inl, inr, Option-cases, Result-cases, ==_iff,
}
use radicle_git.Link.Refdb.{Packed, PackedRefs, is_modified, reopen, reload, snapshot}

module _ {E B : Type 0} (file : PackedRefs E B) where
  -- The file is opened: the buffer of the snapshot is the new one, which is held from then on; with
  -- no file there is none, and on an error what was held stays.
  pub data Opened (held : Option (Packed B))
      : Result E (Option B) × Option (Packed B) → Type 0 where
    failed : {e : E} → file.open_file ≡ err e → Opened held (err e, held)
    no_file : file.open_file ≡ ok none → Opened held (ok none, none)
    read : {n : Packed B} → file.open_file ≡ ok (some n) → Opened held (ok (some n.buf), some n)

  -- What the reload behind the lock does: it takes what another thread has read in the meantime, if
  -- that is of another time than the references were before, and opens the file else.
  pub data Reloaded (p : Packed B)
      : Option (Packed B) → Result E (Option B) × Option (Packed B) → Type 0 where
    taken : {q : Packed B} → q.mtime ≢ p.mtime → Reloaded p (some q) (ok (some q.buf), some q)
    reread :
        {q : Packed B} {r : Result E (Option B) × Option (Packed B)}
        → q.mtime ≡ p.mtime
        → Opened (some q) r
        → Reloaded p (some q) r
    dropped : {r : Result E (Option B) × Option (Packed B)} → Opened none r → Reloaded p none r

  -- A snapshot where the references `p` are held, and `others` is what the other threads do before
  -- the lock of a reload is taken.
  pub data Outcome (others : Option (Packed B) → Option (Packed B)) (p : Packed B)
      : Result E (Option B) × Option (Packed B) → Type 0 where
    unknown : {e : E} → file.metadata ≡ err e → Outcome others p (err e, some p)
    stale :
        {mtime : ℕ}
        → file.metadata ≡ ok (some mtime)
        → p.mtime ≢ mtime
        → Outcome others p (ok (some p.buf), some p)
    same :
        {mtime : ℕ} {r : Result E (Option B) × Option (Packed B)}
        → file.metadata ≡ ok (some mtime)
        → p.mtime ≡ mtime
        → Reloaded p (others (some p)) r
        → Outcome others p r
    gone :
        {r : Result E (Option B) × Option (Packed B)}
        → file.metadata ≡ ok none
        → Reloaded p (others (some p)) r
        → Outcome others p r

  reopen-err :
      (held : Option (Packed B)) {e : E} → file.open_file ≡ err e → reopen file held ≡ (err e, held)
  unfolding reopen
  reopen-err held bad = rw (reopen, bad) refl

  reopen-none :
      (held : Option (Packed B)) → file.open_file ≡ ok none → reopen file held ≡ (ok none, none)
  unfolding reopen
  reopen-none held e = rw (reopen, e) refl

  reopen-some :
      (held : Option (Packed B)) {n : Packed B}
      → file.open_file ≡ ok (some n)
      → reopen file held ≡ (ok (some n.buf), some n)
  unfolding reopen
  reopen-some held e = rw (reopen, e) refl

  reopen-Opened : (held : Option (Packed B)) → Opened held (reopen file held)
  unfolding reopen
  reopen-Opened held = elim (Result-cases (file.open_file)) [
    | inr (e, bad) ↦ subst (Opened held) (sym (reopen-err held bad)) (failed bad)
    | inl (k, good) ↦ elim (Option-cases k) [
      | inl nothing ↦
          let e = good ∙ ap ok nothing in subst (Opened held) (sym (reopen-none held e)) (no_file e)
      | inr (n, there) ↦
          let e = good ∙ ap ok there in subst (Opened held) (sym (reopen-some held e)) (read e)
    ]
  ]

  reload-Reloaded :
      (p : Packed B) (held : Option (Packed B))
      → Reloaded p held (reload file (λ q. not (q.mtime == p.mtime)) held)
  unfolding reload
  reload-Reloaded p none = dropped (reopen-Opened none)
  reload-Reloaded p (some q) = elim (Bool-cases (q.mtime == p.mtime)) [
    | inl e ↦ rw (reload, e) (reread ((==_iff q.mtime p.mtime).0 e) (reopen-Opened (some q)))
    | inr e ↦
        rw (reload, e) (taken (λ eq. absurd (let yes_same = (==_iff q.mtime p.mtime).1 eq in cc)))
  ]

  snapshot-err :
      (others : Option (Packed B) → Option (Packed B)) (p : Packed B) {e : E}
      → file.metadata ≡ err e
      → snapshot file others (some p) ≡ (err e, some p)
  unfolding snapshot is_modified
  snapshot-err others p bad = rw (snapshot, is_modified, bad) refl

  snapshot-same :
      (others : Option (Packed B) → Option (Packed B)) (p : Packed B) {mtime : ℕ}
      → file.metadata ≡ ok (some mtime)
      → (p.mtime == mtime) ≡ true
      → snapshot file others (some p)
        ≡ reload file (λ q. not (q.mtime == p.mtime)) (others (some p))
  unfolding snapshot is_modified
  snapshot-same others p e eq = rw (snapshot, is_modified, e, eq) refl

  snapshot-stale :
      (others : Option (Packed B) → Option (Packed B)) (p : Packed B) {mtime : ℕ}
      → file.metadata ≡ ok (some mtime)
      → (p.mtime == mtime) ≡ false
      → snapshot file others (some p) ≡ (ok (some p.buf), some p)
  unfolding snapshot is_modified
  snapshot-stale others p e ne = rw (snapshot, is_modified, e, ne) refl

  snapshot-gone :
      (others : Option (Packed B) → Option (Packed B)) (p : Packed B)
      → file.metadata ≡ ok none
      → snapshot file others (some p)
        ≡ reload file (λ q. not (q.mtime == p.mtime)) (others (some p))
  unfolding snapshot is_modified
  snapshot-gone others p e = rw (snapshot, is_modified, e) refl

  -- Where references are held, `snapshot` asks for the time of their file. Another time than theirs
  -- is taken for unmodified: the old buffer is returned. The same time, or no file, makes a reload:
  -- behind the lock, what another thread has read is taken if it is of another time, and the file is
  -- opened else. An error for the time is returned.
  pub snapshot-Outcome :
      (others : Option (Packed B) → Option (Packed B)) (p : Packed B)
      → Outcome others p (snapshot file others (some p))
  unfolding snapshot is_modified
  snapshot-Outcome others p = elim (Result-cases (file.metadata)) [
    | inr (e, bad) ↦ subst (Outcome others p) (sym (snapshot-err others p bad)) (unknown bad)
    | inl (meta, good) ↦ elim (Option-cases meta) [
      | inl nothing ↦
          let e = good ∙ ap ok nothing in
          subst (Outcome others p) (sym (snapshot-gone others p e))
            (gone e (reload-Reloaded p (others (some p))))
      | inr (mtime, there) ↦
          let e = good ∙ ap ok there in
          elim (Bool-cases (p.mtime == mtime)) [
            | inl eq ↦
                subst (Outcome others p) (sym (snapshot-same others p e eq))
                  (same e ((==_iff p.mtime mtime).0 eq) (reload-Reloaded p (others (some p))))
            | inr ne ↦
                subst (Outcome others p) (sym (snapshot-stale others p e ne))
                  (stale e (λ eq. absurd (let yes_same = (==_iff p.mtime mtime).1 eq in cc)))
          ]
    ]
  ]
