-- ===== src/Link/Refdb/Follow.antt =====
-- How far `follow` of archived/link-git/src/refs/db.rs goes.
use radicle_git.Base.{
  ℕ, zero, suc, ◌+◌, ◌≤◌, ◌<◌, ltb, false, ◌≡◌, refl, ap, ◌∙◌, List, [], Option, some, Result, ok,
  err, map_err, map_err-ok, ok_or-ok, bind-eq-ok, ok-injective, Result-cases, Bool-cases, inl, inr,
  str_eq, length, arith,
}
use radicle_git.Link.Refdb.{
  FullName, Target, peeled, symbolic, Reference, FollowError, max_depth, depth_limit_exceeded,
  cycle, not_found, has, insert, find_or, follow_loop, follow,
}

some_ok-injective :
    {E A : Type 0} {a b : A} → ◌≡◌ {A = Option (Result E A)} (some (ok a)) (some (ok b)) → a ≡ b
some_ok-injective h = cc

module _ {E : Type 0} (find_ref : FullName → Result E (Option Reference)) where
  -- The second reference is found of the first by following a number of symbolic ones, and is none
  -- itself.
  abbrev pub Leads : ℕ → Reference → Reference → Type 0
  Leads zero r s = (r ≡ s) × ((oid : _) × (r.target ≡ peeled oid))
  Leads (suc n) r s =
      (name : FullName) × (next : Reference) × (r.target ≡ symbolic name)
      × (find_ref name ≡ ok (some next))
      × Leads n next s

  find_or-ok :
      (name : FullName) {r : Reference} → find_or find_ref name ≡ ok r → find_ref name ≡ ok (some r)
  unfolding find_or
  find_or-ok name h =
      let (found, read, h1) = bind-eq-ok (map_err FollowError.find (find_ref name)) _ h in
      map_err-ok {F = FollowError E} FollowError.find (find_ref name) read
      ∙ ap ok (ok_or-ok {E = FollowError E} (not_found name) found h1)

  length-insert :
      (x : FullName) (seen : List FullName)
      → has x seen ≡ false
      → length (insert x seen) ≡ suc (length seen)
  unfolding insert
  length-insert x seen h = rw h refl

  follow_loop-Leads :
      (f : ℕ) (seen : List FullName) (next : Reference) (t : Target) {r : Reference}
      → next.target ≡ t
      → length seen ≤ max_depth
      → follow_loop find_ref f seen next ≡ some (ok r)
      → (n : ℕ) × (n + length seen ≤ max_depth) × Leads n next r
  unfolding follow_loop
  follow_loop-Leads zero seen next t e le h = absurd (cc)
  follow_loop-Leads (suc f) seen next (peeled oid) e le h =
      (0, omega (arith, le), (some_ok-injective (rw (e, follow_loop) at h), (oid, e)))
  follow_loop-Leads (suc f) seen next (symbolic name) {r} e le h =
      let h1 = (rw (e, follow_loop) at h) in
      elim (Bool-cases (ltb max_depth (length seen + 1))) [
        | inl deep ↦ absurd (let h2 = (rw deep at h1) in cc)
        | inr shallow ↦ elim (Bool-cases (has name seen)) [
          | inl old ↦ absurd (let h2 = (rw (shallow, old) at h1) in cc)
          | inr new ↦ elim (Result-cases (find_or find_ref name)) [
            | inr (x, failed) ↦ absurd (let h2 = (rw (shallow, new, failed) at h1) in cc)
            | inl (next1, found) ↦
                let longer = length-insert name seen new in
                let (n, few, leads) =
                  follow_loop-Leads f (insert name seen) next1 next1.target refl
                    (ground (arith, longer, shallow)) (rw (shallow, new, found) at h1) in
                (suc n, omega (arith, longer, few), (name, next1, e, find_or-ok name found, leads))
          ]
        ]
      ]

  -- With fuel beyond the limit the loop ends.
  follow_loop-total :
      (f : ℕ) (seen : List FullName) (next : Reference) (t : Target)
      → next.target ≡ t
      → length seen ≤ max_depth
      → max_depth < length seen + f
      → (r : Result (FollowError E) Reference) × (follow_loop find_ref f seen next ≡ some r)
  unfolding follow_loop
  follow_loop-total zero seen next t e le lt = absurd (omega (arith, le, lt))
  follow_loop-total (suc f) seen next (peeled oid) e le lt = (ok next, simp (e, follow_loop))
  follow_loop-total (suc f) seen next (symbolic name) e le lt =
      elim (Bool-cases (ltb max_depth (length seen + 1))) [
        | inl deep ↦ (err (depth_limit_exceeded max_depth), rw (e, follow_loop, deep) refl)
        | inr shallow ↦ elim (Bool-cases (has name seen)) [
          | inl old ↦ (err (cycle name), rw (e, follow_loop, shallow, old) refl)
          | inr new ↦ elim (Result-cases (find_or find_ref name)) [
            | inr (x, failed) ↦ (err x, rw (e, follow_loop, shallow, new, failed) refl)
            | inl (next1, found) ↦
                let longer = length-insert name seen new in
                let (r, ended) =
                  follow_loop-total f (insert name seen) next1 next1.target refl
                    (ground (arith, longer, shallow)) (omega (arith, longer, lt)) in
                (r, rw (e, follow_loop, shallow, new, found) ended)
          ]
        ]
      ]

  start-length :
      (a b : FullName)
      → (1 ≤ length (insert b (insert a []))) × (length (insert b (insert a [])) ≤ 2)
  unfolding insert has
  start-length a b = elim (Bool-cases (str_eq b a)) [
    | inl e ↦ rw e (omega arith, omega arith)
    | inr e ↦ rw e (omega arith, omega arith)
  ]

  follow-on :
      (symref : Reference) (t : Target)
      → symref.target ≡ t
      → (r : Result (FollowError E) Reference) × (follow find_ref symref ≡ some r)
        × ((s : Reference) → r ≡ ok s → (n : ℕ) × (n ≤ 5) × Leads n symref s)
  unfolding follow
  follow-on symref (peeled oid) e =
      (ok symref, simp (e, follow), λ s h. (0, omega arith, (ok-injective h, (oid, e))))
  follow-on symref (symbolic name) e =
      let seen = insert name (insert symref.name []) in
      let (some_seen, few_seen) = start-length symref.name name in
      elim (Result-cases (find_or find_ref name)) [
        | inr (x, failed) ↦ (err x, rw (e, follow, failed) refl, λ s h. absurd (cc))
        | inl (next, found) ↦
            let (r, ended) =
              follow_loop-total max_depth seen next next.target refl (omega (arith, few_seen))
                (omega (arith, some_seen)) in
            (
              r,
              rw (e, follow, found) ended,
              λ s h.
                  let (n, few, leads) =
                    follow_loop-Leads max_depth seen next next.target refl (omega (arith, few_seen))
                      (ended ∙ ap some h) in
                  (
                    suc n,
                    omega (arith, few, some_seen),
                    (name, next, e, find_or-ok name found, leads),
                  ),
            )
      ]

  -- `follow` ends, with a reference or an error, whatever the references are; a reference that it
  -- returns is no symbolic one, and was found by following five symbolic ones at most.
  pub follow-total :
      (symref : Reference)
      → (r : Result (FollowError E) Reference) × (follow find_ref symref ≡ some r)
        × ((s : Reference) → r ≡ ok s → (n : ℕ) × (n ≤ 5) × Leads n symref s)
  unfolding follow
  follow-total symref = follow-on symref symref.target refl
