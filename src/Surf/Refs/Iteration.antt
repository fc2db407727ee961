-- ===== src/Surf/Refs/Iteration.antt =====
-- What the iterators of radicle-surf/src/refs.rs give: the references of their lists, in order.
use Prim.Native.Nat.{◌-◌}
use radicle_git.Base.{
  ℕ, zero, suc, ◌≤◌, ◌<◌, ltb, ◌≡◌, ◌≢◌, refl, ap, ◌∙◌, ◌⊎◌, inl, inr, List, [], ◌∷◌, ◌++◌, Option,
  none, some, Bool-cases, Result, ok, err, length, drop, arith,
}
use radicle_git.Surf.Branch.{Failure, failed, panicked, out_of_fuel}
use radicle_git.Surf.Branch.Ends.{Ends}
use radicle_git.Surf.Refs.{Run, settle, Lists, next_at, next_loop, next}

module _ {A : Type 0} where
  -- All elements of the lists.
  abbrev pub flatten : List (List A) → List A
  flatten [] = []
  flatten (l ∷ ls) = l ++ flatten ls

  -- The elements that an iterator has left.
  abbrev pub rest_of : Lists A → List A
  rest_of s = flatten (drop s.current s.references)

  -- A list that the iterator is at is empty, or gives its first element.
  data At (i : ℕ) (ls : List (List A)) : Type 0 where
    over :
        next_at i ls ≡ some (none, ls) → flatten (drop i ls) ≡ flatten (drop (suc i) ls) → At i ls
    found :
        (x : A) (ls1 : List (List A))
        → next_at i ls ≡ some (some x, ls1)
        → flatten (drop i ls) ≡ x ∷ flatten (drop i ls1)
        → At i ls

  next_at-At : (i : ℕ) (ls : List (List A)) → i < length ls → At i ls
  unfolding next_at
  next_at-At i [] lt = absurd (omega (arith, lt))
  next_at-At zero ([] ∷ ls) lt = over refl refl
  next_at-At zero ((x ∷ xs) ∷ ls) lt = found x (xs ∷ ls) refl refl
  next_at-At (suc i) (l ∷ ls) lt = elim (next_at-At i ls (omega (arith, lt))) [
    | over e same ↦ over (rw (next_at, e) refl) same
    | found x ls1 e same ↦ found x (l ∷ ls1) (rw (next_at, e) refl) same
  ]

  drop-nil : (i : ℕ) (ls : List (List A)) → length ls ≤ i → drop i ls ≡ []
  drop-nil zero [] le = refl
  drop-nil zero (l ∷ ls) le = absurd (omega (arith, le))
  drop-nil (suc i) [] le = refl
  drop-nil (suc i) (l ∷ ls) le = drop-nil i ls (omega (arith, le))

module _ {A B E : Type 0} (convert : A → Result (Failure E) B) where
  -- A call of `next` converts the first of the elements that are left, and keeps the others.
  abbrev pub Gives : Lists A → Run (Option (Result E B) × Lists A) → Type 0
  Gives s r =
      ((t : Lists A) × (r ≡ some (ok (none, t))) × (rest_of s ≡ []))
      ⊎ ((x : A) × ((t : Lists A) × (r ≡ settle (convert x) (λ b. (some b, t)))
            × (rest_of s ≡ x ∷ rest_of t)))

  Gives-over :
      (s t : Lists A) (r : Run (Option (Result E B) × Lists A))
      → rest_of s ≡ rest_of t
      → Gives t r
      → Gives s r
  Gives-over s t r same (inl (u, e, gone)) = inl (u, e, same ∙ gone)
  Gives-over s t r same (inr (x, (u, e, more))) = inr (x, (u, e, same ∙ more))

  next_loop-Gives :
      (f : ℕ) (s : Lists A) → f ≡ length s.references - s.current → Gives s (next_loop convert f s)
  unfolding next_loop
  next_loop-Gives zero s e =
      inl (s, refl, ap flatten (drop-nil s.current s.references (omega (arith, e))))
  next_loop-Gives (suc f) s e = elim (Bool-cases (ltb s.current (length s.references))) [
    | inr ge ↦ absurd (ground (arith, e, ge))
    | inl lt ↦ elim (next_at-At s.current s.references (ground (arith, lt))) [
      | over h same ↦
          let t : Lists A = record s { current = suc s.current } in
          rw (next_loop, lt, h)
            (Gives-over s t (next_loop convert f t) same (next_loop-Gives f t (omega (arith, e))))
      | found x ls h same ↦
          let t : Lists A = record s { references = ls } in
          rw (next_loop, lt, h) (inr (x, (t, refl, same)))
    ]
  ]

  pub next-Gives : (s : Lists A) → Gives s (next convert s)
  unfolding next
  next-Gives s = next_loop-Gives (length s.references - s.current) s refl

abbrev pub prepend : {B : Type 0} → B → Run (List B) → Run (List B)
prepend b none = none
prepend b (some (err p)) = some (err p)
prepend b (some (ok bs)) = some (ok (b ∷ bs))

-- What `collect` does behind a call of `next`: a panic in it ends all.
abbrev pub after_next : {S B : Type 0} → Run (Option B × S) → (S → Run (List B)) → Run (List B)
after_next none rest = none
after_next (some (err p)) rest = some (err p)
after_next (some (ok (none, s))) rest = some (ok [])
after_next (some (ok (some b, s))) rest = prepend b (rest s)

-- `collect` of an iterator; `none` means that the fuel ran out.
abbrev pub collect_run : {S B : Type 0} → (S → Run (Option B × S)) → ℕ → S → Run (List B)
collect_run step zero s = none
collect_run step (suc f) s = after_next (step s) (collect_run step f)

module _ {A B E : Type 0} (convert : A → Result (Failure E) B) where
  abbrev pub outcome : Result (Failure E) B → Run (List (Result E B)) → Run (List (Result E B))
  outcome (ok b) rest = prepend (ok b) rest
  outcome (err (failed e)) rest = prepend (err e) rest
  outcome (err (panicked p)) rest = some (err p)
  outcome (err out_of_fuel) rest = none

  -- The value or the error of each element in order, or the first panic.
  abbrev pub outcomes : List A → Run (List (Result E B))
  outcomes [] = some (ok [])
  outcomes (x ∷ xs) = outcome (convert x) (outcomes xs)

  prepend-some : (b : Result E B) (r : Run (List (Result E B))) → r ≢ none → prepend b r ≢ none
  prepend-some b none h e = absurd (h refl)
  prepend-some b (some (err p)) h e = absurd (cc)
  prepend-some b (some (ok bs)) h e = absurd (cc)

  outcome-Ends :
      (r : Result (Failure E) B) (rest : Run (List (Result E B)))
      → Ends r
      → rest ≢ none
      → outcome r rest ≢ none
  outcome-Ends (ok b) rest ends h e = prepend-some (ok b) rest h e
  outcome-Ends (err (failed x)) rest ends h e = prepend-some (err x) rest h e
  outcome-Ends (err (panicked p)) rest ends h e = absurd (cc)
  outcome-Ends (err out_of_fuel) rest ends h e = absurd ends

  pub outcomes-Ends : ((x : A) → Ends (convert x)) → (xs : List A) → outcomes xs ≢ none
  outcomes-Ends ends [] e = absurd (cc)
  outcomes-Ends ends (x ∷ xs) e =
      outcome-Ends (convert x) (outcomes xs) (ends x) (outcomes-Ends ends xs) e

  after_next-settle :
      (r : Result (Failure E) B) (t : Lists A) (rest : Lists A → Run (List (Result E B)))
      → after_next (settle r (λ b. (some b, t))) rest ≡ outcome r (rest t)
  after_next-settle (ok b) t rest = refl
  after_next-settle (err (failed e)) t rest = refl
  after_next-settle (err (panicked p)) t rest = refl
  after_next-settle (err out_of_fuel) t rest = refl

  -- Collected to the end, an iterator gives the outcomes of all elements that are left.
  pub collect_run-next :
      (f : ℕ) (s : Lists A)
      → length (rest_of s) < f
      → collect_run (next convert) f s ≡ outcomes (rest_of s)
  collect_run-next zero s lt = absurd (omega (arith, lt))
  collect_run-next (suc f) s lt = elim (next-Gives convert s) [
    | inl (t, e, gone) ↦ rw (e, gone) refl
    | inr (x, (t, e, more)) ↦
        let fits : length (rest_of t) < f = omega (arith, lt, ap length more) in
        rw (e, more)
          (after_next-settle (convert x) t (collect_run (next convert) f)
            ∙ ap (outcome (convert x)) (collect_run-next f t fits))
  ]
