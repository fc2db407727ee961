-- ===== src/Surf/Branch/Ends.antt =====
-- The fuel is enough with which radicle-surf/src/branch.rs takes a name out of its namespaces.
use radicle_git.Base.{
  ◌≡◌, inl, inr, Bool-cases, List, some, Option-cases, Result, ok, err, map_err, ◌>>=◌,
  Result-cases, map_ok, Str, str_eq,
}
use radicle_git.RefFormat.Check.{Error}
use radicle_git.RefFormat.Name.{Panic, RefStr, heads, remotes, Component, collect, try_from}
use radicle_git.RefFormat.Deriv.{
  Namespaced, Qualified, from_refstr, non_empty_components, to_namespaced,
  strip_namespace_recursive,
}
use radicle_git.RefFormat.Deriv.Namespace.Strip.{strip_namespace_recursive-total}
use radicle_git.Surf.Branch.{
  Failure, failed, panicked, out_of_fuel, unwind, run, strip_to_qualified, branch_of,
  branch_from_str, refstr_join, local_new, local, remote, remote_new, BranchError,
}

-- The model does not run out of fuel.
abbrev pub Ends {ℓ κ} : {E : Type ℓ} {A : Type κ} → Result (Failure E) A → Type 0
Ends (ok a) = Unit
Ends (err (failed e)) = Unit
Ends (err (panicked p)) = Unit
Ends (err out_of_fuel) = ⊥

pub bind-Ends {ℓ κ μ} :
    {E : Type ℓ} {A : Type κ} {B : Type μ} (m : Result (Failure E) A) (f : A → Result (Failure E) B)
    → Ends m
    → ((a : A) → Ends (f a))
    → Ends (m >>= f)
bind-Ends (ok a) f h k = k a
bind-Ends (err (failed e)) f h k = tt
bind-Ends (err (panicked p)) f h k = tt
bind-Ends (err out_of_fuel) f h k = absurd h

pub unwind-Ends {ℓ κ} : (E : Type ℓ) {A : Type κ} (r : Result Panic A) → Ends (unwind {E = E} r)
unwind-Ends E (ok a) = tt
unwind-Ends E (err p) = tt

pub failed-Ends {ℓ κ μ} :
    {D : Type ℓ} {E : Type μ} {A : Type κ} (wrap : D → E) (r : Result D A)
    → Ends (map_err (λ e. failed (wrap e)) r)
failed-Ends wrap (ok a) = tt
failed-Ends wrap (err e) = tt

stripped-Ends {ℓ} :
    (E : Type ℓ) (name : RefStr) {n : Namespaced}
    → to_namespaced name ≡ some n
    → Ends (run {E = E} (strip_namespace_recursive n))
stripped-Ends E name h =
    let (q, ran, steps, done) = strip_namespace_recursive-total name h in rw ran tt

strip_to_qualified-Ends {ℓ} :
    {E : Type ℓ} (unqualified : Str → E) (invalid : Error → E) (s : Str)
    → Ends (strip_to_qualified unqualified invalid s)
unfolding strip_to_qualified
strip_to_qualified-Ends unqualified invalid s = elim (Result-cases (try_from s)) [
  | inr (e, bad) ↦ rw (strip_to_qualified, bad) tt
  | inl (name, good) ↦ elim (Option-cases (to_namespaced name)) [
    | inr (n, is) ↦ rw (strip_to_qualified, good, is) (stripped-Ends _ name is)
    | inl is_none ↦ elim (Option-cases (from_refstr name)) [
      | inl bad ↦ rw (strip_to_qualified, good, is_none, bad) tt
      | inr (q, found) ↦ rw (strip_to_qualified, good, is_none, found) tt
    ]
  ]
]

branch_of-Ends :
    (q : Qualified) (cs : Component × Component × Component × List Component)
    → Ends (branch_of q cs)
unfolding branch_of
branch_of-Ends q (a, b, c, cs) = elim (Bool-cases (str_eq b.inner heads)) [
  | inl is_heads ↦
      rw (branch_of, is_heads) (unwind-Ends _ (map_ok local (refstr_join c cs >>= local_new)))
  | inr other ↦ elim (Bool-cases (str_eq b.inner remotes)) [
    | inl is_remotes ↦
        rw (branch_of, other, is_remotes)
          (unwind-Ends _ (map_ok (λ n. remote (remote_new c n)) (collect cs)))
    | inr neither ↦ rw (branch_of, other, neither) tt
  ]
]

-- `FromStr for Branch` has an outcome for every text.
pub branch_from_str-Ends : (s : Str) → Ends (branch_from_str s)
unfolding branch_from_str
branch_from_str-Ends s =
    bind-Ends (strip_to_qualified BranchError.not_qualified BranchError.ref_format_error s) _
      (strip_to_qualified-Ends BranchError.not_qualified BranchError.ref_format_error s)
      (λ q.
        bind-Ends (unwind (non_empty_components q)) _ (unwind-Ends _ (non_empty_components q))
          (branch_of-Ends q))
