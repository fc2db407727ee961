-- ===== src/Surf/Repo/Listing.antt =====
-- Which references `branches`, `tags` and `categories` of radicle-surf/src/repo.rs list.
use radicle_git.Base.{
  suc, ◌<◌, ◌≡◌, ◌≢◌, none, sym, ap, ◌∙◌, List, [], ◌∷◌, ◌++◌, append_assoc, append-nil, Result, ok,
  err, map_err, map_err-ok, bind-eq-ok, ok-injective, length, Pairs, arith,
}
use radicle_git.RefFormat.Refspec.{PatternStr, QualifiedPattern}
use radicle_git.Surf.Branch.{
  Failure, failed, panicked, out_of_fuel, branch_from_str, branch_refname,
}
use radicle_git.Surf.Branch.Ends.{Ends, bind-Ends, unwind-Ends, failed-Ends, branch_from_str-Ends}
use radicle_git.Surf.Glob.{Glob, RefType}
use radicle_git.Surf.Repo.Scope.{InNamespace, namespaced_pattern-InNamespace}
use radicle_git.Surf.Refs.{
  git, convert, lists_default, push_list, Iter, item, branch_try_from, branch_name, branches_next,
  branch_names_next,
}
use radicle_git.Surf.Refs.Iteration.{
  flatten, rest_of, outcomes, outcomes-Ends, collect_run, collect_run-next,
}
use radicle_git.Surf.Tag.{Reference, map_failure, utf8, named}
use radicle_git.Surf.Repo.{GitRepo, RepoError, namespaced_pattern, push_all, branches}

map_failure-Ends :
    {E F A : Type 0} (f : E → F) (r : Result (Failure E) A)
    → Ends r
    → Ends (map_err (map_failure f) r)
map_failure-Ends f (ok a) h = tt
map_failure-Ends f (err (failed e)) h = tt
map_failure-Ends f (err (panicked p)) h = tt
map_failure-Ends f (err out_of_fuel) h = absurd h

module _ {G U : Type 0} (repo : GitRepo G U) where
  -- The list is that of the references that match the glob in the namespace of the repository,
  -- which is spelled out.
  abbrev pub Matches : QualifiedPattern → List (Result G (Reference G U)) → Type 0
  Matches glob refs =
      (full : PatternStr) × InNamespace repo.namespace_bytes glob.inner full
      × (repo.references_glob full ≡ ok refs)

  pub push_all-Matches :
      (s : Iter G U) (globs : List QualifiedPattern) {t : Iter G U}
      → push_all repo s globs ≡ ok t
      → (lists : List (List (Result G (Reference G U)))) × Pairs Matches globs lists
        × (t ≡ record { references = s.references ++ lists; current = s.current })
  unfolding push_all push_list
  push_all-Matches s [] {t} h = (
    [],
    tt,
    sym (ok-injective h)
        ∙ ap (λ l. record { references = l; current = s.current }) (sym (append-nil s.references)),
  )
  push_all-Matches s (glob ∷ globs) {t} h =
      let (full, e1, h1) = bind-eq-ok (namespaced_pattern repo glob) _ h in
      let (refs, e2, h2) =
        bind-eq-ok (map_err (λ e. failed (RepoError.git e)) (repo.references_glob full.inner)) _
          h1 in
      let (lists, pairs, same) = push_all-Matches (push_list s refs) globs h2 in
      (
        refs ∷ lists,
        (
          (
            full.inner,
            namespaced_pattern-InNamespace repo glob e1,
            map_err-ok (λ e. failed (RepoError.git e)) (repo.references_glob full.inner) e2,
          ),
          pairs,
        ),
        same
            ∙ ap (λ l. record { references = l; current = s.current })
                (append_assoc s.references (refs ∷ []) lists),
      )

  item-Ends :
      {E A : Type 0} (f : Reference G U → Result (Failure E) A) (res : Result G (Reference G U))
      → ((r : Reference G U) → Ends (f r))
      → Ends (item f res)
  unfolding item
  item-Ends f res ends =
      bind-Ends (map_err (λ e. failed (git e)) res) _ (failed-Ends git res)
        (λ r. map_failure-Ends convert (f r) (ends r))

  branch_try_from-Ends : (r : Reference G U) → Ends (branch_try_from r)
  unfolding branch_try_from
  branch_try_from-Ends r =
      bind-Ends (map_err (λ u. failed (utf8 u)) r.name) _ (failed-Ends utf8 r.name)
        (λ name. map_failure-Ends named (branch_from_str name) (branch_from_str-Ends name))

  branch_name-Ends : (r : Reference G U) → Ends (branch_name r)
  unfolding branch_name
  branch_name-Ends r =
      bind-Ends (branch_try_from r) _ (branch_try_from-Ends r)
        (λ b. unwind-Ends _ (branch_refname b))

  -- The iterator has a list of references for each glob, and gives the branches and their names.
  abbrev pub ListsBranches : List QualifiedPattern → Iter G U → Type 0
  ListsBranches globs s =
      (lists : List (List (Result G (Reference G U)))) × Pairs Matches globs lists
      × (collect_run branches_next (suc (length (flatten lists))) s
          ≡ outcomes (item branch_try_from) (flatten lists))
      × (outcomes (item branch_try_from) (flatten lists) ≢ none)
      × (collect_run branch_names_next (suc (length (flatten lists))) s
          ≡ outcomes (item branch_name) (flatten lists))
      × (outcomes (item branch_name) (flatten lists) ≢ none)

  -- The iterator of `branches` has a list for each glob, in order: the references that match the
  -- glob, behind refs/namespaces/<component>/ for each component of the namespace of the repository,
  -- if it is in one. Collected to the end, which takes one call more than there are references, it
  -- gives for each reference in order what the conversion to a branch gives, a branch or an error,
  -- unless a conversion panics: then the first such panic is the outcome. That of `branch_names`
  -- gives the names of the branches likewise. The fuel of the model is enough.
  pub branches-Matches :
      (pattern : Glob RefType.branch) {s : Iter G U}
      → branches repo pattern ≡ ok s
      → ListsBranches pattern.globs s
  unfolding branches branches_next branch_names_next
  branches-Matches pattern {s} h =
      let (lists, pairs, same) = push_all-Matches lists_default pattern.globs h in
      let f = suc (length (flatten lists)) in
      let left : rest_of s ≡ flatten lists = ap rest_of same in
      let fits : length (rest_of s) < f = omega (arith, ap length left) in
      (
        lists,
        pairs,
        collect_run-next (item branch_try_from) f s fits
            ∙ ap (outcomes (item branch_try_from)) left,
        outcomes-Ends (item branch_try_from) (λ r. item-Ends branch_try_from r branch_try_from-Ends)
            (flatten lists),
        collect_run-next (item branch_name) f s fits ∙ ap (outcomes (item branch_name)) left,
        outcomes-Ends (item branch_name) (λ r. item-Ends branch_name r branch_name-Ends)
            (flatten lists),
      )
