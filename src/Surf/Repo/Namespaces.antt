-- ===== src/Surf/Repo/Namespaces.antt =====
-- Which namespaces `namespaces` of radicle-surf/src/repo.rs lists.
use mathlib.Core.Path.{subst}
use radicle_git.Base.{
  ◌≡◌, refl, sym, ◌∙◌, ◌↔◌, ◌⊎◌, inl, inr, List, [], ◌∷◌, ◌++◌, Option, some, if◌then◌else◌,
  Bool-cases, Result, ok, map_err, map_err-ok, bind-eq-ok, ok-injective, Str, str_eq, str_eq_iff,
  Pairs, Pairs-append, append-nil, append_assoc,
}
use radicle_git.Base.Map.{Map, insert, get, Sorted, insert-Sorted, get-insert}
use radicle_git.RefFormat.Refspec.{QualifiedPattern}
use radicle_git.Surf.Branch.{failed}
use radicle_git.Surf.Glob.{Glob, RefType}
use radicle_git.Surf.Tag.{Reference}
use radicle_git.Surf.Refs.Iteration.{flatten}
use radicle_git.Surf.Repo.{
  GitRepo, RepoError, namespace_item, collect_set, extend_set, extend_all, repo_namespaces,
}

abbrev Set : Type 0
Set = Map (Unit {0})

abbrev pub Has : Str → Set → Type 0
Has n set = get n set ≡ some tt

Has-if :
    (n m : Str) (set : Set) (g : Option (Unit {0}))
    → g ≡ (if str_eq n m then some tt else get n set)
    → (g ≡ some tt) ↔ ((n ≡ m) ⊎ Has n set)
Has-if n m set g e = elim (Bool-cases (str_eq n m)) [
  | inl same ↦ (λ _. inl ((str_eq_iff n m).0 same), λ _. e ∙ rw same refl)
  | inr other ↦
      let e1 : g ≡ get n set = e ∙ rw other refl in
      (
        λ h. inr (sym e1 ∙ h),
        λ h. elim h [ inl eq ↦ absurd (let yes = (str_eq_iff n m).1 eq in cc) | inr h1 ↦ e1 ∙ h1 ],
      )
]

Has-insert : (n m : Str) (set : Set) → Has n (insert m tt set) ↔ ((n ≡ m) ⊎ Has n set)
Has-insert n m set = Has-if n m set (get n (insert m tt set)) (get-insert n m tt set)

Has-cons : (n m : Str) (set : Set) → Has n ((m, tt) ∷ set) ↔ ((n ≡ m) ⊎ Has n set)
unfolding get
Has-cons n m set = Has-if n m set (get n ((m, tt) ∷ set)) refl

extend_set-Sorted : (set new : Set) → Sorted set → Sorted (extend_set set new)
unfolding extend_set
extend_set-Sorted set [] h = h
extend_set-Sorted set ((m, _) ∷ new) h =
    extend_set-Sorted (insert m tt set) new (insert-Sorted m tt set h)

Has-nil : (n : Str) → Has n [] → ⊥
unfolding get
Has-nil n h = cc

Has-extend_set : (n : Str) (set new : Set) → Has n (extend_set set new) ↔ (Has n set ⊎ Has n new)
unfolding extend_set
Has-extend_set n set [] = (inl, λ h. elim h [ inl h1 ↦ h1 | inr h1 ↦ absurd (Has-nil n h1) ])
Has-extend_set n set ((m, _) ∷ new) =
    let (there, back) = Has-extend_set n (insert m tt set) new in
    let (put, got) = Has-insert n m set in
    let (front, at) = Has-cons n m new in
    (
      λ h. elim (there h) [
        | inl h1 ↦ elim (put h1) [ inl e ↦ inr (at (inl e)) | inr h2 ↦ inl h2 ]
        | inr h1 ↦ inr (at (inr h1))
      ],
      λ h. elim h [
        | inl h1 ↦ back (inl (got (inr h1)))
        | inr h1 ↦ elim (front h1) [ inl e ↦ back (inl (got (inl e))) | inr h2 ↦ back (inr h2) ]
      ],
    )

abbrev pub Among : Str → List Str → Type 0
Among n [] = ⊥
Among n (m ∷ ms) = (n ≡ m) ⊎ Among n ms

Among-append : (n : Str) (ms ns : List Str) → Among n (ms ++ ns) ↔ (Among n ms ⊎ Among n ns)
Among-append n [] ns = (inr, λ h. elim h [ inl bad ↦ absurd bad | inr h1 ↦ h1 ])
Among-append n (m ∷ ms) ns =
    let (there, back) = Among-append n ms ns in
    (
      λ h. elim h [
        | inl e ↦ inl (inl e)
        | inr h1 ↦ elim (there h1) [ inl h2 ↦ inl (inr h2) | inr h2 ↦ inr h2 ]
      ],
      λ h. elim h [
        | inl h1 ↦ elim h1 [ inl e ↦ inl e | inr h2 ↦ inr (back (inl h2)) ]
        | inr h1 ↦ inr (back (inr h1))
      ],
    )

-- The set has just the names that are listed.
abbrev pub Holds : Set → List Str → Type 0
Holds set names = (n : Str) → Has n set ↔ Among n names

Holds-extend_set :
    (set new : Set) (ms ns : List Str)
    → Holds set ms
    → Holds new ns
    → Holds (extend_set set new) (ms ++ ns)
Holds-extend_set set new ms ns old add n =
    let (there, back) = Has-extend_set n set new in
    let (split, merge) = Among-append n ms ns in
    (
      λ h. merge (elim (there h) [ inl h1 ↦ inl ((old n).0 h1) | inr h1 ↦ inr ((add n).0 h1) ]),
      λ h. back (elim (split h) [ inl h1 ↦ inl ((old n).1 h1) | inr h1 ↦ inr ((add n).1 h1) ]),
    )

module _ {G U : Type 0} where
  abbrev pub NameOf : Result G (Reference G U) → Str → Type 0
  NameOf r n = namespace_item r ≡ ok n

  collect_set-Holds :
      (refs : List (Result G (Reference G U))) {set : Set}
      → collect_set refs ≡ ok set
      → (names : List Str) × Pairs NameOf refs names × Sorted set × Holds set names
  unfolding collect_set get
  collect_set-Holds [] h =
      rw (← ok-injective h) ([], tt, tt, λ n. (λ h1. absurd (cc), λ bad. absurd bad))
  collect_set-Holds (x ∷ xs) h =
      let (m, e1, h1) = bind-eq-ok (namespace_item x) _ h in
      let (set1, e2, h2) = bind-eq-ok (collect_set xs) _ h1 in
      let (names, pairs, sorted, holds) = collect_set-Holds xs e2 in
      rw (← ok-injective h2) (
        m ∷ names,
        (e1, pairs),
        insert-Sorted m tt set1 sorted,
        λ n. (
          λ g. elim ((Has-insert n m set1).0 g) [ inl e ↦ inl e | inr g1 ↦ inr ((holds n).0 g1) ],
          λ g. (Has-insert n m set1).1 (elim g [ inl e ↦ inl e | inr g1 ↦ inr ((holds n).1 g1) ]),
        ),
      )

module _ {G U : Type 0} (repo : GitRepo G U) where
  -- The references that match the glob, with no regard to the namespace of the repository.
  abbrev pub Globbed : QualifiedPattern → List (Result G (Reference G U)) → Type 0
  Globbed glob refs = repo.references_glob glob.inner ≡ ok refs

  -- The set is that of the namespaces of all references that match a glob, besides those given.
  abbrev pub Namespaces : List Str → List QualifiedPattern → Set → Type 0
  Namespaces ms globs set =
      (lists : List (List (Result G (Reference G U)))) × Pairs Globbed globs lists
      × ((names : List Str) × Pairs NameOf (flatten lists) names
          × Sorted set
          × Holds set (ms ++ names))

  extend_all-Namespaces :
      (set : Set) (ms : List Str) (globs : List QualifiedPattern) {t : Set}
      → Sorted set
      → Holds set ms
      → extend_all repo set globs ≡ ok t
      → Namespaces ms globs t
  unfolding extend_all
  extend_all-Namespaces set ms [] sorted holds h =
      let same = ok-injective h in
      (
        [],
        tt,
        (
          [],
          tt,
          subst Sorted same sorted,
          subst (λ t. Holds t (ms ++ [])) same (rw (append-nil ms) holds),
        ),
      )
  extend_all-Namespaces set ms (glob ∷ globs) {t} sorted holds h =
      let (refs, e1, h1) =
        bind-eq-ok (map_err (λ e. failed (RepoError.git e)) (repo.references_glob glob.inner)) _
          h in
      let (new, e2, h2) = bind-eq-ok (collect_set refs) _ h1 in
      let (ns, pairs, _, add) = collect_set-Holds refs e2 in
      let (lists, all, (names, more, sorted1, holds1)) =
        extend_all-Namespaces (extend_set set new) (ms ++ ns) globs
          (extend_set-Sorted set new sorted) (Holds-extend_set set new ms ns holds add) h2 in
      (
        refs ∷ lists,
        (map_err-ok (λ e. failed (RepoError.git e)) (repo.references_glob glob.inner) e1, all),
        (
          ns ++ names,
          Pairs-append NameOf refs (flatten lists) ns names pairs more,
          sorted1,
          subst (λ l. Holds t l) (append_assoc ms ns names) holds1,
        ),
      )

  -- The namespaces that are listed are those of the references that match a glob, each once, in the
  -- order of their names; the globs are not put into the namespace of the repository.
  pub repo_namespaces-Namespaces :
      (pattern : Glob RefType.namespace) {set : Set}
      → repo_namespaces repo pattern ≡ ok set
      → Namespaces [] pattern.globs set
  unfolding repo_namespaces get
  repo_namespaces-Namespaces pattern h =
      extend_all-Namespaces [] [] pattern.globs tt
        (λ n. (λ g. absurd (Has-nil n g), λ bad. absurd bad)) h
