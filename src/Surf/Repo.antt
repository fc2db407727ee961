-- ===== src/Surf/Repo.antt =====
-- radicle-surf/src/repo.rs: the references of a repository that match globs.
pub mod Scope
pub mod Listing
pub mod Namespaces
mod Tests
use radicle_git.Base.{
  List, [], ◌∷◌, ◌++◌, Option, none, some, Result, ok, err, map_ok, map_err, ok_or, ◌>>=◌, Str,
}
use radicle_git.Base.Map.{Map, insert}
use radicle_git.RefFormat.Name.{RefString, try_from}
use radicle_git.RefFormat.Deriv.{Qualified, to_namespaced}
use radicle_git.RefFormat.Refspec.{QualifiedPattern, NamespacedPattern}
use radicle_git.Surf.Branch.{Failure, failed, unwind, run}
use radicle_git.Surf.Glob.{Glob, RefType}
use radicle_git.Surf.Namespace.{
  Namespace, NamespaceError, empty_namespace, utf8_error, namespace_try_from, add_namespaces,
  into_qualified, namespace_of, to_namespaced_pattern,
}
use radicle_git.Surf.Refs.{Lists, lists_default, push_list, Iter}
use radicle_git.Surf.Tag.{Reference, map_failure}

-- The repository of libgit2: its namespace, and the references that match a pattern.
pub record GitRepo (G U : Type 0) : Type 0 where
  pub namespace_bytes : Option (Result U Str)
  pub references_glob : Str → Result G (List (Result G (Reference G U)))

-- The errors of lib.rs that these functions meet.
pub data RepoError (G U : Type 0) : Type 0 where
  git : G → RepoError G U
  namespace : NamespaceError U → RepoError G U

module _ {G U : Type 0} (repo : GitRepo G U) where
  -- `Repository::which_namespace`
  unfoldable pub which_namespace : Result (RepoError G U) (Option Namespace)
  unfolding namespace_try_from
  which_namespace = elim (repo.namespace_bytes) [
    | none ↦ ok none
    | some ns ↦ map_ok some (map_err RepoError.namespace (namespace_try_from ns))
  ]

  -- `Repository::namespaced_refname`
  unfoldable pub namespaced_refname : Qualified → Result (Failure (RepoError G U)) Qualified
  unfolding which_namespace add_namespaces
  namespaced_refname refname = map_err failed which_namespace >>= λ found. elim found [
    | some ns ↦ unwind (map_ok into_qualified (add_namespaces ns refname))
    | none ↦ ok refname
  ]

  -- `Repository::namespaced_pattern`, with `NamespacedPattern::into_qualified`
  unfoldable pub namespaced_pattern :
      QualifiedPattern → Result (Failure (RepoError G U)) QualifiedPattern
  unfolding which_namespace to_namespaced_pattern
  namespaced_pattern refname = map_err failed which_namespace >>= λ found. elim found [
    | some ns ↦ unwind (
        map_ok (λ (n : NamespacedPattern). record { inner = n.inner })
          (to_namespaced_pattern ns refname))
    | none ↦ ok refname
  ]

  -- The loop over the globs of `branches`, `tags` and `categories`.
  unfoldable pub push_all :
      Iter G U → List QualifiedPattern → Result (Failure (RepoError G U)) (Iter G U)
  unfolding namespaced_pattern push_list
  push_all s [] = ok s
  push_all s (glob ∷ globs) = do
    namespaced ← namespaced_pattern glob
    references ← map_err (λ e. failed (RepoError.git e)) (repo.references_glob namespaced.inner)
    push_all (push_list s references) globs

  -- `Repository::branches`
  unfoldable pub branches : Glob RefType.branch → Result (Failure (RepoError G U)) (Iter G U)
  unfolding push_all
  branches pattern = push_all lists_default pattern.globs

  -- `Repository::tags`
  unfoldable pub repo_tags : Glob RefType.tag → Result (Failure (RepoError G U)) (Iter G U)
  unfolding push_all
  repo_tags pattern = push_all lists_default pattern.globs

  -- `Repository::categories`
  unfoldable pub repo_categories :
      Glob RefType.qualified → Result (Failure (RepoError G U)) (Iter G U)
  unfolding push_all
  repo_categories pattern = push_all lists_default pattern.globs

module _ {G U : Type 0} where
  -- `TryFrom<&git2::Reference> for Namespace`
  unfoldable pub namespace_of_reference :
      Reference G U → Result (Failure (NamespaceError U)) RefString
  unfolding namespace_of
  namespace_of_reference r = do
    s ← map_err (λ u. failed (utf8_error u)) r.name
    name ← map_err (λ e. failed (NamespaceError.ref_format_error e)) (try_from s)
    n ← ok_or (failed empty_namespace) (to_namespaced name)
    run (namespace_of n)

  -- The items of the iterator, and the closure for them.
  unfoldable pub namespace_item :
      Result G (Reference G U) → Result (Failure (RepoError G U)) RefString
  unfolding namespace_of_reference
  namespace_item res = do
    r ← map_err (λ e. failed (RepoError.git e)) res
    map_err (map_failure RepoError.namespace) (namespace_of_reference r)

  -- `collect` of the iterator as a `BTreeSet` of namespaces, which is ordered by their names
  unfoldable pub collect_set :
      List (Result G (Reference G U)) → Result (Failure (RepoError G U)) (Map (Unit {0}))
  unfolding namespace_item insert
  collect_set [] = ok []
  collect_set (x ∷ xs) = do n ← namespace_item x; set ← collect_set xs; ok (insert n tt set)

-- `BTreeSet::extend`
unfoldable pub extend_set : Map (Unit {0}) → Map (Unit {0}) → Map (Unit {0})
unfolding insert
extend_set set [] = set
extend_set set ((n, _) ∷ new) = extend_set (insert n tt set) new

module _ {G U : Type 0} (repo : GitRepo G U) where
  -- The loop over the globs of `namespaces`.
  unfoldable pub extend_all :
      Map (Unit {0}) → List QualifiedPattern → Result (Failure (RepoError G U)) (Map (Unit {0}))
  unfolding collect_set extend_set
  extend_all set [] = ok set
  extend_all set (glob ∷ globs) = do
    references ← map_err (λ e. failed (RepoError.git e)) (repo.references_glob glob.inner)
    new ← collect_set references
    extend_all (extend_set set new) globs

  -- `Repository::namespaces`, whose iterator is that of the set
  unfoldable pub repo_namespaces :
      Glob RefType.namespace → Result (Failure (RepoError G U)) (Map (Unit {0}))
  unfolding extend_all
  repo_namespaces pattern = extend_all [] pattern.globs
