-- ===== src/Surf/Repo/Scope.antt =====
-- The namespace of a repository around a pattern (radicle-surf/src/repo.rs).
use radicle_git.Base.{
  ◌≡◌, sym, ap, ◌∙◌, inl, inr, Option, none, some, Option-cases, Result, ok, map_ok, map_err,
  map_err-ok, map_ok-ok, bind-eq-ok, ok-injective, Str,
}
use radicle_git.RefFormat.Name.{iter, try_from}
use radicle_git.RefFormat.Refspec.{PatternStr, QualifiedPattern, NamespacedPattern}
use radicle_git.Surf.Branch.{Failure, failed}
use radicle_git.Surf.Branch.Shape.{unwind-ok}
use radicle_git.Surf.Namespace.{
  Namespace, NamespaceError, utf8_error, namespace_from_str, namespace_try_from,
  to_namespaced_pattern,
}
use radicle_git.Surf.Namespace.Patterns.{within, to_namespaced_pattern-text}
use radicle_git.Surf.Tag.Refname.{try_from-same}
use radicle_git.Surf.Repo.{GitRepo, RepoError, which_namespace, namespaced_pattern}

-- The full text of a pattern: with no namespace the pattern, and else the pattern behind
-- refs/namespaces/<component>/ for each component of the namespace, which is a valid name.
abbrev pub InNamespace : {U : Type 0} → Option (Result U Str) → PatternStr → PatternStr → Type 0
InNamespace none glob full = full ≡ glob
InNamespace (some bytes) glob full =
    (s : Str) × (bytes ≡ ok s) × (try_from s ≡ ok s) × (full ≡ within (iter s) glob)

module _ {U : Type 0} where
  namespace_try_from-valid :
      (bytes : Result U Str) {ns : Namespace}
      → namespace_try_from bytes ≡ ok ns
      → (bytes ≡ ok ns.namespaces) × (try_from ns.namespaces ≡ ok ns.namespaces)
  unfolding namespace_try_from namespace_from_str
  namespace_try_from-valid bytes {ns} h =
      let (s, e1, h1) = bind-eq-ok (map_err utf8_error bytes) _ h in
      let read = map_err-ok {F = NamespaceError U} utf8_error bytes e1 in
      let made =
        map_err-ok {F = NamespaceError U} NamespaceError.ref_format_error (namespace_from_str s)
          h1 in
      let (r, valid, same) = map_ok-ok (λ r. record { namespaces = r }) (try_from s) made in
      let eq : s ≡ ns.namespaces =
        sym (try_from-same s valid) ∙ ap (λ (k : Namespace). k.namespaces) same in
      (read ∙ ap ok eq, ap try_from (sym eq) ∙ valid ∙ ap ok (try_from-same s valid ∙ eq))

module _ {G U : Type 0} (repo : GitRepo G U) where
  which_namespace-some :
      (bytes : Result U Str) {found : Option Namespace}
      → repo.namespace_bytes ≡ some bytes
      → which_namespace repo ≡ ok found
      → (ns : Namespace) × (found ≡ some ns)
        × (bytes ≡ ok ns.namespaces)
        × (try_from ns.namespaces ≡ ok ns.namespaces)
  unfolding which_namespace
  which_namespace-some bytes e h =
      let h1 = (rw (which_namespace, e) at h) in
      let (ns, made, same) =
        map_ok-ok some (map_err RepoError.namespace (namespace_try_from bytes)) h1 in
      let (read, valid) =
        namespace_try_from-valid bytes
          (map_err-ok {F = RepoError G U} RepoError.namespace (namespace_try_from bytes) made) in
      (ns, sym same, read, valid)

  which_namespace-none :
      {found : Option Namespace}
      → repo.namespace_bytes ≡ none
      → which_namespace repo ≡ ok found
      → found ≡ none
  unfolding which_namespace
  which_namespace-none e h = sym (ok-injective (rw (which_namespace, e) at h))

  pub namespaced_pattern-InNamespace :
      (glob : QualifiedPattern) {full : QualifiedPattern}
      → namespaced_pattern repo glob ≡ ok full
      → InNamespace repo.namespace_bytes glob.inner full.inner
  unfolding namespaced_pattern
  namespaced_pattern-InNamespace glob {full} h =
      let (found, e1, h1) = bind-eq-ok (map_err failed (which_namespace repo)) _ h in
      let which = map_err-ok {F = Failure (RepoError G U)} failed (which_namespace repo) e1 in
      elim (Option-cases (repo.namespace_bytes)) [
        | inl e ↦
            let h2 = (rw (which_namespace-none e which) at h1) in
            rw e (ap (λ (k : QualifiedPattern). k.inner) (sym (ok-injective h2)))
        | inr (bytes, e) ↦
            let (ns, is, read, valid) = which_namespace-some bytes e which in
            let h2 = (rw is at h1) in
            let (n, made, same) =
              map_ok-ok (λ (n : NamespacedPattern). record { inner = n.inner })
                (to_namespaced_pattern ns glob)
                (unwind-ok
                  (map_ok (λ (n : NamespacedPattern). record { inner = n.inner })
                    (to_namespaced_pattern ns glob))
                  h2) in
            rw e (
              ns.namespaces,
              read,
              valid,
              ap (λ (k : QualifiedPattern). k.inner) (sym same)
                  ∙ to_namespaced_pattern-text ns glob valid made,
            )
      ]
