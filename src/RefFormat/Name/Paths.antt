-- ===== src/RefFormat/Name/Paths.antt =====
-- `pop` and `strip_prefix` of core/src/name.rs against `push` and `join`.
use radicle_git.Base.{
  ℕ, ◌≡◌, refl, sym, ap, ap₂, ◌∙◌, ◌≢◌, ◌↔◌, inl, inr, Bool, true, false, List, [], ◌∷◌, ◌++◌,
  append_assoc, Option, none, some, Option-cases, Str, codes, rfind, rfind-append, rfind-lacks,
  rfind→append, truncate, truncate-append, strip_prefix_iff, Lacks, arith,
}
use radicle_git.Base
use radicle_git.RefFormat.Name.{RefStr, slash, push, push_lem, join, pop, strip_prefix}

-- `pop` undoes a `push` of one component.
pub pop-push : (a b : RefStr) → Lacks slash b → pop (push a b) ≡ (a, true)
unfolding pop
pop-push a b h =
    ap pop (push_lem a b)
    ∙ rw (pop, rfind-append slash a b h) (ap (λ s. (s, true)) (truncate-append a (slash ∷ b)))

-- A name of one component is left as it is.
pub pop-Lacks : (s : RefStr) → Lacks slash s → pop s ≡ (s, false)
unfolding pop
pop-Lacks s h = rw (pop, rfind-lacks slash s h)

pub pop→append :
    (s t : RefStr) → pop s ≡ (t, true) → (b : RefStr) × (s ≡ t ++ slash ∷ b) × Lacks slash b
unfolding pop
pop→append s t h = elim (Option-cases (rfind slash s)) [
  | inl e ↦ absurd (ground arith)
  | inr (i, e) ↦
      let (b, cut, lacks) = rfind→append slash s e in
      let same : truncate i s ≡ t = ground arith in (b, cut ∙ ap (λ a. a ++ slash ∷ b) same, lacks)
]

strip_prefix→join : (s base r : RefStr) → strip_prefix s base ≡ some r → s ≡ join base r
unfolding strip_prefix join
strip_prefix→join s base r h = elim (Option-cases (Base.strip_prefix base s)) [
  | inl e ↦ absurd (ground arith)
  | inr (t, e) ↦
      ground (arith, strip_prefix_iff base s t, strip_prefix_iff (slash ∷ []) t r, push_lem base r)
]

strip_prefix-join : (base r : RefStr) → strip_prefix (join base r) base ≡ some r
unfolding strip_prefix join
strip_prefix-join base r =
    rw
      (
        push_lem base r,
        strip_prefix,
        (strip_prefix_iff base (base ++ slash ∷ r) (slash ∷ r)).1 refl,
      )
      ((strip_prefix_iff (slash ∷ []) (slash ∷ r) r).1 refl)

-- What `strip_prefix` returns, joined to the prefix, is the name, and nothing else is returned.
pub strip_prefix-join_iff : (s base r : RefStr) → (strip_prefix s base ≡ some r) ↔ (s ≡ join base r)
strip_prefix-join_iff s base r = (strip_prefix→join s base r, λ e. rw e (strip_prefix-join base r))
