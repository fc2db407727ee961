-- ===== src/RefFormat/Refspec/Namespace.antt =====
-- `NamespacedPattern` of core/src/refspec.rs: namespaces around patterns, added and stripped.
use radicle_git.Base.{
  ℕ, zero, suc, ◌+◌, ◌≤◌, ◌<◌, ◌≡◌, refl, sym, ap, ◌∙◌, inl, inr, List, [], ◌∷◌, ◌++◌, map, none,
  some, Option-cases, leb, if◌then◌else◌, Bool-cases, ok, err, length, Str, str_eq, contains, split,
  join_with, split-join_with, Lacks, arith,
}
use radicle_git.RefFormat.Check.Spec.{all_stars}
use radicle_git.RefFormat.Name.{slash, refs, namespaces, iter}
use radicle_git.RefFormat.Deriv.{has_category, has_namespace, from_refstr, to_namespaced}
use radicle_git.RefFormat.Deriv.Category.{HasPieces, from_refstr→HasPieces}
use radicle_git.RefFormat.Deriv.Namespace.{
  HasNamespace, to_namespaced→HasNamespace, stripped, iter-stripped, pieces-Lacks,
}
use radicle_git.RefFormat.Refspec.{
  PatternStr, Piece, normal, as_str, piece_of, pieces, duplicate_glob, is_glob, QualifiedPattern,
  NamespacedPattern, from_patternstr, pattern_to_namespaced, pattern_with_namespace, strip_pattern,
  strip_pattern_loop, strip_pattern_recursive, try_pattern,
}
use radicle_git.RefFormat.Refspec.Pieces.{
  strs-map, globs, globs-le-all_stars, from_pieces-join_with, from_pieces-map, from_pieces-globs,
}
use radicle_git.RefFormat.Refspec.Validity.{try_pattern→IsRefname, one_glob}

-- The tests on the pieces are those of names.
pub patternstr→HasPieces :
    (r : PatternStr) {q : QualifiedPattern}
    → from_patternstr r ≡ some q
    → HasPieces r × (q ≡ record { inner = r })
unfolding from_patternstr from_refstr iter
patternstr→HasPieces r h = elim (Bool-cases (has_category (split slash r))) [
  | inl e ↦ ((from_refstr→HasPieces r {q = record { inner = r }} (rw e refl)).0, ground arith)
  | inr e ↦ absurd (ground arith)
]

pattern→HasNamespace :
    (r : PatternStr) {n : NamespacedPattern}
    → pattern_to_namespaced r ≡ some n
    → HasNamespace r × (n ≡ record { inner = r })
unfolding pattern_to_namespaced to_namespaced iter
pattern→HasNamespace r h = elim (Bool-cases (has_namespace (split slash r))) [
  | inl e ↦ ((to_namespaced→HasNamespace r {n = record { inner = r }} (rw e refl)).0, ground arith)
  | inr e ↦ absurd (ground arith)
]

HasNamespace→pattern :
    {r : PatternStr} → HasNamespace r → pattern_to_namespaced r ≡ some (record { inner = r })
unfolding pattern_to_namespaced iter str_eq has_namespace
HasNamespace→pattern h = rw h.pieces refl

-- What is stripped of its namespace has no more globs.
strip_pattern-stripped :
    {r : PatternStr} (h : HasNamespace r)
    → all_stars (split slash r) ≤ 1
    → strip_pattern (record { inner = r }) ≡ ok (stripped h)
unfolding strip_pattern pieces iter
strip_pattern-stripped {r} h few =
    let fewer : globs (map piece_of (refs ∷ h.others)) ≤ 1 =
      omega (arith, ap all_stars h.pieces, globs-le-all_stars (refs ∷ h.others)) in
    rw (h.pieces, from_pieces-map refs h.others fewer) refl

strip_pattern-pieces :
    (full r : PatternStr) {a b c : Str}
    → split slash full ≡ a ∷ b ∷ c ∷ split slash r
    → globs (pieces r) ≤ 1
    → strip_pattern (record { inner = full }) ≡ ok r
unfolding strip_pattern pieces
strip_pattern-pieces full r h few = rw (h, from_pieces-globs r few) refl

-- What `with_namespace` collects.
abbrev pub namespaced_text : Piece → PatternStr → PatternStr
namespaced_text ns r = join_with slash (refs ∷ namespaces ∷ as_str ns ∷ split slash r)

pub pattern_with_namespace-join_with :
    (r : PatternStr) (ns : Piece)
    → pattern_with_namespace (record { inner = r }) ns ≡ (
        if leb (globs (ns ∷ pieces r)) 1
        then ok (record { inner = namespaced_text ns r })
        else err duplicate_glob)
unfolding pattern_with_namespace pieces is_glob as_str
pattern_with_namespace-join_with r ns = ground (
  arith,
  from_pieces-join_with (normal refs) (normal namespaces ∷ ns ∷ map piece_of (split slash r)),
  strs-map (split slash r),
)

-- A namespace around a qualified pattern: with one glob at most among it and the components of the
-- pattern, the result passes for namespaced and is the pattern again once stripped; with more it
-- is refused.
pub strip_pattern-with_namespace :
    (r : PatternStr) (ns : Piece) {q : QualifiedPattern}
    → from_patternstr r ≡ some q
    → Lacks slash (as_str ns)
    → (globs (ns ∷ pieces r) ≤ 1
        → (n : NamespacedPattern) × (pattern_with_namespace q ns ≡ ok n)
          × (pattern_to_namespaced n.inner ≡ some n)
          × (strip_pattern n ≡ ok r))
      × (1 < globs (ns ∷ pieces r) → pattern_with_namespace q ns ≡ err duplicate_glob)
unfolding contains iter
strip_pattern-with_namespace r ns {q} h lacks =
    let (p, e) = patternstr→HasPieces r h in
    let full : PatternStr = namespaced_text ns r in
    let cut : split slash full ≡ refs ∷ namespaces ∷ as_str ns ∷ split slash r =
      split-join_with slash refs _ (refl, (refl, (lacks, pieces-Lacks r refl))) in
    let named : HasNamespace full = record {
      name = as_str ns;
      others = p.category ∷ p.name ∷ p.others;
      pieces = cut ∙ ap (λ l. refs ∷ namespaces ∷ as_str ns ∷ l) p.pieces;
    } in
    let made = ap (λ k. pattern_with_namespace k ns) e ∙ pattern_with_namespace-join_with r ns in
    (
      λ few. (
        record { inner = full },
        ground arith,
        HasNamespace→pattern named,
        strip_pattern-pieces full r cut (omega arith),
      ),
      λ many. ground arith,
    )

less_globs :
    {r : PatternStr} (h : HasNamespace r)
    → all_stars (split slash r) ≤ 1
    → all_stars (split slash (stripped h)) ≤ 1
unfolding iter
less_globs h few = omega (arith, ap all_stars h.pieces, ap all_stars (iter-stripped h))

-- `p` is what is left of `r` behind some of its components.
abbrev pub EndsIn : PatternStr → PatternStr → Type 0
EndsIn r p = (front : List Str) × (split slash r ≡ front ++ split slash p)

length-stripped :
    {r : PatternStr} (h : HasNamespace r)
    → length (split slash (stripped h)) + 3 ≡ length (split slash r)
unfolding iter
length-stripped h = omega (arith, ap length (iter-stripped h), ap length h.pieces)

EndsIn-stripped :
    {r : PatternStr} (h : HasNamespace r) (p : PatternStr) → EndsIn (stripped h) p → EndsIn r p
unfolding iter
EndsIn-stripped h p (front, e) = (
  refs ∷ namespaces ∷ h.name ∷ front,
  h.pieces ∙ ap (λ l. refs ∷ namespaces ∷ h.name ∷ l) (sym (iter-stripped h) ∙ e),
)

strip_pattern_loop-none :
    (f : ℕ) (s : PatternStr)
    → pattern_to_namespaced s ≡ none
    → strip_pattern_loop (suc f) s ≡ some (ok s)
unfolding strip_pattern_loop
strip_pattern_loop-none f s e = rw (strip_pattern_loop, e) refl

strip_pattern_loop-some :
    (f : ℕ) (s : PatternStr) {n : NamespacedPattern} {t : PatternStr}
    → pattern_to_namespaced s ≡ some n
    → strip_pattern n ≡ ok t
    → strip_pattern_loop (suc f) s ≡ strip_pattern_loop f t
unfolding strip_pattern_loop
strip_pattern_loop-some f s e h = rw (strip_pattern_loop, e, h) refl

strip_pattern_loop-total :
    (f : ℕ) (s : PatternStr)
    → all_stars (split slash s) ≤ 1
    → length (split slash s) < f
    → (p : PatternStr) × (strip_pattern_loop f s ≡ some (ok p))
      × EndsIn s p
      × (pattern_to_namespaced p ≡ none)
strip_pattern_loop-total zero s few h = absurd (omega arith)
strip_pattern_loop-total (suc f) s few h = elim (Option-cases (pattern_to_namespaced s)) [
  | inl e ↦ (s, strip_pattern_loop-none f s e, ([], refl), e)
  | inr (n, e) ↦
      let (hn, same) = pattern→HasNamespace s e in
      let strip : strip_pattern n ≡ ok (stripped hn) =
        ap strip_pattern same ∙ strip_pattern-stripped hn few in
      let (p, run, ends, done) =
        strip_pattern_loop-total f (stripped hn) (less_globs hn few)
          (omega (arith, length-stripped hn)) in
      (p, strip_pattern_loop-some f s e strip ∙ run, EndsIn-stripped hn p ends, done)
]

-- `strip_namespace_recursive` of a valid pattern ends with no panic, at an end of the pattern that
-- is in no namespace.
pub strip_pattern_recursive-total :
    (r : PatternStr) {n : NamespacedPattern}
    → try_pattern r ≡ ok r
    → pattern_to_namespaced r ≡ some n
    → (p : PatternStr) × (strip_pattern_recursive n ≡ some (ok p))
      × EndsIn r p
      × (pattern_to_namespaced p ≡ none)
unfolding strip_pattern_recursive
strip_pattern_recursive-total r {n} v h =
    let (hn, same) = pattern→HasNamespace r h in
    let few : all_stars (split slash r) ≤ 1 = one_glob (try_pattern→IsRefname r v) in
    let strip : strip_pattern n ≡ ok (stripped hn) =
      ap strip_pattern same ∙ strip_pattern-stripped hn few in
    let fuel = ap (λ (m : NamespacedPattern). length (split slash m.inner)) same in
    let (p, run, ends, done) =
      strip_pattern_loop-total (length (split slash n.inner)) (stripped hn) (less_globs hn few)
        (omega (arith, length-stripped hn)) in
    (p, rw (strip_pattern_recursive, strip) run, EndsIn-stripped hn p ends, done)
