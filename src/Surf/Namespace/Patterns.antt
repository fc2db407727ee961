-- ===== src/Surf/Namespace/Patterns.antt =====
-- The text of a pattern in a namespace (radicle-surf/src/namespace.rs).
use mathlib.Core.List.{reverse, reverse_aux, reverse-reverse}
use radicle_git.Base.{
  err, ok-injective, ◌+◌, ◌≤◌, leb, ◌≡◌, ◌≢◌, refl, sym, ap, ◌∙◌, true, false, if◌then◌else◌, List,
  [], ◌∷◌, ◌++◌, map, ok, Str, codes, contains, str_eq, All, split, Lacks, All-Lacks-split,
  split-join_with, join_with-split, arith, inl, inr, Bool-cases,
}
use radicle_git.RefFormat.Name.{expect_failed, RefStr, slash, refs, namespaces, iter, try_from}
use radicle_git.RefFormat.Refspec.{
  PatternStr, normal, as_str, is_glob, piece_of, pieces, QualifiedPattern, NamespacedPattern,
  expect, pattern_with_namespace,
}
use radicle_git.RefFormat.Refspec.Pieces.{globs, globs-le-all_stars}
use radicle_git.RefFormat.Refspec.Namespace.{namespaced_text, pattern_with_namespace-join_with}
use radicle_git.RefFormat.Name.Validity.{try_from→IsRefname}
use radicle_git.Surf.Namespace.{Namespace, wrap_pattern, wrap_all_pattern, to_namespaced_pattern}

-- The text behind a prefix for each of the namespaces, the outermost first.
abbrev pub within : List Str → PatternStr → PatternStr
within [] r = r
within (x ∷ xs) r = codes "refs/namespaces/" ++ (x ++ slash ∷ within xs r)

-- A component of a namespace: it has no separator, and is no glob.
abbrev IsPlain : Str → Type 0
IsPlain x = Lacks slash x × (piece_of x ≡ normal x)

namespaced_text-within :
    (x : Str) (r : PatternStr) → namespaced_text (normal x) r ≡ within (x ∷ []) r
unfolding split as_str
namespaced_text-within x r =
    ap (λ t. codes "refs/namespaces/" ++ (x ++ slash ∷ t)) (join_with-split slash r)

globs-within :
    (x : Str) (r : PatternStr) → IsPlain x → globs (pieces (within (x ∷ []) r)) ≡ globs (pieces r)
unfolding pieces is_glob piece_of str_eq contains iter as_str
globs-within x r (lacks, plain) =
    let cut : split slash (within (x ∷ []) r) ≡ refs ∷ namespaces ∷ x ∷ split slash r =
      ap (split slash) (sym (namespaced_text-within x r))
      ∙ split-join_with slash refs _ (refl, (refl, (lacks, All-Lacks-split slash r))) in
    let sum = ap (λ p. (if is_glob p then 1 else 0) + globs (map piece_of (split slash r))) plain in
    ap (λ l. globs (map piece_of l)) cut ∙ omega (arith, sum)

with_namespace-within :
    (x : Str) (r : PatternStr)
    → IsPlain x
    → globs (pieces r) ≤ 1
    → expect (pattern_with_namespace (record { inner = r }) (piece_of x))
      ≡ ok (record { inner = within (x ∷ []) r })
unfolding is_glob
with_namespace-within x r (lacks, plain) few =
    let fits : leb (globs (normal x ∷ pieces r)) 1 ≡ true = ground (arith, few) in
    rw (plain, pattern_with_namespace-join_with r (normal x), fits, namespaced_text-within x r) refl

wrap_pattern-within :
    (xs ys : List Str) (r : PatternStr)
    → All IsPlain xs
    → globs (pieces (within ys r)) ≤ 1
    → wrap_pattern (record { inner = within ys r }) (map piece_of xs)
      ≡ ok (record { inner = within (reverse_aux xs ys) r })
unfolding wrap_pattern
wrap_pattern-within [] ys r plain few = refl
wrap_pattern-within (x ∷ xs) ys r plain few =
    rw (wrap_pattern, with_namespace-within x (within ys r) plain.0 few)
      (wrap_pattern-within xs (x ∷ ys) r plain.1 (rw (globs-within x (within ys r) plain.0) few))

wrap_all_pattern-within :
    (xs : List Str) (r : PatternStr)
    → xs ≢ []
    → All IsPlain xs
    → globs (pieces r) ≤ 1
    → wrap_all_pattern (record { inner = r }) (map piece_of xs)
      ≡ ok (record { inner = within (reverse xs) r })
unfolding wrap_all_pattern
wrap_all_pattern-within [] r ne plain few = absurd (ne refl)
wrap_all_pattern-within (x ∷ xs) r ne plain few =
    rw (wrap_all_pattern, with_namespace-within x r plain.0 few)
      (wrap_pattern-within xs (x ∷ []) r plain.1 (rw (globs-within x r plain.0) few))

map-reverse_aux :
    (xs : List Str) (ys : List Str)
    → map piece_of (reverse_aux xs ys) ≡ reverse_aux (map piece_of xs) (map piece_of ys)
map-reverse_aux [] ys = refl
map-reverse_aux (x ∷ xs) ys = map-reverse_aux xs (x ∷ ys)

All-reverse_aux :
    (xs ys : List Str) → All IsPlain xs → All IsPlain ys → All IsPlain (reverse_aux xs ys)
All-reverse_aux [] ys hx hy = hy
All-reverse_aux (x ∷ xs) ys hx hy = All-reverse_aux xs (x ∷ ys) hx.1 (hx.0, hy)

piece_of-normal : (x : Str) → is_glob (piece_of x) ≡ false → piece_of x ≡ normal x
unfolding piece_of is_glob
piece_of-normal x h = ground arith

All-IsPlain : (xs : List Str) → All (Lacks slash) xs → globs (map piece_of xs) ≡ 0 → All IsPlain xs
unfolding is_glob
All-IsPlain [] h none_glob = tt
All-IsPlain (x ∷ xs) h none_glob = elim (Bool-cases (is_glob (piece_of x))) [
  | inl e ↦ absurd (let n = (rw e at none_glob) in omega (arith, n))
  | inr e ↦ (
    (h.0, piece_of-normal x e),
    All-IsPlain xs h.1 (let n = (rw e at none_glob) in omega (arith, n)),
  )
]

split-ne-nil : (s : RefStr) → split slash s ≢ []
unfolding split
split-ne-nil s e = cc

no_globs : (s : RefStr) → try_from s ≡ ok s → globs (map piece_of (split slash s)) ≡ 0
no_globs s h =
    let r = try_from→IsRefname s h in
    elim (r.globs) [
      | inl (bad, le) ↦ absurd (cc)
      | inr e ↦ omega (arith, e, globs-le-all_stars (split slash s))
    ]

-- A namespace that is a valid name is put around a pattern of one glob at most with no panic, and
-- the result is the pattern behind refs/namespaces/<component>/ for each component, in order.
pub to_namespaced_pattern-within :
    (ns : Namespace) (q : QualifiedPattern)
    → try_from ns.namespaces ≡ ok ns.namespaces
    → globs (pieces q.inner) ≤ 1
    → to_namespaced_pattern ns q ≡ ok (record { inner = within (iter ns.namespaces) q.inner })
unfolding to_namespaced_pattern pieces iter
to_namespaced_pattern-within ns q valid few =
    let xs = split slash ns.namespaces in
    let plain =
      All-IsPlain xs (All-Lacks-split slash ns.namespaces) (no_globs ns.namespaces valid) in
    let ne : reverse xs ≢ [] =
      λ e. split-ne-nil ns.namespaces (sym (reverse-reverse xs) ∙ ap reverse e) in
    ap (wrap_all_pattern q) (sym (map-reverse_aux xs []))
    ∙ wrap_all_pattern-within (reverse xs) q.inner ne (All-reverse_aux xs [] plain tt) few
    ∙ ap (λ l. ok (record { inner = within l q.inner })) (reverse-reverse xs)

with_namespace-many :
    (x : Str) (r : PatternStr)
    → IsPlain x
    → leb (globs (pieces r)) 1 ≡ false
    → expect (pattern_with_namespace (record { inner = r }) (piece_of x)) ≡ err expect_failed
unfolding is_glob
with_namespace-many x r (lacks, plain) many =
    let more : leb (globs (normal x ∷ pieces r)) 1 ≡ false = ground (arith, many) in
    rw (plain, pattern_with_namespace-join_with r (normal x), more) refl

wrap_all_pattern-many :
    (xs : List Str) (r : PatternStr)
    → xs ≢ []
    → All IsPlain xs
    → leb (globs (pieces r)) 1 ≡ false
    → wrap_all_pattern (record { inner = r }) (map piece_of xs) ≡ err expect_failed
unfolding wrap_all_pattern
wrap_all_pattern-many [] r ne plain many = absurd (ne refl)
wrap_all_pattern-many (x ∷ xs) r ne plain many =
    rw (wrap_all_pattern, with_namespace-many x r plain.0 many) refl

to_namespaced_pattern-many :
    (ns : Namespace) (q : QualifiedPattern)
    → try_from ns.namespaces ≡ ok ns.namespaces
    → leb (globs (pieces q.inner)) 1 ≡ false
    → to_namespaced_pattern ns q ≡ err expect_failed
unfolding to_namespaced_pattern pieces
to_namespaced_pattern-many ns q valid many =
    let xs = split slash ns.namespaces in
    let plain =
      All-IsPlain xs (All-Lacks-split slash ns.namespaces) (no_globs ns.namespaces valid) in
    let ne : reverse xs ≢ [] =
      λ e. split-ne-nil ns.namespaces (sym (reverse-reverse xs) ∙ ap reverse e) in
    ap (wrap_all_pattern q) (sym (map-reverse_aux xs []))
    ∙ wrap_all_pattern-many (reverse xs) q.inner ne (All-reverse_aux xs [] plain tt) many

-- Whatever the pattern is: where it is put in a namespace with no panic, it has that text.
pub to_namespaced_pattern-text :
    (ns : Namespace) (q : QualifiedPattern) {n : NamespacedPattern}
    → try_from ns.namespaces ≡ ok ns.namespaces
    → to_namespaced_pattern ns q ≡ ok n
    → n.inner ≡ within (iter ns.namespaces) q.inner
to_namespaced_pattern-text ns q valid h = elim (Bool-cases (leb (globs (pieces q.inner)) 1)) [
  | inl few ↦
      ap (λ (k : NamespacedPattern). k.inner)
        (ok-injective (sym h ∙ to_namespaced_pattern-within ns q valid (ground (arith, few))))
  | inr many ↦ absurd (let bad = sym h ∙ to_namespaced_pattern-many ns q valid many in cc)
]
