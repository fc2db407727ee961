-- ===== src/Surf/Tag/Refname.antt =====
-- The names of tags (radicle-surf/src/tag.rs): which reference a tag was read from.
use mathlib.Core.Path.{subst}
use radicle_git.Base.{
  ◌≡◌, refl, sym, ap, ap₂, ◌∙◌, inl, inr, List, ◌∷◌, ◌++◌, true, Bool-cases, Result, ok, err,
  map_ok, map_err, map_err-ok, if◌then◌else◌, ok_or, ok_or-ok, ◌>>=◌, bind-eq-ok, Result-cases,
  ok-injective, Str, codes, str_eq, str_eq_iff, join_with,
}
use radicle_git.RefFormat.Check.{ref_format}
use radicle_git.RefFormat.Name.{
  RefString, Component, to_component, slash, refs, tags, collect, try_from, check_opts, join, push,
}
use radicle_git.RefFormat.Name.Components.{inners, collect-join_with}
use radicle_git.RefFormat.Deriv.{
  Qualified, from_refstr, from_refs, non_empty_components, from_category,
}
use radicle_git.RefFormat.Deriv.Category.{non_empty_components-from_refstr}
use radicle_git.RefFormat.Lit.Laws.{from_category-from_refs}
use radicle_git.Surf.Branch.{Failure, failed, unwind, refstr_join}
use radicle_git.Surf.Branch.Names.{refstr_join-join_with}
use radicle_git.Surf.Branch.Shape.{unwind-ok}
use radicle_git.Surf.Tag.{
  Reference, GitTag, Tag, light, annotated, Utf8Or, utf8, named, TagError, author_try_from,
  transpose, map_some, annotated_try_from, tag_of, reference_name, tag_try_from, tag_refname,
  tag_short_name,
}

map_ok_const : {E A B : Type 0} (s : A) (r : Result E B) {n : A} → map_ok (λ _. s) r ≡ ok n → n ≡ s
map_ok_const s (ok a) h = cc
map_ok_const s (err e) h = absurd (cc)

pub try_from-same : (s : Str) {n : RefString} → try_from s ≡ ok n → n ≡ s
unfolding try_from
try_from-same s h = map_ok_const s (ref_format check_opts s) h

from_category-whole :
    (b c : Component) (cs : List Component) {r : RefString} {n : RefString}
    → collect (to_component refs ∷ b ∷ c ∷ cs) ≡ ok r
    → str_eq b.inner tags ≡ true
    → refstr_join c cs ≡ ok n
    → from_category tags n ≡ ok (record { inner = r })
unfolding from_refs join push
from_category-whole b c cs {r} {n} whole is_tags joined =
    let name : join_with slash (inners (c ∷ cs)) ≡ n =
      ok-injective (sym (refstr_join-join_with c cs) ∙ joined) in
    let all : join_with slash (inners (to_component refs ∷ b ∷ c ∷ cs)) ≡ r =
      ok-injective (sym (collect-join_with (to_component refs) (b ∷ c ∷ cs)) ∙ whole) in
    let same : codes "refs/tags/" ++ n ≡ r =
      ap₂ (λ x y. codes "refs/" ++ (x ++ slash ∷ y)) (sym ((str_eq_iff b.inner tags).0 is_tags))
        (sym name)
      ∙ all in
    from_category-from_refs tags n ∙ ap (λ t. ok (record { inner = t })) same

module _ {G U : Type 0} where
  tag_of-from_category :
      (q : Qualified) (b c : Component) (cs : List Component) {r n : RefString}
      → collect (to_component refs ∷ b ∷ c ∷ cs) ≡ ok r
      → tag_of {G = G} {U = U} q (to_component refs, b, c, cs) ≡ ok n
      → from_category tags n ≡ ok (record { inner = r })
  unfolding tag_of
  tag_of-from_category q b c cs whole h = elim (Bool-cases (str_eq b.inner tags)) [
    | inl is_tags ↦
        from_category-whole b c cs whole is_tags
          (unwind-ok (refstr_join c cs) (rw (tag_of, is_tags) at h))
    | inr other ↦ absurd (let h1 = (rw (tag_of, other) at h) in cc)
  ]

  -- A name that `reference_name` gives is that of the reference behind refs/tags/.
  pub reference_name-from_category :
      (r : Reference G U) {n : RefString}
      → reference_name r ≡ ok n
      → (s : Str) × (r.name ≡ ok s)
        × (try_from s ≡ ok s)
        × (from_category tags n ≡ ok (record { inner = s }))
  unfolding reference_name tag_of
  reference_name-from_category r {n} h =
      let (s, e1, h1) = bind-eq-ok (map_err (λ u. failed (utf8 u)) r.name) _ h in
      let (name, e2, h2) =
        bind-eq-ok (map_err (λ e. failed (named (TagError.ref_format_error e))) (try_from s)) _
          h1 in
      let (q, e3, h3) =
        bind-eq-ok (ok_or (failed (named (TagError.not_qualified name))) (from_refstr name)) _ h2 in
      let qualified =
        ok_or-ok (failed (named (TagError.not_qualified name))) (from_refstr name) e3 in
      let (cs0, e4, h4) = bind-eq-ok (unwind (non_empty_components q)) _ h3 in
      let (b, c, cs, shown, whole) = non_empty_components-from_refstr name qualified in
      let same = ok-injective (sym (unwind-ok (non_empty_components q) e4) ∙ shown) in
      let valid = map_err-ok (λ e. failed (named (TagError.ref_format_error e))) (try_from s) e2 in
      let eq = try_from-same s valid in
      (
        s,
        map_err-ok (λ u. failed (utf8 u)) r.name e1,
        valid ∙ ap ok eq,
        tag_of-from_category q b c cs (whole ∙ ap ok eq)
            (ap (tag_of {G = G} {U = U} q) (sym same) ∙ h4),
      )

  -- What is known of a tag: of a light one, that the reference peels to no tag, and has the name of
  -- the tag; of an annotated one, the object that the reference peels to, which names the tag.
  abbrev pub TagOf : Reference G U → Str → Tag → Type 0
  TagOf r s (light id n) =
      (r.peel_to_commit ≡ ok id)
      × (tag_refname (light id n) ≡ ok (record { inner = s }))
      × ((e : G) × (r.peel_to_tag ≡ err e) × (r.is_no_tag e ≡ true))
  TagOf r s (annotated id target n tagger message) =
      (tag : GitTag U) × (r.peel_to_tag ≡ ok tag)
      × (tag.id ≡ id)
      × (tag.target_id ≡ target)
      × (tag.name_bytes ≡ ok n)
      × (transpose tag.message_bytes ≡ ok message)

  annotated_try_from-TagOf :
      (r : Reference G U) (s : Str) (tag : GitTag U) {t : Tag}
      → r.peel_to_tag ≡ ok tag
      → annotated_try_from tag ≡ ok t
      → TagOf r s t
  unfolding annotated_try_from
  annotated_try_from-TagOf r s tag {t} e h =
      let (b, e1, h1) = bind-eq-ok (map_err utf8 tag.name_bytes) _ h in
      let (n, e2, h2) = bind-eq-ok (map_err named (try_from b)) _ h1 in
      let (tagger, e3, h3) =
        bind-eq-ok (map_err utf8 (transpose (map_some author_try_from tag.tagger))) _ h2 in
      let (message, e4, h4) = bind-eq-ok (map_err utf8 (transpose tag.message_bytes)) _ h3 in
      let same = try_from-same b (map_err-ok named (try_from b) e2) in
      subst (λ x. TagOf r s x) (ok-injective h4)
        (
          tag,
          e,
          refl,
          refl,
          map_err-ok utf8 tag.name_bytes e1 ∙ ap ok (sym same),
          map_err-ok utf8 (transpose tag.message_bytes) e4,
        )

  abbrev pub read_tag : Reference G U → RefString → Result (Failure (Utf8Or U (TagError G U))) Tag
  read_tag r name = elim (r.peel_to_tag) [
    | ok tag ↦ map_err (λ e. failed (named (TagError.from_tag e))) (annotated_try_from tag)
    | err e ↦
        if r.is_no_tag e
        then (do
          id ← map_err (λ e1. failed (named (TagError.git e1))) r.peel_to_commit
          ok (light id name))
        else err (failed (named (TagError.git e)))
  ]

  read_tag-TagOf :
      (r : Reference G U) (s : Str) (n : RefString) {t : Tag}
      → from_category tags n ≡ ok (record { inner = s })
      → read_tag r n ≡ ok t
      → TagOf r s t
  unfolding tag_refname tag_short_name
  read_tag-TagOf r s n {t} eq h = elim (Result-cases (r.peel_to_tag)) [
    | inl (tag, e) ↦ annotated_try_from-TagOf r s tag e (
        map_err-ok (λ e. failed (named (TagError.from_tag e))) (annotated_try_from tag)
          (rw (read_tag, e) at h))
    | inr (x, e) ↦ elim (Bool-cases (r.is_no_tag x)) [
      | inr other ↦ absurd (let h1 = (rw (read_tag, e, other) at h) in cc)
      | inl light_weight ↦
          let (id, e1, h1) =
            bind-eq-ok (map_err (λ e1. failed (named (TagError.git e1))) r.peel_to_commit) _
              (rw (read_tag, e, light_weight) at h) in
          subst (λ t. TagOf r s t) (ok-injective h1)
            (
              map_err-ok (λ e1. failed (named (TagError.git e1))) r.peel_to_commit e1,
              eq,
              (x, e, light_weight),
            )
    ]
  ]

  -- A tag is read only from a reference whose name is valid and stands under refs/tags/. A light tag
  -- gives that name back; an annotated one has the name in the tag object, whatever the reference is
  -- called.
  pub tag_try_from-TagOf :
      (r : Reference G U) {t : Tag}
      → tag_try_from r ≡ ok t
      → (s : Str) × (n : RefString) × (r.name ≡ ok s)
        × (try_from s ≡ ok s)
        × (from_category tags n ≡ ok (record { inner = s }))
        × TagOf r s t
  unfolding tag_try_from tag_refname tag_short_name
  tag_try_from-TagOf r {t} h =
      let (n, e1, h1) = bind-eq-ok (reference_name r) _ h in
      let (s, name, valid, eq) = reference_name-from_category r e1 in
      (s, n, name, valid, eq, read_tag-TagOf r s n eq h1)
