-- ===== src/RefFormat/Name/Components.antt =====
-- Components of names (core/src/name/iter.rs) and the names collected from them.
use radicle_git.Base.{
  ℕ, ◌-◌, ◌≡◌, refl, sym, ap, ◌∙◌, List, [], ◌∷◌, ◌++◌, map, append-nil, append_assoc, ok, map_ok,
  length, length-append, All, Str, truncate, truncate-append, split, split-Lacks, Lacks, join_with,
  join_with-split, split-join_with, split-append, arith,
}
use radicle_git.RefFormat.Name.{
  RefStr, slash, push, Component, to_component, components, collect_onto, cut_slash, collect,
  extend, iter,
}

abbrev pub inners : List Component → List RefStr
inners [] = []
inners (c ∷ cs) = c.inner ∷ inners cs

-- A component holds no separator.
abbrev pub IsComponent : Component → Type 0
IsComponent c = Lacks slash c.inner

pub inners-map : (xs : List RefStr) → inners (map to_component xs) ≡ xs
inners-map [] = refl
inners-map (x ∷ xs) = ap (◌∷◌ x) (inners-map xs)

pub map-inners : (cs : List Component) → map to_component (inners cs) ≡ cs
map-inners [] = refl
map-inners (c ∷ cs) = ap (◌∷◌ c) (map-inners cs)

collect_onto-joined :
    (buf : Str) (c : Component) (cs : List Component)
    → collect_onto buf (c ∷ cs) ≡ (buf ++ join_with slash (inners (c ∷ cs))) ++ slash ∷ []
unfolding collect_onto
collect_onto-joined buf c [] = rw append-nil
collect_onto-joined buf c (d ∷ cs) =
    collect_onto-joined ((buf ++ c.inner) ++ slash ∷ []) d cs ∙ simp append_assoc

concat_length : (c : ℕ) (s : Str) → length (c ∷ (s ++ slash ∷ [])) - 1 ≡ length (c ∷ s)
concat_length c s = omega (arith, length-append s (slash ∷ []))

cut_slash-concat : (s : Str) → cut_slash (s ++ slash ∷ []) ≡ ok s
unfolding cut_slash
cut_slash-concat [] = refl
cut_slash-concat (c ∷ s) = ap ok (
    ap (λ n. truncate n (c ∷ (s ++ slash ∷ []))) (concat_length c s)
    ∙ truncate-append (c ∷ s) (slash ∷ []))

-- Components that are collected stand in the name with one separator between each two.
pub collect-join_with :
    (c : Component) (cs : List Component)
    → collect (c ∷ cs) ≡ ok (join_with slash (inners (c ∷ cs)))
unfolding collect
collect-join_with c cs = rw (collect_onto-joined [] c cs) (cut_slash-concat _)

-- The components of a text, collected again, are the text.
pub collect-components : (s : RefStr) → collect (components s) ≡ ok s
unfolding components split
collect-components s = collect-join_with _ _ ∙ ap ok (rw inners-map (join_with-split slash s))

pub All-inners : (cs : List Component) → All IsComponent cs → All (Lacks slash) (inners cs)
All-inners [] h = tt
All-inners (c ∷ cs) h = (h.0, All-inners cs h.1)

-- Components with no separator in them, collected, are the components of the name.
pub components-collect :
    (c : Component) (cs : List Component)
    → All IsComponent (c ∷ cs)
    → map_ok components (collect (c ∷ cs)) ≡ ok (c ∷ cs)
unfolding components
components-collect c cs h = rw collect-join_with (
    ap ok (
      ap (map to_component) (split-join_with slash c.inner (inners cs) (All-inners (c ∷ cs) h))
      ∙ map-inners (c ∷ cs)))

pub iter-push : (a b : RefStr) → iter (push a b) ≡ iter a ++ iter b
unfolding iter push
iter-push a b = rw append_assoc (split-append slash a b)

pub map-to_component-append :
    (xs ys : List RefStr) → map to_component (xs ++ ys) ≡ map to_component xs ++ map to_component ys
map-to_component-append [] ys = refl
map-to_component-append (x ∷ xs) ys = ap (◌∷◌ (to_component x)) (map-to_component-append xs ys)

-- The components of a name pushed to are those of both parts.
pub components-push : (a b : RefStr) → components (push a b) ≡ components a ++ components b
unfolding components
components-push a b = rw (iter-push a b) (map-to_component-append (iter a) (iter b))

pub components-IsComponent : (c : Component) → IsComponent c → components c.inner ≡ c ∷ []
unfolding components
components-IsComponent c h = rw (split-Lacks slash c.inner h)

-- To extend a name by components is to append them to its components.
pub components-extend :
    (s : RefStr) (cs : List Component)
    → All IsComponent cs
    → components (extend s cs) ≡ components s ++ cs
unfolding extend
components-extend s [] h = sym (append-nil _)
components-extend s (c ∷ cs) h =
    components-extend (push s c.inner) cs h.1
    ∙ ap (λ l. l ++ cs)
        (components-push s c.inner ∙ ap (λ l. components s ++ l) (components-IsComponent c h.0))
    ∙ append_assoc (components s) (c ∷ []) cs
