-- ===== src/RefFormat/Refspec/Pieces.antt =====
-- Components of patterns (core/src/refspec/iter.rs), and patterns collected from them.
use radicle_git.Base.{
  ℕ, ◌+◌, ◌-◌, ◌≤◌, ◌≡◌, refl, ap, ap₂, ◌∙◌, Bool, true, false, List, [], ◌∷◌, ◌++◌, map,
  append-nil, append_assoc, leb, if◌then◌else◌, length, length-append, ok, err, Str, str_eq_iff,
  contains, truncate, truncate-append, split, join_with, join_with-split, arith,
}
use radicle_git.RefFormat.Check.Spec.{stars, all_stars}
use radicle_git.RefFormat.Name.{slash}
use radicle_git.RefFormat.Refspec.{
  PatternStr, star, Piece, as_str, piece_of, pieces, duplicate_glob, is_glob, collect_pieces,
  cut_last, from_pieces,
}

-- A component stands for the text that it was read from.
pub as_str-piece_of : (x : Str) → as_str (piece_of x) ≡ x
unfolding as_str piece_of
as_str-piece_of x = ground (arith, str_eq_iff x star)

abbrev pub strs : List Piece → List Str
strs [] = []
strs (c ∷ cs) = as_str c ∷ strs cs

pub strs-map : (xs : List Str) → strs (map piece_of xs) ≡ xs
strs-map [] = refl
strs-map (x ∷ xs) = ap₂ ◌∷◌ (as_str-piece_of x) (strs-map xs)

-- How many of the components are globs.
abbrev pub globs : List Piece → ℕ
globs [] = 0
globs (c ∷ cs) = (if is_glob c then 1 else 0) + globs cs

-- The buffer behind the loop: each component and a separator.
abbrev trail : List Piece → Str
trail [] = []
trail (c ∷ cs) = as_str c ++ slash ∷ trail cs

regroup : (buf a t : Str) → ((buf ++ a) ++ slash ∷ []) ++ t ≡ buf ++ (a ++ slash ∷ t)
regroup buf a t = simp append_assoc

collect_pieces-trail :
    (buf : Str) (seen : Bool) (cs : List Piece)
    → collect_pieces buf seen cs ≡ (
        if leb ((if seen then 1 else 0) + globs cs) 1
        then ok (buf ++ trail cs)
        else err duplicate_glob)
unfolding collect_pieces
collect_pieces-trail buf true [] = rw append-nil refl
collect_pieces-trail buf false [] = rw append-nil refl
collect_pieces-trail buf seen (c ∷ cs) = ground (
  arith,
  collect_pieces-trail ((buf ++ as_str c) ++ slash ∷ []) true cs,
  collect_pieces-trail ((buf ++ as_str c) ++ slash ∷ []) false cs,
  regroup buf (as_str c) (trail cs),
)

trail-join_with :
    (c : Piece) (cs : List Piece) → trail (c ∷ cs) ≡ join_with slash (strs (c ∷ cs)) ++ slash ∷ []
trail-join_with c [] = rw append-nil refl
trail-join_with c (d ∷ cs) =
    rw append_assoc (ap (λ t. as_str c ++ slash ∷ t) (trail-join_with d cs))

concat_length : (c : ℕ) (s : Str) → length (c ∷ (s ++ slash ∷ [])) - 1 ≡ length (c ∷ s)
concat_length c s = omega (arith, length-append s (slash ∷ []))

cut_last-concat : (s : Str) → cut_last (s ++ slash ∷ []) ≡ ok s
unfolding cut_last
cut_last-concat [] = refl
cut_last-concat (c ∷ s) = ap ok (
    ap (λ n. truncate n (c ∷ (s ++ slash ∷ []))) (concat_length c s)
    ∙ truncate-append (c ∷ s) (slash ∷ []))

-- Components with one glob at most are joined; with more they are refused.
pub from_pieces-join_with :
    (c : Piece) (cs : List Piece)
    → from_pieces (c ∷ cs) ≡ (
        if leb (globs (c ∷ cs)) 1 then ok (join_with slash (strs (c ∷ cs))) else err duplicate_glob)
unfolding from_pieces
from_pieces-join_with c cs = ground (
  arith,
  collect_pieces-trail [] false (c ∷ cs),
  trail-join_with c cs,
  cut_last-concat (join_with slash (strs (c ∷ cs))),
)

contains→stars : (x : Str) → contains b'*' x ≡ true → 1 ≤ stars x
unfolding contains
contains→stars [] h = absurd (ground arith)
contains→stars (c ∷ x) h = ground (arith, contains→stars x)

glob_has_star : (x : Str) → is_glob (piece_of x) ≡ true → 1 ≤ stars x
unfolding is_glob piece_of
glob_has_star x h = ground (arith, contains→stars x, str_eq_iff x star)

pub globs-le-all_stars : (xs : List Str) → globs (map piece_of xs) ≤ all_stars xs
globs-le-all_stars [] = omega arith
globs-le-all_stars (x ∷ xs) = ground (arith, glob_has_star x, globs-le-all_stars xs)

pub from_pieces-map :
    (x : Str) (xs : List Str)
    → globs (map piece_of (x ∷ xs)) ≤ 1
    → from_pieces (map piece_of (x ∷ xs)) ≡ ok (join_with slash (x ∷ xs))
from_pieces-map x xs h =
    from_pieces-join_with (piece_of x) (map piece_of xs)
    ∙ ground (arith, ap (join_with slash) (strs-map (x ∷ xs)))

pub from_pieces-globs : (p : PatternStr) → globs (pieces p) ≤ 1 → from_pieces (pieces p) ≡ ok p
unfolding pieces split
from_pieces-globs p h = from_pieces-map _ _ h ∙ ap ok (join_with-split slash p)

-- The components of a text with one `*` at most, collected again, are the text.
pub from_pieces-pieces :
    (p : PatternStr) → all_stars (split slash p) ≤ 1 → from_pieces (pieces p) ≡ ok p
unfolding pieces
from_pieces-pieces p h = from_pieces-globs p (omega (arith, globs-le-all_stars (split slash p)))
