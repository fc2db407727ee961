-- ===== src/RefFormat/Refspec/Validity.antt =====
-- Which operations of core/src/refspec.rs keep patterns valid, in the sense of `check.rs`.
use radicle_git.Base.{
  ◌+◌, ◌≤◌, ◌<◌, ◌≡◌, refl, ap₂, ◌≢◌, inl, List, [], ◌∷◌, ok, err, if◌then◌else◌, All, codes, split,
  join_with, split-join_with, Lacks, arith,
}
use radicle_git.RefFormat.Check.Spec.{IsPart, IsRefname, stars, all_stars}
use radicle_git.RefFormat.Check.Sound.{ref_format_iff}
use radicle_git.RefFormat.Name.{RefStr, slash, try_from, push}
use radicle_git.RefFormat.Name.Validity.{push-IsRefname, try_from→IsRefname, no_globs}
use radicle_git.RefFormat.Refspec.{
  PatternStr, Piece, pattern_opts, try_pattern, pattern_push, with_pattern, as_str, is_glob,
  from_pieces, duplicate_glob, pieces,
}
use radicle_git.RefFormat.Refspec.Pieces.{strs, globs, from_pieces-join_with, from_pieces-pieces}

pub try_pattern→IsRefname : (s : PatternStr) → try_pattern s ≡ ok s → IsRefname pattern_opts s
unfolding try_pattern
try_pattern→IsRefname s h = (ref_format_iff pattern_opts s).0 (ground arith)

pub IsRefname→try_pattern : (s : PatternStr) → IsRefname pattern_opts s → try_pattern s ≡ ok s
unfolding try_pattern
IsRefname→try_pattern s r = rw ((ref_format_iff pattern_opts s).1 r) refl

pub one_glob : {s : PatternStr} → IsRefname pattern_opts s → all_stars (split slash s) ≤ 1
one_glob r = ground (arith, r.globs)

-- A name joined behind a pattern is a pattern, and a pattern behind a name is one.
pub try_pattern-pattern_push :
    (p : PatternStr) (s : RefStr)
    → try_pattern p ≡ ok p
    → try_from s ≡ ok s
    → (try_pattern (pattern_push p s) ≡ ok (pattern_push p s))
      × (try_pattern (with_pattern s p) ≡ ok (with_pattern s p))
unfolding pattern_push with_pattern push
try_pattern-pattern_push p s hp hs =
    let rp = try_pattern→IsRefname p hp in
    let rs = try_from→IsRefname s hs in
    let few = one_glob rp in
    let none_here = no_globs rs in
    (
      IsRefname→try_pattern _
          (push-IsRefname pattern_opts p s rp.parts rs.parts (inl (refl, omega arith))),
      IsRefname→try_pattern _
          (push-IsRefname pattern_opts s p rs.parts rp.parts (inl (refl, omega arith))),
    )

-- A valid pattern is collected from its components again.
pub from_pieces-try_pattern :
    (p : PatternStr) → try_pattern p ≡ ok p → from_pieces (pieces p) ≡ ok p
from_pieces-try_pattern p h = from_pieces-pieces p (one_glob (try_pattern→IsRefname p h))

-- A component that may stand in a pattern: no separator, the rules for parts, and one `*` in a
-- glob but none in other components.
pub record IsPiece (c : Piece) : Type 0 where
  pub whole : Lacks slash (as_str c)
  pub part : IsPart (as_str c)
  pub star_count : stars (as_str c) ≡ (if is_glob c then 1 else 0)

All-whole : (cs : List Piece) → All IsPiece cs → All (Lacks slash) (strs cs)
All-whole [] h = tt
All-whole (c ∷ cs) h = (h.0.whole, All-whole cs h.1)

All-IsPart : (cs : List Piece) → All IsPiece cs → All IsPart (strs cs)
All-IsPart [] h = tt
All-IsPart (c ∷ cs) h = (h.0.part, All-IsPart cs h.1)

all_stars-globs : (cs : List Piece) → All IsPiece cs → all_stars (strs cs) ≡ globs cs
all_stars-globs [] h = refl
all_stars-globs (c ∷ cs) h = ap₂ ◌+◌ h.0.star_count (all_stars-globs cs h.1)

-- Of valid components `from_components` makes a valid pattern if at most one of them is a glob, but
-- for the lone `@`; with more globs it refuses.
pub from_pieces-IsPiece :
    (c : Piece) (cs : List Piece)
    → All IsPiece (c ∷ cs)
    → join_with slash (strs (c ∷ cs)) ≢ codes "@"
    → (globs (c ∷ cs) ≤ 1
        → (p : PatternStr) × (from_pieces (c ∷ cs) ≡ ok p) × (try_pattern p ≡ ok p))
      × (1 < globs (c ∷ cs) → from_pieces (c ∷ cs) ≡ err duplicate_glob)
from_pieces-IsPiece c cs h ne =
    let p : PatternStr = join_with slash (strs (c ∷ cs)) in
    let cut : split slash p ≡ strs (c ∷ cs) =
      split-join_with slash (as_str c) (strs cs) (All-whole (c ∷ cs) h) in
    let made = from_pieces-join_with c cs in
    let counts = all_stars-globs (c ∷ cs) h in
    (
      λ few. (
        p,
        ground arith,
        IsRefname→try_pattern p (record {
          not_lone_at = ne;
          parts = rw cut (All-IsPart (c ∷ cs) h);
          levels = inl refl;
          globs = inl (refl, rw (cut, counts) few);
        }),
      ),
      λ many. ground arith,
    )
