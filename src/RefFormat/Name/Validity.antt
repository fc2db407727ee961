-- ===== src/RefFormat/Name/Validity.antt =====
-- Which operations of core/src/name.rs keep names valid, in the sense of `check.rs`.
use radicle_git.Base.{
  ◌+◌, ◌≤◌, ◌≡◌, refl, ap, ◌∙◌, ◌≢◌, ◌⊎◌, inl, inr, Bool, true, false, List, [], ◌∷◌, ◌++◌,
  append_assoc, ok, length, length-append, All, All-append, Str, codes, split, split-append,
  ends_with, err, Lacks, All-append_left, str_eq, str_eq_iff, Bool-cases, split-Lacks, arith,
}
use radicle_git.RefFormat.Check.{Options, ref_format, lone_at, check_part, judge}
use radicle_git.RefFormat.Name.Paths.{pop-push, pop→append}
use radicle_git.RefFormat.Check.Spec.{IsPart, IsRefname, stars, all_stars}
use radicle_git.RefFormat.Check.Sound.{ref_format_iff, check_part→IsPart}
use radicle_git.RefFormat.Name.{RefStr, slash, check_opts, push, join, pop, try_from}

-- The options of patterns: one `*` is allowed.
all_stars-append : (xs ys : List Str) → all_stars (xs ++ ys) ≡ all_stars xs + all_stars ys
all_stars-append [] ys = omega arith
all_stars-append (x ∷ xs) ys = omega (arith, all_stars-append xs ys)

length-split : (s : Str) → 1 ≤ length (split slash s)
unfolding split
length-split s = omega arith

split-lone_at : length (split slash (codes "@")) ≡ 1
unfolding split
split-lone_at = refl

module _ (opts : Options) (a b : Str) where
  pub split-push : split slash (push a b) ≡ split slash a ++ split slash b
  unfolding push
  split-push = rw append_assoc (split-append slash a b)

  length-split-push : 2 ≤ length (split slash (push a b))
  length-split-push =
      rw split-push (
        omega
          (arith, length-append (split slash a) (split slash b), length-split a, length-split b))

  -- Valid components joined are a name, also where a `/` is asked for.
  pub push-IsRefname :
      All IsPart (split slash a)
      → All IsPart (split slash b)
      → ((opts.allow_pattern ≡ true) × (all_stars (split slash a) + all_stars (split slash b) ≤ 1))
        ⊎ (all_stars (split slash a) + all_stars (split slash b) ≡ 0)
      → IsRefname opts (push a b)
  push-IsRefname ha hb globs = record {
    not_lone_at = λ e.
        absurd
          (omega (arith, ap (λ s. length (split slash s)) e, length-split-push, split-lone_at));
    parts = rw split-push (All-append IsPart (split slash a) (split slash b) ha hb);
    levels = inr length-split-push;
    globs = rw (split-push, all_stars-append (split slash a) (split slash b)) globs;
  }

pub no_globs : {s : Str} → IsRefname check_opts s → all_stars (split slash s) ≡ 0
no_globs r = ground (arith, r.globs)

pub try_from→IsRefname : (s : RefStr) → try_from s ≡ ok s → IsRefname check_opts s
unfolding try_from
try_from→IsRefname s h = (ref_format_iff check_opts s).0 (ground arith)

-- Names joined are a name, and `TryFrom` takes it; the options may even ask for a `/`.
pub ref_format-join :
    (onelevel : Bool) (a b : RefStr)
    → try_from a ≡ ok a
    → try_from b ≡ ok b
    → ref_format (record { allow_onelevel = onelevel; allow_pattern = false }) (join a b) ≡ ok tt
unfolding join
ref_format-join onelevel a b ha hb =
    let opts : Options = record { allow_onelevel = onelevel; allow_pattern = false } in
    let ra = try_from→IsRefname a ha in
    let rb = try_from→IsRefname b hb in
    (ref_format_iff opts (push a b)).1
      (push-IsRefname opts a b ra.parts rb.parts (inr (omega (arith, no_globs ra, no_globs rb))))

IsRefname→try_from : (s : RefStr) → IsRefname check_opts s → try_from s ≡ ok s
unfolding try_from
IsRefname→try_from s r = rw ((ref_format_iff check_opts s).1 r)

IsRefname-left :
    (t b : RefStr) → t ≢ codes "@" → IsRefname check_opts (t ++ slash ∷ b) → IsRefname check_opts t
IsRefname-left t b ne r =
    let parts : All IsPart (split slash t ++ split slash b) =
      rw (split-append slash t b) at r.parts in
    let globs : all_stars (split slash t ++ split slash b) ≡ 0 =
      rw (split-append slash t b) at (no_globs r) in
    record {
      not_lone_at = ne;
      parts = All-append_left IsPart (split slash t) (split slash b) parts;
      levels = inl refl;
      globs = inr (omega (arith, all_stars-append (split slash t) (split slash b)));
    }

-- What `pop` leaves of a name is a name again, but for the name `@`.
pub pop-try_from :
    (s t : RefStr) → try_from s ≡ ok s → pop s ≡ (t, true) → (t ≡ codes "@") ⊎ (try_from t ≡ ok t)
pop-try_from s t h p =
    let (b, cut, lacks) = pop→append s t p in
    elim (Bool-cases (str_eq t (codes "@"))) [
      | inl e ↦ inl ((str_eq_iff t (codes "@")).0 e)
      | inr e ↦ inr (
          IsRefname→try_from t (
            IsRefname-left t b (λ q. ground (arith, str_eq_iff t (codes "@")))
              (rw cut at (try_from→IsRefname s h))))
    ]

not-try_from-lone_at : try_from (codes "@") ≡ err lone_at
unfolding try_from ref_format
not-try_from-lone_at = refl

IsPart-lone_at : All IsPart (split slash (codes "@")) × (all_stars (split slash (codes "@")) ≡ 0)
unfolding split check_part judge ends_with
IsPart-lone_at = (((check_part→IsPart 0 (codes "@") refl).0, tt), refl)

-- The exception is met: `@` pushed to is a name, and popped again it is refused.
pub pop-lone_at :
    (b : RefStr)
    → IsPart b
    → stars b ≡ 0
    → Lacks slash b
    → (try_from (push (codes "@") b) ≡ ok (push (codes "@") b))
      × (try_from (pop (push (codes "@") b)).0 ≡ err lone_at)
pop-lone_at b part globs lacks =
    let one : split slash b ≡ b ∷ [] = split-Lacks slash b lacks in
    let none_at : all_stars (split slash (codes "@")) + all_stars (split slash b) ≡ 0 =
      rw one (omega (arith, IsPart-lone_at)) in
    (
      IsRefname→try_from _ (
          push-IsRefname check_opts (codes "@") b IsPart-lone_at.0 (rw one (part, tt))
            (inr none_at)),
      ap (λ r. try_from r.0) (pop-push (codes "@") b lacks) ∙ not-try_from-lone_at,
    )
