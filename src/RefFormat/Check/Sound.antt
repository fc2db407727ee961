-- ===== src/RefFormat/Check/Sound.antt =====
-- `ref_format` of core/src/check.rs accepts what the rules accept, and nothing else.
use radicle_git.Base.{
  ℕ, ◌+◌, ◌≤◌, ◌≡◌, refl, ap, ◌∙◌, ◌≢◌, ◌↔◌, ◌⊎◌, inl, inr, true, false, List, [], ◌∷◌, ◌++◌, ◌==◌,
  if◌then◌else◌, Bool-cases, length, All, Result, ok, ◌>>=◌, bind-eq-ok, Str, codes, str_eq,
  str_eq_iff, ends_with, ends_with→append, ends_with-append, split, arith,
}
use radicle_git.RefFormat.Check.{
  Options, Error, judge, next_char, scan, check_part, check_parts, check_counts, ref_format,
  dot_lock_suffix,
}
use radicle_git.RefFormat.Check.Spec.{
  last_or, IsAllowed, NoPair, IsPart, stars, all_stars, IsRefname,
}

-- What `judge` asks of one character.
record IsFine (i last c d : ℕ) : Type 0 where
  dots : (c ≢ b'.') ⊎ (d ≢ b'.')
  at_brace : (c ≢ b'@') ⊎ (d ≢ b'{')
  allowed : IsAllowed c
  inner : (c ≢ b'.') ⊎ ((i ≢ 0) × (i ≢ last))

abbrev star_of : ℕ → ℕ
star_of c = if c == b'*' then 1 else 0

judge→IsFine :
    (i last c d : ℕ) {n : ℕ} → judge i last c d ≡ ok n → IsFine i last c d × (n ≡ star_of c)
unfolding judge
judge→IsFine i last c d h = ground arith

IsFine→judge : (i last c d : ℕ) → IsFine i last c d → judge i last c d ≡ ok (star_of c)
unfolding judge
IsFine→judge i last c d h = ground arith

-- What the loop asks of a suffix.
abbrev Walk : ℕ → ℕ → ℕ → Str → Type 0
Walk f last i [] = Unit
Walk f last i (c ∷ r) = IsFine i last c (next_char f r) × Walk f last (i + 1) r

scan→Walk :
    (f last i globs : ℕ) (r : Str) {n : ℕ}
    → scan f last i globs r ≡ ok n
    → Walk f last i r × (n ≡ globs + stars r)
unfolding scan
scan→Walk f last i globs [] h = ground arith
scan→Walk f last i globs (c ∷ r) h =
    let (k, j, rest) =
      bind-eq-ok (judge i last c (next_char f r)) (λ k. scan f last (i + 1) (globs + k) r) h in
    let (fine, e) = judge→IsFine i last c (next_char f r) j in
    let (walk, e') = scan→Walk f last (i + 1) (globs + k) r rest in ((fine, walk), omega arith)

Walk→scan :
    (f last i globs : ℕ) (r : Str) → Walk f last i r → scan f last i globs r ≡ ok (globs + stars r)
unfolding scan
Walk→scan f last i globs [] h = ground arith
Walk→scan f last i globs (c ∷ r) h =
    rw (IsFine→judge i last c (next_char f r) h.0)
      (Walk→scan f last (i + 1) (globs + star_of c) r h.1 ∙ ap ok (omega arith))

-- The rules on a suffix that is not the whole component; `f` is the first character of that.
record Inner (f c : ℕ) (r : Str) : Type 0 where
  allowed : All IsAllowed (c ∷ r)
  no_dots : NoPair b'.' b'.' (c ∷ r)
  no_at_brace : NoPair b'@' b'{' (c ∷ r)
  no_last_dot : last_or c r ≢ b'.'
  no_wrap : (last_or c r ≢ b'@') ⊎ (f ≢ b'{')

Walk→Inner :
    (f last i c : ℕ) (r : Str) → i ≢ 0 → i + length r ≡ last → Walk f last i (c ∷ r) → Inner f c r
Walk→Inner f last i c [] p e w = ground arith
Walk→Inner f last i c (d ∷ r) p e w =
    let rest = Walk→Inner f last (i + 1) d r (omega arith) (omega arith) w.1 in ground arith

Inner→Walk :
    (f last i c : ℕ) (r : Str) → i ≢ 0 → i + length r ≡ last → Inner f c r → Walk f last i (c ∷ r)
Inner→Walk f last i c [] p e w = ground arith
Inner→Walk f last i c (d ∷ r) p e w =
    let rest = Inner→Walk f last (i + 1) d r (omega arith) (omega arith) (record {
      allowed = w.allowed.1;
      no_dots = w.no_dots.1;
      no_at_brace = w.no_at_brace.1;
      no_last_dot = w.no_last_dot;
      no_wrap = w.no_wrap;
    }) in
    ground arith

-- A whole component, from its first character on.
Walk→IsPart :
    (f : ℕ) (r : Str)
    → ((a : Str) → f ∷ r ≢ a ++ dot_lock_suffix)
    → Walk f (length r) 0 (f ∷ r)
    → IsPart (f ∷ r)
Walk→IsPart f [] l w = record {
  nonempty = λ e. cc;
  no_lock = l;
  allowed = ground arith;
  no_dots = tt;
  no_at_brace = tt;
  no_wrap = ground arith;
  no_first_dot = ground arith;
  no_last_dot = ground arith;
}
Walk→IsPart f (d ∷ r) l w =
    let rest = Walk→Inner f (length (d ∷ r)) 1 d r (omega arith) (omega arith) w.1 in
    record {
      nonempty = λ e. cc;
      no_lock = l;
      allowed = (w.0.allowed, rest.allowed);
      no_dots = (w.0.dots, rest.no_dots);
      no_at_brace = (w.0.at_brace, rest.no_at_brace);
      no_wrap = rest.no_wrap;
      no_first_dot = ground arith;
      no_last_dot = rest.no_last_dot;
    }

IsPart→Walk : (f : ℕ) (r : Str) → IsPart (f ∷ r) → Walk f (length r) 0 (f ∷ r)
IsPart→Walk f [] p = let a = p.allowed.0 in ground arith
IsPart→Walk f (d ∷ r) p =
    let rest = Inner→Walk f (length (d ∷ r)) 1 d r (omega arith) (omega arith) (record {
      allowed = p.allowed.1;
      no_dots = p.no_dots.1;
      no_at_brace = p.no_at_brace.1;
      no_last_dot = p.no_last_dot;
      no_wrap = p.no_wrap;
    }) in
    (
      record {
        dots = p.no_dots.0;
        at_brace = p.no_at_brace.0;
        allowed = p.allowed.0;
        inner = inl p.no_first_dot;
      },
      rest,
    )

pub check_part→IsPart :
    (globs : ℕ) (x : Str) {n : ℕ} → check_part globs x ≡ ok n → IsPart x × (n ≡ globs + stars x)
unfolding check_part
check_part→IsPart globs [] h = cc
check_part→IsPart globs (c ∷ r) {n} h = elim (Bool-cases (ends_with (c ∷ r) dot_lock_suffix)) [
  | inl e ↦ absurd (ground arith)
  | inr e ↦
      let run : scan c (length r) 0 globs (c ∷ r) ≡ ok n = ground arith in
      let (walk, same) = scan→Walk c (length r) 0 globs (c ∷ r) run in
      (Walk→IsPart c r (λ a p. ground (arith, ends_with-append a dot_lock_suffix)) walk, same)
]

pub IsPart→check_part : (globs : ℕ) (x : Str) → IsPart x → check_part globs x ≡ ok (globs + stars x)
unfolding check_part
IsPart→check_part globs [] p = absurd (p.nonempty refl)
IsPart→check_part globs (c ∷ r) p = elim (Bool-cases (ends_with (c ∷ r) dot_lock_suffix)) [
  | inl e ↦ let (a, q) = ends_with→append (c ∷ r) dot_lock_suffix e in absurd (p.no_lock a q)
  | inr e ↦ let run = Walk→scan c (length r) 0 globs (c ∷ r) (IsPart→Walk c r p) in ground arith
]

check_parts→All :
    (xs : List Str) (globs parts : ℕ) {g n : ℕ}
    → check_parts globs parts xs ≡ ok (g, n)
    → All IsPart xs × (g ≡ globs + all_stars xs) × (n ≡ parts + length xs)
unfolding check_parts
check_parts→All [] globs parts h = ground arith
check_parts→All (x ∷ xs) globs parts h =
    let (k, j, rest) = bind-eq-ok (check_part globs x) (λ k. check_parts k (parts + 1) xs) h in
    let (part, e) = check_part→IsPart globs x j in
    let (all, e', e'') = check_parts→All xs k (parts + 1) rest in
    ((part, all), omega arith, omega arith)

All→check_parts :
    (xs : List Str) (globs parts : ℕ)
    → All IsPart xs
    → check_parts globs parts xs ≡ ok (globs + all_stars xs, parts + length xs)
unfolding check_parts
All→check_parts [] globs parts h = ground arith
All→check_parts (x ∷ xs) globs parts h =
    let rest = All→check_parts xs (globs + stars x) (parts + 1) h.1 in
    rw (IsPart→check_part globs x h.0) (ground arith)

not-IsPart-dot : ¬ IsPart (codes ".")
not-IsPart-dot p = p.no_first_dot refl

abbrev Fits : Options → ℕ → ℕ → Type 0
Fits opts globs parts =
    ((opts.allow_onelevel ≡ true) ⊎ (2 ≤ parts))
    × (((opts.allow_pattern ≡ true) × (globs ≤ 1)) ⊎ (globs ≡ 0))

check_counts_iff :
    (opts : Options) (globs parts : ℕ)
    → (check_counts opts globs parts ≡ ok tt) ↔ Fits opts globs parts
unfolding check_counts
check_counts_iff opts globs parts = ground arith

abbrev run_parts : Options → Str → Result Error (Unit {0})
run_parts opts s =
    check_parts 0 0 (split b'/' s) >>= λ (globs, parts). check_counts opts globs parts

-- Two of the texts that are tested for by themselves have a component that no rule allows.
not_empty : ¬ All IsPart (split b'/' [])
unfolding split
not_empty all = all.0.nonempty refl

not_dot : ¬ All IsPart (split b'/' (codes "."))
unfolding split
not_dot all = all.0.no_first_dot refl

str_eq-ne : (s t : Str) → s ≢ t → str_eq s t ≡ false
str_eq-ne s t h = ground (arith, str_eq_iff s t)

special_parts :
    (s : Str) → All IsPart (split b'/' s) → (str_eq s [] ≡ false) × (str_eq s (codes ".") ≡ false)
special_parts s all =
    (str_eq-ne s [] (λ e. not_empty (rw e at all)), str_eq-ne s _ (λ e. not_dot (rw e at all)))

run_parts→IsRefname :
    (opts : Options) (s : Str)
    → str_eq s (codes "@") ≡ false
    → run_parts opts s ≡ ok tt
    → IsRefname opts s
run_parts→IsRefname opts s at h =
    let ((globs, parts), run, counts) = bind-eq-ok (check_parts 0 0 (split b'/' s)) _ h in
    let (all, g, n) = check_parts→All (split b'/' s) 0 0 run in
    let (levels, fits) = (check_counts_iff opts globs parts).0 counts in
    record {
      not_lone_at = λ e. ground (arith, str_eq_iff s (codes "@"));
      parts = all;
      levels = ground arith;
      globs = ground arith;
    }

ref_format→IsRefname : (opts : Options) (s : Str) → ref_format opts s ≡ ok tt → IsRefname opts s
unfolding ref_format
ref_format→IsRefname opts s h = ground (arith, run_parts→IsRefname opts s)

IsRefname→ref_format : (opts : Options) (s : Str) → IsRefname opts s → ref_format opts s ≡ ok tt
unfolding ref_format
IsRefname→ref_format opts s r =
    let (e, d) = special_parts s r.parts in
    rw (e, d, str_eq-ne s _ r.not_lone_at, All→check_parts (split b'/' s) 0 0 r.parts)
      ((check_counts_iff opts (0 + all_stars (split b'/' s)) (0 + length (split b'/' s))).1
        (ground arith))

-- `ref_format` returns `Ok` exactly on the texts that obey the rules.
pub ref_format_iff : (opts : Options) (s : Str) → (ref_format opts s ≡ ok tt) ↔ IsRefname opts s
ref_format_iff opts s = (ref_format→IsRefname opts s, IsRefname→ref_format opts s)
