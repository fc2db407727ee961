-- ===== src/Ext/Author/RoundTrip.antt =====
-- An author that is printed is parsed again (radicle-git-ext/src/author.rs).
use Prim.Native.Nat.{ℕ, suc}
use radicle_git.Base.{
  ◌≡◌, refl, sym, ap, ap₂, ◌∙◌, false, List, [], ◌∷◌, ◌++◌, append_assoc, some, if◌then◌else◌, ok,
  Str, contains, split, split-append, split-Lacks, join_with-split, Lacks, arith,
}
use radicle_git.Ext.Decimal.{ℤ, pos, negsuc, fmt_nat, fmt_int}
use radicle_git.Ext.Decimal.Laws.{AllDigits-fmt_nat, AllDigits→lacks, FitsIn, parse_int-fmt_int}
use radicle_git.Ext.Author.{
  Author, abs, sign_of, fmt_time, fmt_author, next_back, is_angle, trim_start, trim_end,
  trim_angles, parse_offset, parse_time, parse_author,
}
use radicle_git.Ext.Author.Clock.{
  clock, AllDigits-clock, OffsetFits, parse_offset-clock, abs-OffsetFits,
}

-- Neither `<` nor `>` is in the text.
abbrev pub LacksAngles : Str → Type 0
LacksAngles s = Lacks b'<' s × Lacks b'>' s

abbrev last_kept : ℕ → Str → Str
last_kept c [] = if is_angle c then [] else c ∷ []
last_kept c (d ∷ r) = c ∷ d ∷ r

trim_end-append : (s : Str) → LacksAngles s → trim_end (s ++ b'>' ∷ []) ≡ s
unfolding trim_end contains
trim_end-append [] h = refl
trim_end-append (c ∷ []) (lt, gt) = ground arith
trim_end-append (c ∷ d ∷ s) (lt, gt) =
    let rest = trim_end-append (d ∷ s) (ground arith, ground arith) in ap (last_kept c) rest

trim_angles-email : (s : Str) → LacksAngles s → trim_angles (b'<' ∷ (s ++ b'>' ∷ [])) ≡ s
unfolding trim_angles trim_start contains
trim_angles-email [] h = refl
trim_angles-email (c ∷ s) h =
    let kept : is_angle c ≡ false = ground arith in rw kept (trim_end-append (c ∷ s) h)

next_back-append : (xs : List Str) (y : Str) → next_back (xs ++ y ∷ []) ≡ some (xs, y)
unfolding next_back
next_back-append [] y = refl
next_back-append (x ∷ xs) y = rw (next_back-append xs y) refl

pub contains-append :
    (c : ℕ) (s t : Str) → contains c s ≡ false → contains c t ≡ false → contains c (s ++ t) ≡ false
unfolding contains
contains-append c [] t hs ht = ht
contains-append c (d ∷ s) t hs ht = ground (arith, contains-append c s t)

fmt_int-Lacks : (z : ℤ) → Lacks b' ' (fmt_int z)
unfolding fmt_int contains
fmt_int-Lacks (pos n) = AllDigits→lacks b' ' (fmt_nat n) (omega arith) (AllDigits-fmt_nat n)
fmt_int-Lacks (negsuc n) =
    AllDigits→lacks b' ' (fmt_nat (suc n)) (omega arith) (AllDigits-fmt_nat (suc n))

sign-clock-Lacks : (z : ℤ) (a : ℕ) → Lacks b' ' (sign_of z ∷ clock a)
unfolding sign_of contains
sign-clock-Lacks (pos n) a = AllDigits→lacks b' ' (clock a) (omega arith) (AllDigits-clock a)
sign-clock-Lacks (negsuc n) a = AllDigits→lacks b' ' (clock a) (omega arith) (AllDigits-clock a)

email-Lacks : (s : Str) → Lacks b' ' s → Lacks b' ' (b'<' ∷ (s ++ b'>' ∷ []))
unfolding contains
email-Lacks s h = contains-append b' ' s (b'>' ∷ []) h refl

-- The pieces of a printed author.
split-author :
    (name e t o : Str)
    → Lacks b' ' e
    → Lacks b' ' t
    → Lacks b' ' o
    → split b' ' (name ++ b' ' ∷ (e ++ b' ' ∷ (t ++ b' ' ∷ o)))
      ≡ ((split b' ' name ++ e ∷ []) ++ t ∷ []) ++ o ∷ []
split-author name e t o he ht ho =
    split-append b' ' name (e ++ b' ' ∷ (t ++ b' ' ∷ o))
    ∙ ap (λ x. split b' ' name ++ x)
        (split-append b' ' e (t ++ b' ' ∷ o)
          ∙ ap₂ ◌++◌ (split-Lacks b' ' e he)
              (split-append b' ' t o ∙ ap₂ ◌++◌ (split-Lacks b' ' t ht) (split-Lacks b' ' o ho)))
    ∙ sym (append_assoc (split b' ' name) (e ∷ []) (t ∷ o ∷ []))
    ∙ sym (append_assoc (split b' ' name ++ e ∷ []) (t ∷ []) (o ∷ []))

parse_author-pieces :
    (s name e t o : Str) {seconds minutes : ℤ}
    → split b' ' s ≡ ((split b' ' name ++ e ∷ []) ++ t ∷ []) ++ o ∷ []
    → parse_time t ≡ ok seconds
    → parse_offset o ≡ ok minutes
    → parse_author s
      ≡ ok (record {
        name = name;
        email = trim_angles e;
        time = record { seconds = seconds; offset = minutes };
      })
unfolding parse_author
parse_author-pieces s name e t o pieces ht ho =
    rw
      (
        parse_author,
        pieces,
        next_back-append ((split b' ' name ++ e ∷ []) ++ t ∷ []) o,
        ho,
        next_back-append (split b' ' name ++ e ∷ []) t,
        ht,
        next_back-append (split b' ' name) e,
        join_with-split b' ' name,
      )
      refl

parse_time-fmt_int : (z : ℤ) → FitsIn 64 z → parse_time (fmt_int z) ≡ ok z
unfolding parse_time
parse_time-fmt_int z fits = rw (parse_time, parse_int-fmt_int 64 z fits) refl

pub fmt_author-pieces :
    (a : Author) {m : ℕ}
    → abs a.time.offset ≡ ok m
    → fmt_author a
      ≡ ok (
          a.name
          ++ b' '
            ∷ ((b'<' ∷ (a.email ++ b'>' ∷ []))
                ++ b' ' ∷ (fmt_int a.time.seconds ++ b' ' ∷ sign_of a.time.offset ∷ clock m)))
unfolding fmt_author fmt_time
fmt_author-pieces a {m} value =
    rw (fmt_author, fmt_time, value)
      (ap (λ x. ok (a.name ++ b' ' ∷ b'<' ∷ x))
        (sym (
          append_assoc a.email (b'>' ∷ [])
            (b' ' ∷ (fmt_int a.time.seconds ++ b' ' ∷ sign_of a.time.offset ∷ clock m)))))

-- The author's parts are what the format can tell apart: no space in the email, no angle in it, a
-- time of 64 bits, and an offset whose hours and minutes can be written in 32 bits.
pub record IsPrintable (a : Author) : Type 0 where
  pub email_lacks : Lacks b' ' a.email
  pub email_angles : LacksAngles a.email
  pub seconds_fit : FitsIn 64 a.time.seconds
  pub offset_fits : OffsetFits a.time.offset

-- An author of printable parts (no space in the email, no angle in it, a time of 64 bits, an offset
-- whose hours and minutes can be written in 32) is printed with no panic, and the text is parsed to the author again;
-- the name may be any text, with spaces and angles.
pub parse_author-fmt_author :
    (a : Author) → IsPrintable a → (s : Str) × (fmt_author a ≡ ok s) × (parse_author s ≡ ok a)
parse_author-fmt_author a h =
    let (m, value) = abs-OffsetFits a.time.offset h.offset_fits in
    let t = fmt_int a.time.seconds in
    let o = sign_of a.time.offset ∷ clock m in
    let e = b'<' ∷ (a.email ++ b'>' ∷ []) in
    let s = a.name ++ b' ' ∷ (e ++ b' ' ∷ (t ++ b' ' ∷ o)) in
    let pieces =
      split-author a.name e t o (email-Lacks a.email h.email_lacks) (fmt_int-Lacks a.time.seconds)
        (sign-clock-Lacks a.time.offset m) in
    let parsed =
      parse_author-pieces s a.name e t o pieces (parse_time-fmt_int a.time.seconds h.seconds_fit)
        (parse_offset-clock a.time.offset h.offset_fits value) in
    (
      s,
      fmt_author-pieces a value,
      parsed
          ∙ ap (λ x. ok (record { name = a.name; email = x; time = a.time }))
              (trim_angles-email a.email h.email_angles),
    )
