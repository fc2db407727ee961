-- ===== src/Ext/Author/Clock.antt =====
-- The offset of an author's time, printed as hours and minutes, is parsed again
-- (radicle-git-ext/src/author.rs).
use Prim.Native.Nat.{ℕ, zero, suc, ◌+◌, ◌-◌, ◌*◌, ◌/◌, ◌%◌, ◌^◌, ◌≤◌, ◌<◌}
use radicle_git.Base.{
  ◌≡◌, ◌≢◌, refl, ap, ◌∙◌, true, Bool-cases, inl, inr, [], ◌∷◌, ◌++◌, ltb, ok, map_ok, Str, arith,
}
use radicle_git.Ext.Decimal.{
  ℤ, pos, negsuc, negate, ParseIntError, pos_overflow, neg_overflow, digits, fmt_nat, pad_two,
  scan_digits, parse_unsigned, parse_negative, parse_int,
}
use radicle_git.Ext.Decimal.Laws.{
  scan_digits-digits, AllDigits, AllDigits-fmt_nat, parse_int-plus, parse_int-minus,
}
use radicle_git.Ext.Author.{abs, sign_of, offset_minutes, parse_offset}

digits-append : (f n : ℕ) (out t : Str) → digits f n out ++ t ≡ digits f n (out ++ t)
unfolding digits
digits-append zero n out t = refl
digits-append (suc f) n out t = elim (Bool-cases (ltb n 10)) [
  | inl small ↦ rw small refl
  | inr large ↦ rw large (digits-append f (n / 10) ((b'0' + n % 10) ∷ out) t)
]

-- Zeros in front change nothing.
scan_digits-pad_two :
    (limit : ℕ) (o : ParseIntError) (s t : Str)
    → AllDigits s
    → scan_digits limit o (pad_two s ++ t) 0 ≡ scan_digits limit o (s ++ t) 0
unfolding scan_digits pad_two
scan_digits-pad_two limit o [] t all = ground arith
scan_digits-pad_two limit o (c ∷ []) t all = ground arith
scan_digits-pad_two limit o (c ∷ d ∷ s) t all = refl

pad_two-digits :
    (f b : ℕ) → b < f → b < 100 → pad_two (digits f b []) ≡ (b'0' + b / 10) ∷ (b'0' + b % 10) ∷ []
unfolding pad_two digits
pad_two-digits zero b h small = absurd (omega arith)
pad_two-digits (suc zero) b h small = ground arith
pad_two-digits (suc (suc f)) b h small = elim (Bool-cases (ltb b 10)) [
  | inl one ↦ rw one (ground arith)
  | inr two ↦ let below : ltb (b / 10) 10 ≡ true = ground arith in rw (two, below) refl
]

-- A number below a hundred has two digits, a zero written out.
pad_two-fmt_nat : (b : ℕ) → b < 100 → pad_two (fmt_nat b) ≡ (b'0' + b / 10) ∷ (b'0' + b % 10) ∷ []
unfolding fmt_nat
pad_two-fmt_nat b h = pad_two-digits (suc b) b (omega arith) h

scan_two :
    (limit : ℕ) (o : ParseIntError) (a b : ℕ)
    → b < 100
    → a * 100 + b ≤ limit
    → scan_digits limit o ((b'0' + b / 10) ∷ (b'0' + b % 10) ∷ []) a ≡ ok (a * 100 + b)
unfolding scan_digits
scan_two limit o a b h fits = ground arith

-- The hours and minutes, read as one number.
scan_offset :
    (limit : ℕ) (o : ParseIntError) (a b : ℕ)
    → b < 100
    → a * 100 + b ≤ limit
    → scan_digits limit o (pad_two (fmt_nat a) ++ pad_two (fmt_nat b)) 0 ≡ ok (a * 100 + b)
unfolding fmt_nat
scan_offset limit o a b h fits =
    scan_digits-pad_two limit o (fmt_nat a) (pad_two (fmt_nat b)) (AllDigits-fmt_nat a)
    ∙ ap (λ t. scan_digits limit o t 0) (digits-append (suc a) a [] (pad_two (fmt_nat b)))
    ∙ scan_digits-digits limit o (suc a) a (pad_two (fmt_nat b)) (omega arith) (omega arith)
    ∙ ap (λ t. scan_digits limit o t a) (pad_two-fmt_nat b h)
    ∙ scan_two limit o a b h fits

AllDigits-pad_two : (s : Str) → AllDigits s → AllDigits (pad_two s)
unfolding pad_two
AllDigits-pad_two [] all = (omega arith, omega arith, (omega arith, omega arith, tt))
AllDigits-pad_two (c ∷ []) all = (omega arith, omega arith, all)
AllDigits-pad_two (c ∷ d ∷ s) all = all

AllDigits-append : (s t : Str) → AllDigits s → AllDigits t → AllDigits (s ++ t)
AllDigits-append [] t hs ht = ht
AllDigits-append (c ∷ s) t (low, high, hs) ht = (low, high, AllDigits-append s t hs ht)

-- Hours and minutes, each of two digits at least.
abbrev pub clock : ℕ → Str
clock a = pad_two (fmt_nat (a / 60)) ++ pad_two (fmt_nat (a % 60))

pad_two-ne-nil : (s t : Str) → pad_two s ++ t ≢ []
unfolding pad_two
pad_two-ne-nil [] t e = cc
pad_two-ne-nil (c ∷ []) t e = cc
pad_two-ne-nil (c ∷ d ∷ s) t e = cc

pub clock-ne-nil : (a : ℕ) → clock a ≢ []
clock-ne-nil a = pad_two-ne-nil (fmt_nat (a / 60)) (pad_two (fmt_nat (a % 60)))

pub AllDigits-clock : (a : ℕ) → AllDigits (clock a)
AllDigits-clock a =
    AllDigits-append (pad_two (fmt_nat (a / 60))) (pad_two (fmt_nat (a % 60)))
      (AllDigits-pad_two (fmt_nat (a / 60)) (AllDigits-fmt_nat (a / 60)))
      (AllDigits-pad_two (fmt_nat (a % 60)) (AllDigits-fmt_nat (a % 60)))

-- The offset in minutes can be written as hours and minutes in 32 bits.
abbrev pub OffsetFits : ℤ → Type 0
OffsetFits (pos n) = n / 60 * 100 + n % 60 ≤ 2 ^ 31 - 1
OffsetFits (negsuc n) = suc n / 60 * 100 + suc n % 60 ≤ 2 ^ 31

scan-clock :
    (limit : ℕ) (o : ParseIntError) (a : ℕ)
    → a / 60 * 100 + a % 60 ≤ limit
    → scan_digits limit o (clock a) 0 ≡ ok (a / 60 * 100 + a % 60)
scan-clock limit o a fits = scan_offset limit o (a / 60) (a % 60) (omega arith) fits

minutes_back : (a : ℕ) → (a / 60 * 100 + a % 60) / 100 * 60 + (a / 60 * 100 + a % 60) % 100 ≡ a
minutes_back a = omega arith

offset_minutes-negate : (m : ℕ) → offset_minutes (negate m) ≡ negate (m / 100 * 60 + m % 100)
unfolding offset_minutes
offset_minutes-negate zero = refl
offset_minutes-negate (suc m) = refl

parse_offset-ok : (s : Str) {z : ℤ} → parse_int 32 s ≡ ok z → parse_offset s ≡ ok (offset_minutes z)
unfolding parse_offset
parse_offset-ok s h = rw (parse_offset, h) refl

parse_plus-clock :
    (a : ℕ)
    → a / 60 * 100 + a % 60 ≤ 2 ^ 31 - 1
    → parse_int 32 (b'+' ∷ clock a) ≡ ok (pos (a / 60 * 100 + a % 60))
unfolding parse_unsigned
parse_plus-clock a fits =
    parse_int-plus 32 (clock a) (clock-ne-nil a)
    ∙ ap (map_ok pos) (scan-clock (2 ^ 31 - 1) pos_overflow a fits)

parse_minus-clock :
    (a : ℕ)
    → a / 60 * 100 + a % 60 ≤ 2 ^ 31
    → parse_int 32 (b'-' ∷ clock a) ≡ ok (negate (a / 60 * 100 + a % 60))
unfolding parse_negative
parse_minus-clock a fits =
    parse_int-minus 32 (clock a) (clock-ne-nil a)
    ∙ ap (map_ok negate) (scan-clock (2 ^ 31) neg_overflow a fits)

pub parse_offset-clock :
    (z : ℤ) {a : ℕ} → OffsetFits z → abs z ≡ ok a → parse_offset (sign_of z ∷ clock a) ≡ ok z
unfolding abs sign_of offset_minutes
parse_offset-clock (pos n) {a} fits h =
    let same : n ≡ a = ground arith in
    rw (← same)
      (parse_offset-ok _ (parse_plus-clock n fits) ∙ ap (λ x. ok (pos x)) (minutes_back n))
parse_offset-clock (negsuc n) {a} fits h =
    let same : suc n ≡ a = ground arith in
    rw (← same) (
      parse_offset-ok _ (parse_minus-clock (suc n) fits)
      ∙ ap ok (
          offset_minutes-negate (suc n / 60 * 100 + suc n % 60) ∙ ap negate (minutes_back (suc n))))

pub abs-OffsetFits : (z : ℤ) → OffsetFits z → (a : ℕ) × (abs z ≡ ok a)
unfolding abs
abs-OffsetFits (pos n) fits = (n, refl)
abs-OffsetFits (negsuc n) fits = (suc n, ground arith)
