-- ===== src/Ext/Decimal/Laws.antt =====
-- Integers that are printed are read back (Rust's `Display` and `FromStr` of integers, which
-- radicle-git-ext/src/author.rs uses).
use Prim.Native.Nat.{ℕ, zero, suc, ◌+◌, ◌-◌, ◌/◌, ◌%◌, ◌^◌, ◌≤◌, ◌<◌}
use radicle_git.Base.{
  ◌≡◌, ◌≢◌, refl, ap, ◌∙◌, false, Bool-cases, inl, inr, [], ◌∷◌, ltb, ok, map_ok, Str, contains,
  arith,
}
use radicle_git.Ext.Decimal.{
  ℤ, pos, negsuc, negate, ParseIntError, digits, fmt_nat, fmt_int, scan_digits, parse_unsigned,
  parse_negative, parse_int,
}

-- Reading the digits of a number, the number is reached.
pub scan_digits-digits :
    (limit : ℕ) (o : ParseIntError) (f n : ℕ) (out : Str)
    → n < f
    → n ≤ limit
    → scan_digits limit o (digits f n out) 0 ≡ scan_digits limit o out n
unfolding digits scan_digits
scan_digits-digits limit o zero n out h fits = absurd (omega arith)
scan_digits-digits limit o (suc f) n out h fits = elim (Bool-cases (ltb n 10)) [
  | inl small ↦ rw small (ground arith)
  | inr large ↦ rw large (
      scan_digits-digits limit o f (n / 10) ((b'0' + n % 10) ∷ out) (ground arith) (ground arith)
      ∙ ground arith)
]

-- Digits only.
abbrev pub AllDigits : Str → Type 0
AllDigits [] = Unit
AllDigits (c ∷ s) = (b'0' ≤ c) × (c ≤ b'9') × AllDigits s

pub AllDigits-digits : (f n : ℕ) (out : Str) → n < f → AllDigits out → AllDigits (digits f n out)
unfolding digits
AllDigits-digits zero n out h all = absurd (omega arith)
AllDigits-digits (suc f) n out h all = elim (Bool-cases (ltb n 10)) [
  | inl small ↦ rw small (omega arith, ground arith, all)
  | inr large ↦ rw large (
      AllDigits-digits f (n / 10) ((b'0' + n % 10) ∷ out) (ground arith)
        (omega arith, omega arith, all))
]

digits-ne-nil : (f n : ℕ) (out : Str) → n < f → digits f n out ≢ []
unfolding digits
digits-ne-nil zero n out h = absurd (omega arith)
digits-ne-nil (suc f) n out h = elim (Bool-cases (ltb n 10)) [
  | inl small ↦ rw small (λ e. cc)
  | inr large ↦ rw large (digits-ne-nil f (n / 10) ((b'0' + n % 10) ∷ out) (ground arith))
]

pub AllDigits→lacks : (c : ℕ) (s : Str) → c < b'0' → AllDigits s → contains c s ≡ false
unfolding contains
AllDigits→lacks c [] h all = refl
AllDigits→lacks c (d ∷ s) h (low, high, all) = ground (arith, AllDigits→lacks c s h all)

pub AllDigits-fmt_nat : (n : ℕ) → AllDigits (fmt_nat n)
unfolding fmt_nat
AllDigits-fmt_nat n = AllDigits-digits (suc n) n [] (omega arith) tt

fmt_nat-ne-nil : (n : ℕ) → fmt_nat n ≢ []
unfolding fmt_nat
fmt_nat-ne-nil n = digits-ne-nil (suc n) n [] (omega arith)

pub scan_digits-fmt_nat :
    (limit : ℕ) (o : ParseIntError) (n : ℕ) → n ≤ limit → scan_digits limit o (fmt_nat n) 0 ≡ ok n
unfolding fmt_nat scan_digits
scan_digits-fmt_nat limit o n fits = scan_digits-digits limit o (suc n) n [] (omega arith) fits

-- A text that is digits has no sign to be read.
pub parse_int-AllDigits :
    (bits : ℕ) (s : Str) → s ≢ [] → AllDigits s → parse_int bits s ≡ parse_unsigned bits s
unfolding parse_int
parse_int-AllDigits bits [] h all = absurd (h refl)
parse_int-AllDigits bits (c ∷ []) h (low, high, all) = ground arith
parse_int-AllDigits bits (c ∷ d ∷ s) h (low, high, all) = ground arith

pub parse_int-minus :
    (bits : ℕ) (s : Str) → s ≢ [] → parse_int bits (b'-' ∷ s) ≡ parse_negative bits s
unfolding parse_int
parse_int-minus bits [] h = absurd (h refl)
parse_int-minus bits (d ∷ s) h = refl

pub parse_int-plus :
    (bits : ℕ) (s : Str) → s ≢ [] → parse_int bits (b'+' ∷ s) ≡ parse_unsigned bits s
unfolding parse_int
parse_int-plus bits [] h = absurd (h refl)
parse_int-plus bits (d ∷ s) h = refl

-- The integer has that many bits.
abbrev pub FitsIn : ℕ → ℤ → Type 0
FitsIn bits (pos n) = n ≤ 2 ^ (bits - 1) - 1
FitsIn bits (negsuc n) = suc n ≤ 2 ^ (bits - 1)

-- An integer of so many bits that is printed is read back.
pub parse_int-fmt_int : (bits : ℕ) (z : ℤ) → FitsIn bits z → parse_int bits (fmt_int z) ≡ ok z
unfolding fmt_int parse_unsigned parse_negative
parse_int-fmt_int bits (pos n) fits =
    parse_int-AllDigits bits (fmt_nat n) (fmt_nat-ne-nil n) (AllDigits-fmt_nat n)
    ∙ ap (map_ok pos) (scan_digits-fmt_nat (2 ^ (bits - 1) - 1) ParseIntError.pos_overflow n fits)
parse_int-fmt_int bits (negsuc n) fits =
    parse_int-minus bits (fmt_nat (suc n)) (fmt_nat-ne-nil (suc n))
    ∙ ap (map_ok negate)
        (scan_digits-fmt_nat (2 ^ (bits - 1)) ParseIntError.neg_overflow (suc n) fits)
