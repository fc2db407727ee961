-- ===== src/Ext/Decimal.antt =====
-- Signed machine integers as Rust's `Display` and `FromStr` write and read them.
pub mod Laws
use Prim.Native.Nat.{ℕ, zero, suc, ◌+◌, ◌-◌, ◌*◌, ◌/◌, ◌%◌, ◌^◌}
use radicle_git.Base.{
  ◌≡◌, refl, List, [], ◌∷◌, ◌++◌, if◌then◌else◌, ltb, ◌==◌, ◌||◌, Result, ok, err, map_ok, ◌>>=◌,
  Str, codes, length,
}

pub data ℤ : Type 0 where
  pos negsuc : ℕ → ℤ

-- `core::num::IntErrorKind`
pub data ParseIntError : Type 0 where
  empty invalid_digit pos_overflow neg_overflow : ParseIntError

-- The decimal digits of a number in front of a text; a number has fewer digits than its value.
unfoldable pub digits : ℕ → ℕ → Str → Str
digits zero n out = out
digits (suc f) n out =
    let rest = digits f (n / 10) ((b'0' + n % 10) ∷ out) in
    if ltb n 10 then (b'0' + n) ∷ out else rest

unfoldable pub fmt_nat : ℕ → Str
unfolding digits
fmt_nat n = digits (suc n) n []

-- `Display` of a signed integer.
unfoldable pub fmt_int : ℤ → Str
unfolding fmt_nat
fmt_int (pos n) = fmt_nat n
fmt_int (negsuc n) = b'-' ∷ fmt_nat (suc n)

-- The format `{:0>2}`.
unfoldable pub pad_two : Str → Str
pad_two [] = b'0' ∷ b'0' ∷ []
pad_two (c ∷ []) = b'0' ∷ c ∷ []
pad_two (c ∷ d ∷ s) = c ∷ d ∷ s

-- The loop of `from_str_radix`, on the magnitude and its limit: the checked product, then the sum.
unfoldable pub scan_digits : ℕ → ParseIntError → Str → ℕ → Result ParseIntError ℕ
scan_digits limit overflow [] m = ok m
scan_digits limit overflow (c ∷ s) m =
    let d = c - b'0' in
    let rest = scan_digits limit overflow s (m * 10 + d) in
    if ltb c b'0' || ltb b'9' c
    then err invalid_digit
    else if ltb limit (m * 10)
    then err overflow
    else if ltb limit (m * 10 + d)
    then err overflow
    else rest

abbrev pub negate : ℕ → ℤ
negate zero = pos 0
negate (suc n) = negsuc n

-- `from_str_radix` at ten, for the number of bits.
unfoldable pub parse_unsigned : ℕ → Str → Result ParseIntError ℤ
unfolding scan_digits
parse_unsigned bits s = map_ok pos (scan_digits (2 ^ (bits - 1) - 1) pos_overflow s 0)

unfoldable pub parse_negative : ℕ → Str → Result ParseIntError ℤ
unfolding scan_digits
parse_negative bits s = map_ok negate (scan_digits (2 ^ (bits - 1)) neg_overflow s 0)

unfoldable pub parse_int : ℕ → Str → Result ParseIntError ℤ
unfolding parse_unsigned parse_negative
parse_int bits [] = err empty
parse_int bits (c ∷ []) =
    if c == b'+' || c == b'-' then err invalid_digit else parse_unsigned bits (c ∷ [])
parse_int bits (c ∷ d ∷ s) =
    if c == b'-'
    then parse_negative bits (d ∷ s)
    else if c == b'+'
    then parse_unsigned bits (d ∷ s)
    else parse_unsigned bits (c ∷ d ∷ s)
