-- ===== src/Ext/Author.antt =====
-- radicle-git-ext/src/author.rs: the author of a commit, printed and parsed.
pub mod Clock
pub mod RoundTrip
use Prim.Native.Nat.{ℕ, zero, suc, ◌+◌, ◌-◌, ◌*◌, ◌/◌, ◌%◌, ◌^◌}
use radicle_git.Base.{
  Bool, true, false, ◌||◌, List, [], ◌∷◌, ◌++◌, Option, none, some, if◌then◌else◌, ◌==◌, Result, ok,
  err, ◌>>=◌, Str, codes, split, join_with,
}
use radicle_git.Ext.Decimal.{
  ℤ, pos, negsuc, negate, ParseIntError, fmt_nat, fmt_int, pad_two, parse_int,
}

pub record Time : Type 0 where
  pub seconds : ℤ
  pub offset : ℤ

pub record Author : Type 0 where
  pub name : Str
  pub email : Str
  pub time : Time

-- The panic of `i32::abs` at the least value, where overflow is checked.
pub data Panic : Type 0 where
  abs_overflow : Panic

-- `i32::abs`
unfoldable pub abs : ℤ → Result Panic ℕ
abs (pos n) = ok n
abs (negsuc n) = if suc n == 2 ^ 31 then err abs_overflow else ok (suc n)

-- The sign that `is_negative` chooses.
unfoldable pub sign_of : ℤ → ℕ
sign_of (pos _) = b'+'
sign_of (negsuc _) = b'-'

-- `Display for Time`
unfoldable pub fmt_time : Time → Result Panic Str
unfolding abs sign_of fmt_int fmt_nat pad_two
fmt_time t = do
  a ← abs t.offset
  ok (
      fmt_int t.seconds
      ++ b' ' ∷ sign_of t.offset ∷ (pad_two (fmt_nat (a / 60)) ++ pad_two (fmt_nat (a % 60))))

-- `Display for Author`
unfoldable pub fmt_author : Author → Result Panic Str
unfolding fmt_time
fmt_author a = do t ← fmt_time a.time; ok (a.name ++ b' ' ∷ b'<' ∷ (a.email ++ b'>' ∷ b' ' ∷ t))

pub data ParseError : Type 0 where
  missing : Str → ParseError
  offset : ParseIntError → ParseError
  time : ParseIntError → ParseError
  unknown_offset : ParseError

-- `next_back` of an iterator over a list.
unfoldable pub next_back : List Str → Option (List Str × Str)
next_back [] = none
next_back (x ∷ xs) = elim (next_back xs) [ none ↦ some ([], x) | some (ys, y) ↦ some (x ∷ ys, y) ]

abbrev pub is_angle : ℕ → Bool
is_angle c = c == b'<' || c == b'>'

unfoldable pub trim_start : Str → Str
trim_start [] = []
trim_start (c ∷ s) = let rest = trim_start s in if is_angle c then rest else c ∷ s

unfoldable pub trim_end : Str → Str
trim_end [] = []
trim_end (c ∷ s) = elim (trim_end s) [
  | [] ↦ (if is_angle c then [] else c ∷ [])
  | d ∷ r ↦ c ∷ d ∷ r
]

-- `trim_matches(|c| c == '<' || c == '>')`
unfoldable pub trim_angles : Str → Str
unfolding trim_start trim_end
trim_angles s = trim_end (trim_start s)

-- `hours * 60 + minutes`, where `/` and `%` of Rust round to zero.
unfoldable pub offset_minutes : ℤ → ℤ
offset_minutes (pos n) = pos (n / 100 * 60 + n % 100)
offset_minutes (negsuc n) = negate (suc n / 100 * 60 + suc n % 100)

unfoldable pub parse_offset : Str → Result ParseError ℤ
unfolding parse_int offset_minutes
parse_offset s = elim (parse_int 32 s) [ ok n ↦ ok (offset_minutes n) | err e ↦ err (offset e) ]

unfoldable pub parse_time : Str → Result ParseError ℤ
unfolding parse_int
parse_time s = elim (parse_int 64 s) [ ok n ↦ ok n | err e ↦ err (time e) ]

-- `ok_or(ParseError::Missing(..))`
abbrev pub or_missing : Str → Option (List Str × Str) → Result ParseError (List Str × Str)
or_missing what none = err (missing what)
or_missing what (some x) = ok x

-- `FromStr for Author`
unfoldable pub parse_author : Str → Result ParseError Author
unfolding next_back parse_offset parse_time trim_angles
parse_author s = do
  (rest, o) ← or_missing (codes "offset") (next_back (split b' ' s))
  minutes ← parse_offset o
  (rest1, t) ← or_missing (codes "time") (next_back rest)
  seconds ← parse_time t
  (rest2, email) ← or_missing (codes "email") (next_back rest1)
  ok (record {
    name = join_with b' ' rest2;
    email = trim_angles email;
    time = record { seconds = seconds; offset = minutes };
  })
