-- ===== src/RefFormat/Check.antt =====
-- radicle-git-ext/git-ref-format/core/src/check.rs: the validation of reference names.
pub mod Spec
pub mod Sound
use radicle_git.Base.{
  ℕ, ◌+◌, ◌-◌, Bool, true, false, not, ◌&&◌, ◌||◌, List, [], ◌∷◌, ltb, leb, ◌==◌, if◌then◌else◌,
  length, Result, ok, err, ◌>>=◌, Str, codes, str_eq, ends_with, split,
}

pub record Options : Type 0 where
  pub allow_onelevel : Bool
  pub allow_pattern : Bool

pub data Error : Type 0 where
  empty lone_at slash dot_lock dot_dot at_open_brace : Error
  invalid_char : ℕ → Error
  starts_dot ends_dot control space pattern onelevel : Error

-- `char::is_ascii_control`
abbrev pub is_ascii_control : ℕ → Bool
is_ascii_control c = leb c 31 || c == 127

-- The seven characters that are refused with `InvalidChar`: NUL \ ~ ^ : ? [
abbrev pub is_refused : ℕ → Bool
is_refused c = c == 0 || c == b'\\' || c == b'~' || c == b'^' || c == b':' || c == b'?' || c == b'['

-- The arms of the match on a character, the one behind it, its index and that of the last one:
-- by how much the count of globs grows.
unfoldable pub judge : ℕ → ℕ → ℕ → ℕ → Result Error ℕ
judge i last_char c d =
    if c == b'.' && d == b'.'
    then err dot_dot
    else if c == b'@' && d == b'{'
    then err at_open_brace
    else if is_refused c
    then err (invalid_char c)
    else if c == b'*'
    then ok 1
    else if c == b'.' && i == 0
    then err starts_dot
    else if c == b'.' && i == last_char
    then err ends_dot
    else if c == b' '
    then err space
    else if is_ascii_control c
    then err control
    else ok 0

-- The next character of `x.chars().cycle().skip(1)`: behind the last one comes the first.
abbrev pub next_char : ℕ → Str → ℕ
next_char first [] = first
next_char first (d ∷ _) = d

-- The loop over the characters of one component.
unfoldable pub scan : ℕ → ℕ → ℕ → ℕ → Str → Result Error ℕ
scan first last_char i globs [] = ok globs
scan first last_char i globs (c ∷ r) = do
  n ← judge i last_char c (next_char first r)
  scan first last_char (i + 1) (globs + n) r

abbrev pub dot_lock_suffix : Str
dot_lock_suffix = codes ".lock"

-- The body of the loop over the components.
unfoldable pub check_part : ℕ → Str → Result Error ℕ
unfolding scan
check_part globs [] = err slash
check_part globs (c ∷ r) =
    if ends_with (c ∷ r) dot_lock_suffix
    then err dot_lock
    else scan c (length (c ∷ r) - 1) 0 globs (c ∷ r)

-- The loop over the components: the counts of globs and of parts.
unfoldable pub check_parts : ℕ → ℕ → List Str → Result Error (ℕ × ℕ)
check_parts globs parts [] = ok (globs, parts)
check_parts globs parts (x ∷ xs) = do globs' ← check_part globs x; check_parts globs' (parts + 1) xs

-- The tests behind the loops.
unfoldable pub check_counts : Options → ℕ → ℕ → Result Error (Unit {0})
check_counts opts globs parts =
    if ltb parts 2 && not opts.allow_onelevel
    then err onelevel
    else if ltb 1 globs && opts.allow_pattern
    then err pattern
    else if ltb 0 globs && not opts.allow_pattern
    then err (invalid_char b'*')
    else ok tt

unfoldable pub ref_format : Options → Str → Result Error (Unit {0})
unfolding check_parts check_part check_counts str_eq
ref_format opts s =
    if str_eq s []
    then err empty
    else if str_eq s (codes "@")
    then err lone_at
    else if str_eq s (codes ".")
    then err starts_dot
    else do (globs, parts) ← check_parts 0 0 (split b'/' s); check_counts opts globs parts
