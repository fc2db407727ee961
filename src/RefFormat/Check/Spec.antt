-- ===== src/RefFormat/Check/Spec.antt =====
-- The rules for reference names one by one, independent of the order in which `ref_format` of
-- core/src/check.rs tests them.
use radicle_git.Base.{
  ℕ, ◌+◌, ◌≤◌, ◌<◌, ◌≡◌, ◌≢◌, ◌⊎◌, true, List, [], ◌∷◌, ◌++◌, ◌==◌, if◌then◌else◌, length, Str,
  codes, All, split,
}
use radicle_git.RefFormat.Check.{Options, dot_lock_suffix}

abbrev pub first_or : ℕ → Str → ℕ
first_or d [] = d
first_or d (c ∷ r) = c

abbrev pub last_or : ℕ → Str → ℕ
last_or d [] = d
last_or d (c ∷ r) = last_or c r

-- Above the control characters and the space, not DEL, and none of \ ~ ^ : ? [
pub record IsAllowed (c : ℕ) : Type 0 where
  pub printable : 32 < c
  pub not_delete : c ≢ 127
  pub not_backslash : c ≢ b'\\'
  pub not_tilde : c ≢ b'~'
  pub not_caret : c ≢ b'^'
  pub not_colon : c ≢ b':'
  pub not_question : c ≢ b'?'
  pub not_bracket : c ≢ b'['

-- Nowhere in the text does `b` stand right behind `a`.
abbrev pub NoPair : ℕ → ℕ → Str → Type 0
NoPair a b [] = Unit
NoPair a b (c ∷ []) = Unit
NoPair a b (c ∷ d ∷ r) = ((c ≢ a) ⊎ (d ≢ b)) × NoPair a b (d ∷ r)

-- One component. The field `no_wrap` is what reading in a cycle adds to git's rules: a component
-- that begins with `{` does not end with `@`.
pub record IsPart (x : Str) : Type 0 where
  pub nonempty : x ≢ []
  pub no_lock : (a : Str) → x ≢ a ++ dot_lock_suffix
  pub allowed : All IsAllowed x
  pub no_dots : NoPair b'.' b'.' x
  pub no_at_brace : NoPair b'@' b'{' x
  pub no_wrap : (last_or 0 x ≢ b'@') ⊎ (first_or 0 x ≢ b'{')
  pub no_first_dot : first_or 0 x ≢ b'.'
  pub no_last_dot : last_or 0 x ≢ b'.'

-- The number of `*` in a text, and in all components.
abbrev pub stars : Str → ℕ
stars [] = 0
stars (c ∷ r) = (if c == b'*' then 1 else 0) + stars r

abbrev pub all_stars : List Str → ℕ
all_stars [] = 0
all_stars (x ∷ xs) = stars x + all_stars xs

pub record IsRefname (opts : Options) (s : Str) : Type 0 where
  pub not_lone_at : s ≢ codes "@"
  pub parts : All IsPart (split b'/' s)
  pub levels : (opts.allow_onelevel ≡ true) ⊎ (2 ≤ length (split b'/' s))
  pub globs :
      ((opts.allow_pattern ≡ true) × (all_stars (split b'/' s) ≤ 1))
      ⊎ (all_stars (split b'/' s) ≡ 0)
