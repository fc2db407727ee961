-- ===== src/Ext/Commit/Lines.antt =====
-- The lines of a commit object (radicle-git-ext/src/commit.rs): lines that are written are read.
use Prim.Native.Nat.{ℕ}
use radicle_git.Base.{
  ◌≡◌, ◌≢◌, refl, sym, ap, ap₂, ◌∙◌, false, Bool-cases, inl, inr, ◌==◌, List, [], ◌∷◌, ◌++◌,
  append_assoc, append-nil, map, Option, none, some, Option-cases, Str, contains, Lacks, split,
  split_first, split-join_with, join_with, joined, All, arith,
}
use radicle_git.Ext.Commit.{
  newline, Headers, writeln, indent, fmt_headers, split_blank, split_space, strip_return, lines_of,
  extend_last,
}

-- Lines, each ended.
abbrev pub block : List Str → Str
block [] = []
block (l ∷ ls) = writeln l ++ block ls

pub block-append : (xs ys : List Str) → block (xs ++ ys) ≡ block xs ++ block ys
block-append [] ys = refl
block-append (x ∷ xs) ys =
    ap (λ t. writeln x ++ t) (block-append xs ys)
    ∙ sym (append_assoc (writeln x) (block xs) (block ys))

-- A line that is read as it is written.
pub record IsLine (l : Str) : Type 0 where
  pub no_newline : Lacks newline l
  pub some_char : l ≢ []
  pub no_return : strip_return l ≡ l

abbrev prefixed : Str → Option (Str × Str) → Option (Str × Str)
prefixed x none = none
prefixed x (some (a, b)) = some (x ++ a, b)

split_blank-Lacks :
    (x : Str) (d : ℕ) (t : Str)
    → Lacks newline x
    → split_blank (x ++ d ∷ t) ≡ prefixed x (split_blank (d ∷ t))
unfolding split_blank contains
split_blank-Lacks [] d t h = elim (Option-cases (split_blank (d ∷ t))) [
  | inl e ↦ rw e refl
  | inr (a, e) ↦ rw e refl
]
split_blank-Lacks (c ∷ []) d t h =
    let other : (c == newline) ≡ false = ground arith in
    elim (Option-cases (split_blank (d ∷ t))) [
      | inl e ↦ rw (other, e) refl
      | inr (a, e) ↦ rw (other, e) refl
    ]
split_blank-Lacks (c ∷ e ∷ x) d t h =
    let other : (c == newline) ≡ false = ground arith in
    let rest = split_blank-Lacks (e ∷ x) d t (ground arith) in
    elim (Option-cases (split_blank (d ∷ t))) [
      | inl e' ↦ rw (other, rest, e') refl
      | inr (a, e') ↦ rw (other, rest, e') refl
    ]

split_blank-newlines : (s : Str) → split_blank (newline ∷ newline ∷ s) ≡ some ([], s)
unfolding split_blank
split_blank-newlines s = refl

split_blank-newline :
    (c : ℕ) (s : Str) {a b : Str}
    → (c == newline) ≡ false
    → split_blank (c ∷ s) ≡ some (a, b)
    → split_blank (newline ∷ c ∷ s) ≡ some (newline ∷ a, b)
unfolding split_blank
split_blank-newline c s other h = rw (other, h) refl

first_char : (l : Str) → IsLine l → (c : ℕ) × (s : Str) × (l ≡ c ∷ s) × ((c == newline) ≡ false)
unfolding contains
first_char [] h = absurd (h.some_char refl)
first_char (c ∷ s) h = let lacks = h.no_newline in (c, s, refl, ground arith)

split_blank-behind :
    (m : Str) (ms : List Str) (rest : Str) {c : ℕ} {s a b : Str}
    → m ≡ c ∷ s
    → (c == newline) ≡ false
    → split_blank (block (m ∷ ms) ++ newline ∷ rest) ≡ some (a, b)
    → split_blank (newline ∷ (block (m ∷ ms) ++ newline ∷ rest)) ≡ some (newline ∷ a, b)
split_blank-behind m ms rest {c} {s} shape other h =
    rw shape (split_blank-newline c _ other (rw shape at h))

-- The lines of a header section and an empty line: what stands in front of the empty line.
pub split_blank-block :
    (l : Str) (ls : List Str) (rest : Str)
    → All IsLine (l ∷ ls)
    → split_blank (block (l ∷ ls) ++ newline ∷ rest) ≡ some (join_with newline (l ∷ ls), rest)
split_blank-block l [] rest h =
    let text : block (l ∷ []) ++ newline ∷ rest ≡ l ++ newline ∷ newline ∷ rest =
      ap (λ t. t ++ newline ∷ rest) (append-nil (writeln l))
      ∙ append_assoc l (newline ∷ []) (newline ∷ rest) in
    ap split_blank text
    ∙ split_blank-Lacks l newline (newline ∷ rest) h.0.no_newline
    ∙ ap (prefixed l) (split_blank-newlines rest)
split_blank-block l (m ∷ ms) rest h =
    let (c, s, shape, other) = first_char m h.1.0 in
    let tail = block (m ∷ ms) ++ newline ∷ rest in
    let text : block (l ∷ m ∷ ms) ++ newline ∷ rest ≡ l ++ newline ∷ tail =
      append_assoc (writeln l) (block (m ∷ ms)) (newline ∷ rest)
      ∙ append_assoc l (newline ∷ []) tail in
    ap split_blank text
    ∙ split_blank-Lacks l newline tail h.0.no_newline
    ∙ ap (prefixed l) (split_blank-behind m ms rest shape other (split_blank-block m ms rest h.1))

-- The lines of a value, those behind the first with a space in front.
pub indent-joined :
    (v : Str)
    → indent v
      ≡ (split_first newline v).0 ++ joined newline (map (◌∷◌ b' ') (split_first newline v).1)
unfolding indent split_first
indent-joined [] = refl
indent-joined (c ∷ v) = elim (Bool-cases (c == newline)) [
  | inl e ↦ rw e (ap (λ t. newline ∷ b' ' ∷ t) (indent-joined v))
  | inr e ↦ rw e (ap (◌∷◌ c) (indent-joined v))
]

writeln-joined : (x : Str) (ls : List Str) → writeln (x ++ joined newline ls) ≡ block (x ∷ ls)
writeln-joined x [] = ap writeln (append-nil x) ∙ sym (append-nil (writeln x))
writeln-joined x (l ∷ ls) =
    append_assoc x (newline ∷ (l ++ joined newline ls)) (newline ∷ [])
    ∙ ap (λ t. x ++ newline ∷ t) (writeln-joined l ls)
    ∙ sym (append_assoc x (newline ∷ []) (block (l ∷ ls)))

pub split_space-append : (n v : Str) → Lacks b' ' n → split_space (n ++ b' ' ∷ v) ≡ some (n, v)
unfolding split_space contains
split_space-append [] v h = refl
split_space-append (c ∷ n) v h =
    let other : (c == b' ') ≡ false = ground arith in
    let rest : Lacks b' ' n = ground arith in rw (other, split_space-append n v rest) refl

pub extend_last-append :
    (hs : Headers) (n v s : Str) → extend_last (hs ++ (n, v) ∷ []) s ≡ some (hs ++ (n, v ++ s) ∷ [])
unfolding extend_last
extend_last-append [] n v s = refl
extend_last-append (h ∷ []) n v s = refl
extend_last-append (h ∷ i ∷ hs) n v s = rw (extend_last-append (i ∷ hs) n v s) refl

lines_of-IsLine : (ls : List Str) → All IsLine ls → lines_of ls ≡ ls
unfolding lines_of
lines_of-IsLine [] h = refl
lines_of-IsLine ([] ∷ []) h = absurd (h.0.some_char refl)
lines_of-IsLine ((c ∷ x) ∷ []) h = refl
lines_of-IsLine (x ∷ y ∷ r) h = ap₂ ◌∷◌ h.0.no_return (lines_of-IsLine (y ∷ r) h.1)

Lacks-IsLine : (ls : List Str) → All IsLine ls → All (Lacks newline) ls
Lacks-IsLine [] h = tt
Lacks-IsLine (l ∷ ls) h = (h.0.no_newline, Lacks-IsLine ls h.1)

-- Lines that are joined are found again.
pub lines_of-join_with :
    (l : Str) (ls : List Str)
    → All IsLine (l ∷ ls)
    → lines_of (split newline (join_with newline (l ∷ ls))) ≡ l ∷ ls
lines_of-join_with l ls h =
    ap lines_of (split-join_with newline l ls (Lacks-IsLine (l ∷ ls) h))
    ∙ lines_of-IsLine (l ∷ ls) h

-- The lines that a header takes.
abbrev pub header_lines : Str × Str → List Str
header_lines (name, value) =
    (name ++ b' ' ∷ (split_first newline value).0) ∷ map (◌∷◌ b' ') (split_first newline value).1

abbrev pub headers_lines : Headers → List Str
headers_lines [] = []
headers_lines (h ∷ hs) = header_lines h ++ headers_lines hs

pub fmt_headers-block : (hs : Headers) → fmt_headers hs ≡ block (headers_lines hs)
unfolding fmt_headers
fmt_headers-block [] = refl
fmt_headers-block ((name, value) ∷ hs) =
    let first = (split_first newline value).0 in
    let more = map (◌∷◌ b' ') (split_first newline value).1 in
    let written : writeln (name ++ b' ' ∷ indent value) ≡ block (header_lines (name, value)) =
      ap (λ t. writeln (name ++ b' ' ∷ t)) (indent-joined value)
      ∙ ap writeln (sym (append_assoc name (b' ' ∷ first) (joined newline more)))
      ∙ writeln-joined (name ++ b' ' ∷ first) more in
    ap₂ ◌++◌ written (fmt_headers-block hs)
    ∙ sym (block-append (header_lines (name, value)) (headers_lines hs))
