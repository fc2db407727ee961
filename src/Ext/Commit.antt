-- ===== src/Ext/Commit.antt =====
-- radicle-git-ext/src/commit.rs, commit/headers.rs and commit/trailers.rs: a commit as the text of
-- its object.
pub mod Format
pub mod Lines
pub mod Read
pub mod AuthorLine
mod Tests
pub mod RoundTrip
use Prim.Native.Nat.{ℕ}
use radicle_git.Base.{
  Bool, true, false, ◌||◌, ◌&&◌, leb, List, [], ◌∷◌, ◌++◌, Option, none, some, if◌then◌else◌, ◌==◌,
  Result, ok, err, ◌>>=◌, Str, codes, str_eq, split, strip_prefix,
}
use radicle_git.Ext.Author.{Author, ParseError}

abbrev pub newline : ℕ
newline = b'\n'

-- A header's name and value.
abbrev pub Headers : Type 0
Headers = List (Str × Str)

pub record Trailer : Type 0 where
  pub token : Str
  pub value : Str

-- What libgit2 makes of identifiers, and of the trailers of a message.
pub record Libgit (Oid E : Type 0) : Type 0 where
  pub oid_from_str : Str → Result E Oid
  pub fmt_oid : Oid → Str
  pub message_trailers : Str → Result E (List Trailer)

pub record Commit (Oid : Type 0) : Type 0 where
  pub tree : Oid
  pub parents : List Oid
  pub author : Author
  pub committer : Author
  pub headers : Headers
  pub message : Str
  pub trailers : List Trailer

-- `error::Parse`, without `Utf8`, which no text meets.
pub data CommitError (E : Type 0) : Type 0 where
  author : ParseError → CommitError E
  invalid_header : Str → E → CommitError E
  invalid_format : CommitError E
  missing : Str → CommitError E
  trailers : E → CommitError E

-- The characters of the Unicode property `White_Space`.
abbrev pub is_whitespace : ℕ → Bool
is_whitespace c =
    (leb 9 c && leb c 13)
    || c == 32
    || c == 133
    || c == 160
    || c == 5760
    || (leb 8192 c && leb c 8202)
    || c == 8232
    || c == 8233
    || c == 8239
    || c == 8287
    || c == 12288

unfoldable pub trim_left : Str → Str
trim_left [] = []
trim_left (c ∷ s) = let rest = trim_left s in if is_whitespace c then rest else c ∷ s

unfoldable pub trim_right : Str → Str
trim_right [] = []
trim_right (c ∷ s) = elim (trim_right s) [
  | [] ↦ (if is_whitespace c then [] else c ∷ [])
  | d ∷ r ↦ c ∷ d ∷ r
]

-- `str::trim`
unfoldable pub trim : Str → Str
unfolding trim_left trim_right
trim s = trim_right (trim_left s)

-- `Headers::push`
unfoldable pub push_header : Headers → Str → Str → Headers
unfolding trim
push_header hs name value = hs ++ (name, trim value) ∷ []

abbrev pub writeln : Str → Str
writeln s = s ++ newline ∷ []

-- `value.replace('\n', "\n ")`
unfoldable pub indent : Str → Str
indent [] = []
indent (c ∷ s) = if c == newline then newline ∷ b' ' ∷ indent s else c ∷ indent s

unfoldable pub fmt_headers : Headers → Str
unfolding indent
fmt_headers [] = []
fmt_headers ((name, value) ∷ hs) = writeln (name ++ b' ' ∷ indent value) ++ fmt_headers hs

-- `Trailer::display(": ")`
abbrev pub fmt_trailer : Trailer → Str
fmt_trailer t = t.token ++ codes ": " ++ t.value

unfoldable pub fmt_trailers : List Trailer → Str
fmt_trailers [] = []
fmt_trailers (t ∷ ts) = writeln (fmt_trailer t) ++ fmt_trailers ts

-- The empty line in front of trailers, if there are any.
unfoldable pub fmt_trailer_part : List Trailer → Str
unfolding fmt_trailers
fmt_trailer_part [] = []
fmt_trailer_part (t ∷ ts) = newline ∷ fmt_trailers (t ∷ ts)

-- `Trailers::to_string(": ")`: one newline between each two and one at the end.
unfoldable pub trailers_to_string : List Trailer → Str
trailers_to_string [] = newline ∷ []
trailers_to_string (t ∷ []) = writeln (fmt_trailer t)
trailers_to_string (t ∷ u ∷ ts) = fmt_trailer t ++ newline ∷ trailers_to_string (u ∷ ts)

-- `split_once("\n\n")`
unfoldable pub split_blank : Str → Option (Str × Str)
split_blank [] = none
split_blank (c ∷ []) = none
split_blank (c ∷ d ∷ s) =
    let rest = split_blank (d ∷ s) in
    if c == newline && d == newline
    then some ([], s)
    else elim rest [ none ↦ none | some (a, b) ↦ some (c ∷ a, b) ]

-- `split_once(' ')`
unfoldable pub split_space : Str → Option (Str × Str)
split_space [] = none
split_space (c ∷ s) =
    let rest = split_space s in
    if c == b' ' then some ([], s) else elim rest [ none ↦ none | some (a, b) ↦ some (c ∷ a, b) ]

-- A carriage return in front of the newline belongs to the line's end.
unfoldable pub strip_return : Str → Str
strip_return [] = []
strip_return (c ∷ []) = if c == b'\r' then [] else c ∷ []
strip_return (c ∷ d ∷ s) = c ∷ strip_return (d ∷ s)

-- `str::lines`, of the pieces between newlines.
unfoldable pub lines_of : List Str → List Str
unfolding strip_return
lines_of [] = []
lines_of ([] ∷ []) = []
lines_of ((c ∷ x) ∷ []) = (c ∷ x) ∷ []
lines_of (x ∷ y ∷ r) = strip_return x ∷ lines_of (y ∷ r)

-- `headers.0.last_mut()` and the pushes onto its value.
unfoldable pub extend_last : Headers → Str → Option Headers
extend_last [] s = none
extend_last ((name, value) ∷ []) s = some ((name, value ++ s) ∷ [])
extend_last (h ∷ i ∷ hs) s = elim (extend_last (i ∷ hs) s) [ none ↦ none | some r ↦ some (h ∷ r) ]

-- The variables of the loop over the lines.
pub record Parsed (Oid : Type 0) : Type 0 where
  pub parents : List Oid
  pub author : Option Author
  pub committer : Option Author
  pub headers : Headers

-- `strip_suffix(..).unwrap_or(message)`
unfoldable pub without_suffix : Str → Str → Str
unfolding str_eq
without_suffix [] suffix = []
without_suffix (c ∷ s) suffix = if str_eq (c ∷ s) suffix then [] else c ∷ without_suffix s suffix
