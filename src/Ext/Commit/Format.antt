-- ===== src/Ext/Commit/Format.antt =====
-- radicle-git-ext/src/commit.rs: printing and parsing commits.
use radicle_git.Base.{
  List, [], ◌∷◌, ◌++◌, Option, none, some, if◌then◌else◌, Result, ok, err, ◌>>=◌, Str, codes,
  str_eq, split, strip_prefix,
}
use radicle_git.Ext.Author.{Author, fmt_author, Panic, parse_author}
use radicle_git.Ext.Commit.{
  newline, Trailer, Libgit, Commit, CommitError, invalid_header, invalid_format, missing, trim,
  push_header, writeln, fmt_headers, fmt_trailer_part, trailers_to_string, split_blank, split_space,
  lines_of, extend_last, Parsed, without_suffix,
}

module _ {Oid E : Type 0} (g : Libgit Oid E) where
  unfoldable pub fmt_parents : List Oid → Str
  fmt_parents [] = []
  fmt_parents (p ∷ ps) = writeln (codes "parent " ++ g.fmt_oid p) ++ fmt_parents ps

  -- `ToString for Commit`
  unfoldable pub fmt_commit : Commit Oid → Result Panic Str
  unfolding fmt_parents
  fmt_commit c = do
    author ← fmt_author c.author
    committer ← fmt_author c.committer
    ok (
        writeln (codes "tree " ++ g.fmt_oid c.tree)
        ++ fmt_parents c.parents
        ++ writeln (codes "author " ++ author)
        ++ writeln (codes "committer " ++ committer)
        ++ fmt_headers c.headers
        ++ newline ∷ (writeln (trim c.message) ++ fmt_trailer_part c.trailers))

  unfoldable pub read_author : Str → Result (CommitError E) Author
  read_author value = elim (parse_author value) [ ok a ↦ ok a | err e ↦ err (CommitError.author e) ]

  unfoldable pub read_oid : Str → Str → Result (CommitError E) Oid
  read_oid header value = elim (g.oid_from_str value) [
    | ok o ↦ ok o
    | err e ↦ err (invalid_header header e)
  ]

  -- The match on the name of a header.
  unfoldable pub read_header : Parsed Oid → Str → Str → Result (CommitError E) (Parsed Oid)
  unfolding read_author read_oid
  read_header p name value =
      if str_eq name (codes "parent")
      then (read_oid (codes "parent") value >>= λ o. ok (record {
        parents = p.parents ++ o ∷ [];
        author = p.author;
        committer = p.committer;
        headers = p.headers;
      }))
      else if str_eq name (codes "author")
      then (read_author value >>= λ a. ok (record {
        parents = p.parents;
        author = some a;
        committer = p.committer;
        headers = p.headers;
      }))
      else if str_eq name (codes "committer")
      then (read_author value >>= λ a. ok (record {
        parents = p.parents;
        author = p.author;
        committer = some a;
        headers = p.headers;
      }))
      else ok (record {
        parents = p.parents;
        author = p.author;
        committer = p.committer;
        headers = push_header p.headers name value;
      })

  -- The body of the loop.
  unfoldable pub read_line : Parsed Oid → Str → Result (CommitError E) (Parsed Oid)
  unfolding read_header
  read_line p line = elim (strip_prefix (b' ' ∷ []) line) [
    | some rest ↦ elim (extend_last p.headers (newline ∷ rest)) [
      | none ↦ err invalid_format
      | some hs ↦
          ok (record {
            parents = p.parents;
            author = p.author;
            committer = p.committer;
            headers = hs;
          })
    ]
    | none ↦ elim (split_space line) [ none ↦ ok p | some (name, value) ↦ read_header p name value ]
  ]

  unfoldable pub read_lines : Parsed Oid → List Str → Result (CommitError E) (Parsed Oid)
  unfolding read_line
  read_lines p [] = ok p
  read_lines p (l ∷ ls) = do p' ← read_line p l; read_lines p' ls

  unfoldable pub read_tree : List Str → Result (CommitError E) (Oid × List Str)
  unfolding read_oid
  read_tree [] = err (missing (codes "tree"))
  read_tree (l ∷ ls) = elim (strip_prefix (codes "tree ") l) [
    | none ↦ err (missing (codes "tree"))
    | some value ↦ do o ← read_oid (codes "tree") value; ok (o, ls)
  ]

  abbrev or_missing : Str → Option Author → Result (CommitError E) Author
  or_missing what none = err (missing what)
  or_missing what (some a) = ok a

  unfoldable pub read_trailers : Str → Result (CommitError E) (List Trailer)
  read_trailers message = elim (g.message_trailers message) [
    | ok ts ↦ ok ts
    | err e ↦ err (CommitError.trailers e)
  ]

  -- `FromStr for Commit`
  unfoldable pub parse_commit : Str → Result (CommitError E) (Commit Oid)
  unfolding read_tree read_lines read_trailers
  parse_commit buffer = elim (split_blank buffer) [
    | none ↦ err invalid_format
    | some (header, message) ↦ do
      (tree, lines) ← read_tree (lines_of (split newline header))
      p ← read_lines (record { parents = []; author = none; committer = none; headers = [] }) lines
      ts ← read_trailers message
      author ← or_missing (codes "author") p.author
      committer ← or_missing (codes "committer") p.committer
      ok (record {
        tree = tree;
        parents = p.parents;
        author = author;
        committer = committer;
        headers = p.headers;
        message = without_suffix message (trailers_to_string ts);
        trailers = ts;
      })
  ]
