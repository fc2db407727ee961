-- ===== src/Ext/Commit/Tests.antt =====
-- A run of the modelled functions of radicle-git-ext/src/commit.rs.
use mathlib.Core.List.{cons-ne-nil}
use radicle_git.Base.{
  ◌≡◌, refl, Bool, true, false, if◌then◌else◌, [], ◌∷◌, ok, err, Str, codes, str_eq, contains,
  split_first, arith,
}
use radicle_git.Ext.Decimal.{pos, negsuc}
use radicle_git.Ext.Author.{Author, fmt_author}
use radicle_git.Ext.Author.RoundTrip.{IsPrintable}
use radicle_git.Ext.Commit.{
  Libgit, Commit, Trailer, trim, fmt_headers, fmt_trailer_part, strip_return,
}
use radicle_git.Ext.Commit.Format.{fmt_commit, parse_commit}
use radicle_git.Ext.Commit.Read.{ReadsOids}
use radicle_git.Ext.Commit.AuthorLine.{IsOneLine}
use radicle_git.Ext.Commit.RoundTrip.{IsWritable, kept, parse_commit-fmt_commit}

abbrev alice : Author
alice = record {
  name = codes "Alice B.";
  email = codes "alice@example.org";
  time = record { seconds = pos 1658331845; offset = negsuc 89 };
}

-- Two identifiers, and a libgit2 that finds the trailer of one message.
abbrev oid_text : Bool → Str
oid_text true = codes "a1b2"
oid_text false = codes "c3d4"

abbrev signed : Trailer
signed = record { token = codes "Signed-off-by"; value = codes "Alice" }

abbrev libgit : Libgit Bool (Unit {0})
libgit = record {
  oid_from_str = λ s.
      if str_eq s (codes "a1b2")
      then ok true
      else if str_eq s (codes "c3d4")
      then ok false
      else err tt;
  fmt_oid = oid_text;
  message_trailers =
      λ s. if str_eq s (codes "Fix\n\nSigned-off-by: Alice\n") then ok (signed ∷ []) else ok [];
}

abbrev fix : Commit Bool
fix = record {
  tree = true;
  parents = false ∷ [];
  author = alice;
  committer = alice;
  headers = (codes "gpgsig", codes "-----BEGIN-----\nabc\n-----END-----") ∷ [];
  message = codes " Fix\n";
  trailers = signed ∷ [];
}

libgit-ReadsOids : ReadsOids libgit
unfolding str_eq contains
libgit-ReadsOids = record { back = back; no_newline = no_newline; no_return = no_return }
  where
    back : (o : Bool) → libgit.oid_from_str (oid_text o) ≡ ok o
    back true = refl
    back false = refl

    no_newline : (o : Bool) → contains b'\n' (oid_text o) ≡ false
    no_newline true = refl
    no_newline false = refl

    no_return : (o : Bool) → contains b'\r' (oid_text o) ≡ false
    no_return true = refl
    no_return false = refl

alice-IsPrintable : IsPrintable alice
unfolding contains
alice-IsPrintable = record {
  email_lacks = refl;
  email_angles = (refl, refl);
  seconds_fit = omega arith;
  offset_fits = omega arith;
}

alice-IsOneLine : IsOneLine alice
unfolding contains
alice-IsOneLine = record { name_lacks = refl; email_lacks = refl }

fix-IsWritable : IsWritable libgit fix
unfolding contains str_eq trim split_first strip_return fmt_trailer_part
fix-IsWritable = record {
  author_fits = alice-IsPrintable;
  author_line = alice-IsOneLine;
  committer_fits = alice-IsPrintable;
  committer_line = alice-IsOneLine;
  headers_fit = (
    record {
      some_name = λ e. cc;
      no_space = refl;
      no_parent = refl;
      no_author = refl;
      no_committer = refl;
      trimmed = refl;
    },
    tt,
  );
  header_lines_fit = (
    record { no_newline = refl; some_char = cons-ne-nil _ _; no_return = refl },
    (
      record { no_newline = refl; some_char = cons-ne-nil _ _; no_return = refl },
      (record { no_newline = refl; some_char = cons-ne-nil _ _; no_return = refl }, tt),
    ),
  );
  trailers_found = refl;
}

parse_commit-fmt_commit_example :
    (s : Str) × (fmt_commit libgit fix ≡ ok s)
    × (parse_commit libgit s
        ≡ ok (record {
          tree = true;
          parents = false ∷ [];
          author = alice;
          committer = alice;
          headers = fix.headers;
          message = kept (codes " Fix\n") (signed ∷ []);
          trailers = signed ∷ [];
        }))
parse_commit-fmt_commit_example = parse_commit-fmt_commit libgit libgit-ReadsOids fix fix-IsWritable

fmt_commit-fix :
    fmt_commit libgit fix
    ≡ ok (
        codes
          "tree a1b2\nparent c3d4\nauthor Alice B. <alice@example.org> 1658331845 -0130\ncommitter Alice B. <alice@example.org> 1658331845 -0130\ngpgsig -----BEGIN-----\n abc\n -----END-----\n\nFix\n\nSigned-off-by: Alice\n")
unfolding fmt_commit fmt_headers trim fmt_trailer_part fmt_author
fmt_commit-fix = refl
