-- ===== src/Ext/Commit/RoundTrip.antt =====
-- A commit that is printed is parsed again (radicle-git-ext/src/commit.rs).
use Prim.Native.Nat.{ℕ}
use radicle_git.Base.{
  ◌≡◌, ◌≢◌, refl, sym, ap, ap₂, ◌∙◌, false, Bool-cases, inl, inr, List, [], ◌∷◌, ◌++◌, append_assoc,
  append-nil, none, some, ok, Str, codes, str_eq, str_eq_iff, str_eq_refl, strip_prefix_iff,
  contains, Lacks, All, All-append, length, length-append, arith,
}
use radicle_git.Ext.Author.{fmt_author, parse_author}
use radicle_git.Ext.Author.RoundTrip.{IsPrintable, contains-append, parse_author-fmt_author}
use radicle_git.Ext.Commit.{
  newline, Trailer, Libgit, Commit, trim, writeln, fmt_trailer, fmt_trailers, fmt_trailer_part,
  trailers_to_string, strip_return, Parsed, without_suffix,
}
use radicle_git.Ext.Commit.Format.{
  fmt_parents, fmt_commit, read_lines, read_tree, read_trailers, parse_commit,
}
use radicle_git.Ext.Commit.Lines.{
  block, block-append, IsLine, split_blank-block, lines_of-join_with, headers_lines,
  fmt_headers-block,
}
use radicle_git.Ext.Commit.Read.{
  IsHeader, ReadsOids, with_parents, read_lines-cons, read_lines-append, parent_lines,
  read_oid-fmt_oid, read_lines-headers, read_lines-parents, read_line-author, read_line-committer,
}
use radicle_git.Ext.Commit.AuthorLine.{
  append-ne-nil, strip_return-append, strip_return-Lacks, IsOneLine, fmt_author-IsLine,
}

trailers_to_string-lem :
    (t : Trailer) (ts : List Trailer) → trailers_to_string (t ∷ ts) ≡ fmt_trailers (t ∷ ts)
unfolding trailers_to_string fmt_trailers
trailers_to_string-lem t [] = sym (append-nil (writeln (fmt_trailer t)))
trailers_to_string-lem t (u ∷ ts) =
    ap (λ x. fmt_trailer t ++ newline ∷ x) (trailers_to_string-lem u ts)
    ∙ sym (append_assoc (fmt_trailer t) (newline ∷ []) (fmt_trailers (u ∷ ts)))

longer : (c : ℕ) (x s : Str) → str_eq (c ∷ (x ++ s)) s ≡ false
longer c x s = elim (Bool-cases (str_eq (c ∷ (x ++ s)) s)) [
  | inr e ↦ e
  | inl e ↦ absurd (omega (arith, length-append x s, ap length ((str_eq_iff (c ∷ (x ++ s)) s).0 e)))
]

without_suffix-append : (x s : Str) → s ≢ [] → without_suffix (x ++ s) s ≡ x
unfolding without_suffix
without_suffix-append [] [] h = absurd (h refl)
without_suffix-append [] (c ∷ s) h = rw (str_eq_refl (c ∷ s)) refl
without_suffix-append (c ∷ x) s h = rw (longer c x s) (ap (◌∷◌ c) (without_suffix-append x s h))

-- The message that is read again: its ends are trimmed, and trailers leave the empty line in front
-- of them.
abbrev pub kept : Str → List Trailer → Str
kept message [] = trim message
kept message (t ∷ ts) = writeln (writeln (trim message))

no_trailers : trailers_to_string [] ≡ newline ∷ []
unfolding trailers_to_string
no_trailers = refl

left-ne-nil : (x y : Str) → x ≢ [] → x ++ y ≢ []
left-ne-nil [] y h e = h refl
left-ne-nil (c ∷ x) y h e = cc

fmt_trailers-ne-nil : (t : Trailer) (ts : List Trailer) → fmt_trailers (t ∷ ts) ≢ []
unfolding fmt_trailers
fmt_trailers-ne-nil t ts =
    left-ne-nil (writeln (fmt_trailer t)) (fmt_trailers ts)
      (append-ne-nil (fmt_trailer t) (newline ∷ []) (λ e. cc))

strip_return-whole :
    (w s : Str) → strip_return w ≡ w → Lacks b'\r' s → strip_return (w ++ s) ≡ w ++ s
strip_return-whole w [] k h = ap strip_return (append-nil w) ∙ k ∙ sym (append-nil w)
strip_return-whole w (c ∷ s) k h =
    strip_return-append w (c ∷ s) (λ e. cc) (strip_return-Lacks (c ∷ s) h)

regroup : (t p a c h : Str) → t ++ p ++ a ++ c ++ h ≡ t ++ (p ++ (a ++ (c ++ h)))
regroup t p a c h = simp append_assoc

without_suffix-kept :
    (m : Str) (ts : List Trailer)
    → without_suffix (writeln (trim m) ++ fmt_trailer_part ts) (trailers_to_string ts) ≡ kept m ts
unfolding fmt_trailer_part
without_suffix-kept m [] =
    ap (λ x. without_suffix x (trailers_to_string [])) (append-nil (writeln (trim m)))
    ∙ ap (without_suffix (writeln (trim m))) no_trailers
    ∙ without_suffix-append (trim m) (newline ∷ []) (λ e. cc)
without_suffix-kept m (t ∷ ts) =
    let body = fmt_trailers (t ∷ ts) in
    ap (without_suffix (writeln (trim m) ++ newline ∷ body)) (trailers_to_string-lem t ts)
    ∙ ap (λ x. without_suffix x body) (sym (append_assoc (writeln (trim m)) (newline ∷ []) body))
    ∙ without_suffix-append (writeln (writeln (trim m))) body (fmt_trailers-ne-nil t ts)

module _ {Oid E : Type 0} (g : Libgit Oid E) where
  -- A commit whose print can be told apart: its authors are printable and stand on one line each,
  -- its headers are read as they are written, and libgit2 finds its trailers in what is printed
  -- behind the header section.
  pub record IsWritable (c : Commit Oid) : Type 0 where
    pub author_fits : IsPrintable c.author
    pub author_line : IsOneLine c.author
    pub committer_fits : IsPrintable c.committer
    pub committer_line : IsOneLine c.committer
    pub headers_fit : All IsHeader c.headers
    pub header_lines_fit : All IsLine (headers_lines c.headers)
    pub trailers_found :
        g.message_trailers (writeln (trim c.message) ++ fmt_trailer_part c.trailers) ≡ ok c.trailers

  fmt_parents-block : (os : List Oid) → fmt_parents g os ≡ block (parent_lines g os)
  unfolding fmt_parents
  fmt_parents-block [] = refl
  fmt_parents-block (o ∷ os) =
      ap (λ t. writeln (codes "parent " ++ g.fmt_oid o) ++ t) (fmt_parents-block os)

  oid-IsLine :
      ReadsOids g
      → (w : Str) (o : Oid) → Lacks newline w
      → w ≢ []
      → strip_return w ≡ w
      → IsLine (w ++ g.fmt_oid o)
  oid-IsLine r w o lacks some_char k = record {
    no_newline = contains-append newline w (g.fmt_oid o) lacks (r.no_newline o);
    some_char = left-ne-nil w (g.fmt_oid o) some_char;
    no_return = strip_return-whole w (g.fmt_oid o) k (r.no_return o);
  }

  parents-IsLine : ReadsOids g → (os : List Oid) → All IsLine (parent_lines g os)
  unfolding contains strip_return
  parents-IsLine r [] = tt
  parents-IsLine r (o ∷ os) =
      (oid-IsLine r (codes "parent ") o refl (λ e. cc) refl, parents-IsLine r os)

  -- The lines of the header section.
  abbrev section_lines : Commit Oid → Str → Str → List Str
  section_lines c a m =
      (codes "tree " ++ g.fmt_oid c.tree)
      ∷ (parent_lines g c.parents
          ++ (codes "author " ++ a) ∷ (codes "committer " ++ m) ∷ headers_lines c.headers)

  abbrev printed : Commit Oid → Str → Str → Str
  printed c a m =
      block (section_lines c a m)
      ++ newline ∷ (writeln (trim c.message) ++ fmt_trailer_part c.trailers)

  fmt_commit-printed :
      (c : Commit Oid) {a m : Str}
      → fmt_author c.author ≡ ok a
      → fmt_author c.committer ≡ ok m
      → fmt_commit g c ≡ ok (printed c a m)
  unfolding fmt_commit
  fmt_commit-printed c {a} {m} ha hm =
      let rest = newline ∷ (writeln (trim c.message) ++ fmt_trailer_part c.trailers) in
      let tree = writeln (codes "tree " ++ g.fmt_oid c.tree) in
      let author = writeln (codes "author " ++ a) in
      let committer = writeln (codes "committer " ++ m) in
      rw (fmt_commit, ha, hm)
        (ap ok (
          ap₂ (λ x y. tree ++ x ++ author ++ committer ++ y ++ rest) (fmt_parents-block c.parents)
            (fmt_headers-block c.headers)
          ∙ ap (λ x. x ++ rest)
              (regroup tree (block (parent_lines g c.parents)) author committer
                (block (headers_lines c.headers)))
          ∙ ap (λ x. (tree ++ x) ++ rest)
              (sym (
                block-append (parent_lines g c.parents)
                  ((codes "author " ++ a) ∷ (codes "committer " ++ m) ∷ headers_lines c.headers)))))

  section-IsLine :
      ReadsOids g
      → (c : Commit Oid) {a m : Str} → IsWritable c
      → fmt_author c.author ≡ ok a
      → fmt_author c.committer ≡ ok m
      → All IsLine (section_lines c a m)
  unfolding contains strip_return
  section-IsLine r c {a} {m} h ha hm = (
    oid-IsLine r (codes "tree ") c.tree refl (λ e. cc) refl,
    All-append IsLine (parent_lines g c.parents)
        ((codes "author " ++ a) ∷ (codes "committer " ++ m) ∷ headers_lines c.headers)
        (parents-IsLine r c.parents)
        (
          fmt_author-IsLine (codes "author ") c.author refl h.author_fits h.author_line ha,
          (
            fmt_author-IsLine (codes "committer ") c.committer refl h.committer_fits
                h.committer_line hm,
            h.header_lines_fit,
          ),
        ),
  )

  read_tree-fmt_oid :
      ReadsOids g
      → (o : Oid) (ls : List Str) → read_tree g ((codes "tree " ++ g.fmt_oid o) ∷ ls) ≡ ok (o, ls)
  unfolding read_tree
  read_tree-fmt_oid r o ls =
      rw
        (
          read_tree,
          (strip_prefix_iff (codes "tree ") (codes "tree " ++ g.fmt_oid o) (g.fmt_oid o)).1 refl,
          read_oid-fmt_oid g r (codes "tree") o,
        )
        refl

  abbrev start : Parsed Oid
  start = record { parents = []; author = none; committer = none; headers = [] }

  read_lines-section :
      ReadsOids g
      → (c : Commit Oid) (a m : Str) → All IsHeader c.headers
      → parse_author a ≡ ok c.author
      → parse_author m ≡ ok c.committer
      → read_lines g start (
          parent_lines g c.parents
          ++ (codes "author " ++ a) ∷ (codes "committer " ++ m) ∷ headers_lines c.headers)
        ≡ ok (record {
          parents = c.parents;
          author = some c.author;
          committer = some c.committer;
          headers = c.headers;
        })
  read_lines-section r c a m hs ha hm =
      read_lines-append g start (parent_lines g c.parents)
        ((codes "author " ++ a) ∷ (codes "committer " ++ m) ∷ headers_lines c.headers)
        (read_lines-parents g r start c.parents)
      ∙ read_lines-cons g (with_parents start c.parents) (codes "author " ++ a)
          ((codes "committer " ++ m) ∷ headers_lines c.headers)
          (read_line-author g (with_parents start c.parents) a ha)
      ∙ read_lines-cons g
          (record { parents = c.parents; author = some c.author; committer = none; headers = [] })
          (codes "committer " ++ m) (headers_lines c.headers)
          (read_line-committer g
            (record { parents = c.parents; author = some c.author; committer = none; headers = [] })
            m hm)
      ∙ read_lines-headers g
          (record {
            parents = c.parents;
            author = some c.author;
            committer = some c.committer;
            headers = [];
          })
          c.headers hs

  parse_commit-printed :
      ReadsOids g
      → (c : Commit Oid) (a m : Str) → IsWritable c
      → All IsLine (section_lines c a m)
      → parse_author a ≡ ok c.author
      → parse_author m ≡ ok c.committer
      → parse_commit g (printed c a m)
        ≡ ok (record {
          tree = c.tree;
          parents = c.parents;
          author = c.author;
          committer = c.committer;
          headers = c.headers;
          message = kept c.message c.trailers;
          trailers = c.trailers;
        })
  unfolding parse_commit read_trailers
  parse_commit-printed r c a m h all ha hm =
      let tree = codes "tree " ++ g.fmt_oid c.tree in
      let more =
        parent_lines g c.parents
        ++ (codes "author " ++ a) ∷ (codes "committer " ++ m) ∷ headers_lines c.headers in
      rw
        (
          parse_commit,
          split_blank-block tree more (writeln (trim c.message) ++ fmt_trailer_part c.trailers) all,
          lines_of-join_with tree more all,
          read_tree-fmt_oid r c.tree more,
          read_lines-section r c a m h.headers_fit ha hm,
          read_trailers,
          h.trailers_found,
          without_suffix-kept c.message c.trailers,
        )
        refl

  -- Where libgit2 reads back the identifiers that it prints, and finds in the printed message the
  -- trailers that were put there: a commit of printable authors of one line each, and of headers
  -- that are read as they are written, is printed with no panic, and the text is parsed to the
  -- commit again, but for the ends of its message.
  pub parse_commit-fmt_commit :
      ReadsOids g
      → (c : Commit Oid) → IsWritable c
      → (s : Str) × (fmt_commit g c ≡ ok s)
        × (parse_commit g s
            ≡ ok (record {
              tree = c.tree;
              parents = c.parents;
              author = c.author;
              committer = c.committer;
              headers = c.headers;
              message = kept c.message c.trailers;
              trailers = c.trailers;
            }))
  parse_commit-fmt_commit r c h =
      let (a, author_printed, author_parsed) = parse_author-fmt_author c.author h.author_fits in
      let (m, committer_printed, committer_parsed) =
        parse_author-fmt_author c.committer h.committer_fits in
      (
        printed c a m,
        fmt_commit-printed c author_printed committer_printed,
        parse_commit-printed r c a m h (section-IsLine r c h author_printed committer_printed)
            author_parsed committer_parsed,
      )
