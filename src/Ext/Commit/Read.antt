-- ===== src/Ext/Commit/Read.antt =====
-- The loop over the lines of a commit's header section (radicle-git-ext/src/commit.rs): what is
-- written is read.
use radicle_git.Base.{
  ◌≡◌, ◌≢◌, refl, sym, ap, ◌∙◌, false, ◌==◌, List, [], ◌∷◌, ◌++◌, append_assoc, append-nil, map,
  none, some, ok, ◌>>=◌, bind-eq-ok, ok-injective, Str, codes, str_eq, contains, Lacks, split,
  split_first, join_with-split, joined, strip_prefix, All, arith,
}
use radicle_git.Ext.Author.{Author, parse_author}
use radicle_git.Ext.Commit.{newline, Headers, Libgit, trim, push_header, Parsed}
use radicle_git.Ext.Commit.Format.{read_author, read_oid, read_header, read_line, read_lines}
use radicle_git.Ext.Commit.Lines.{
  header_lines, headers_lines, split_space-append, extend_last-append,
}

-- A header that is written so that it is read again: its name is none of those that the parser
-- looks for and holds no space, and the first line of its value has no space around it.
pub record IsHeader (h : Str × Str) : Type 0 where
  pub some_name : h.0 ≢ []
  pub no_space : Lacks b' ' h.0
  pub no_parent : str_eq h.0 (codes "parent") ≡ false
  pub no_author : str_eq h.0 (codes "author") ≡ false
  pub no_committer : str_eq h.0 (codes "committer") ≡ false
  pub trimmed : trim (split_first newline h.1).0 ≡ (split_first newline h.1).0

whole_value : (v : Str) → (split_first newline v).0 ++ joined newline (split_first newline v).1 ≡ v
unfolding split
whole_value v = join_with-split newline v

no_front_space :
    (n v : Str) → n ≢ [] → Lacks b' ' n → strip_prefix (b' ' ∷ []) (n ++ b' ' ∷ v) ≡ none
unfolding strip_prefix contains
no_front_space [] v some_char h = absurd (some_char refl)
no_front_space (c ∷ n) v some_char h =
    let other : (b' ' == c) ≡ false = ground arith in rw other refl

front_space : (s : Str) → strip_prefix (b' ' ∷ []) (b' ' ∷ s) ≡ some s
unfolding strip_prefix
front_space s = refl

abbrev pub with_headers : {Oid : Type 0} → Parsed Oid → Headers → Parsed Oid
with_headers p hs = record {
  parents = p.parents;
  author = p.author;
  committer = p.committer;
  headers = hs;
}

abbrev pub with_parents : {Oid : Type 0} → Parsed Oid → List Oid → Parsed Oid
with_parents p ps = record {
  parents = ps;
  author = p.author;
  committer = p.committer;
  headers = p.headers;
}

module _ {Oid E : Type 0} (g : Libgit Oid E) where
  pub read_lines-append :
      (p : Parsed Oid) (xs ys : List Str) {q : Parsed Oid}
      → read_lines g p xs ≡ ok q
      → read_lines g p (xs ++ ys) ≡ read_lines g q ys
  unfolding read_lines
  read_lines-append p [] ys h = ap (λ x. read_lines g x ys) (ok-injective h)
  read_lines-append p (x ∷ xs) ys h =
      let (p', first, rest) = bind-eq-ok (read_line g p x) _ h in
      rw first (read_lines-append p' xs ys rest)

  pub read_lines-cons :
      (p : Parsed Oid) (l : Str) (ls : List Str) {q : Parsed Oid}
      → read_line g p l ≡ ok q
      → read_lines g p (l ∷ ls) ≡ read_lines g q ls
  unfolding read_lines
  read_lines-cons p l ls h = ap (λ x. x >>= λ q. read_lines g q ls) h

  -- A line of a name and a value.
  pub read_line-named :
      (p : Parsed Oid) (n v : Str)
      → n ≢ []
      → Lacks b' ' n
      → read_line g p (n ++ b' ' ∷ v) ≡ read_header g p n v
  unfolding read_line
  read_line-named p n v some_char h =
      rw (read_line, no_front_space n v some_char h, split_space-append n v h) refl

  read_line-continued :
      (p : Parsed Oid) (hs : Headers) (n v s : Str)
      → p.headers ≡ hs ++ (n, v) ∷ []
      → read_line g p (b' ' ∷ s) ≡ ok (with_headers p (hs ++ (n, v ++ newline ∷ s) ∷ []))
  unfolding read_line
  read_line-continued p hs n v s h =
      rw (read_line, front_space s, h, extend_last-append hs n v (newline ∷ s)) refl

  read_lines-continued :
      (p : Parsed Oid) (hs : Headers) (n v : Str) (ls : List Str)
      → read_lines g (with_headers p (hs ++ (n, v) ∷ [])) (map (◌∷◌ b' ') ls)
        ≡ ok (with_headers p (hs ++ (n, v ++ joined newline ls) ∷ []))
  unfolding read_lines
  read_lines-continued p hs n v [] =
      ap (λ x. ok (with_headers p (hs ++ (n, x) ∷ []))) (sym (append-nil v))
  read_lines-continued p hs n v (l ∷ ls) =
      rw (read_line-continued (with_headers p (hs ++ (n, v) ∷ [])) hs n v l refl) (
        read_lines-continued p hs n (v ++ newline ∷ l) ls
        ∙ ap (λ x. ok (with_headers p (hs ++ (n, x) ∷ [])))
            (append_assoc v (newline ∷ l) (joined newline ls)))

  read_header-other :
      (p : Parsed Oid) (h : Str × Str)
      → IsHeader h
      → read_header g p h.0 (split_first newline h.1).0
        ≡ ok (with_headers p (p.headers ++ (h.0, (split_first newline h.1).0) ∷ []))
  unfolding read_header push_header
  read_header-other p h k = rw (k.no_parent, k.no_author, k.no_committer, k.trimmed) refl

  read_lines-header :
      (p : Parsed Oid) (h : Str × Str)
      → IsHeader h
      → read_lines g p (header_lines h) ≡ ok (with_headers p (p.headers ++ h ∷ []))
  unfolding read_lines
  read_lines-header p h k =
      let first = (split_first newline h.1).0 in
      let more = (split_first newline h.1).1 in
      rw (read_line-named p h.0 first k.some_name k.no_space, read_header-other p h k)
        (read_lines-continued p p.headers h.0 first more
          ∙ ap (λ x. ok (with_headers p (p.headers ++ (h.0, x) ∷ []))) (whole_value h.1))

  read_lines-nil : (p : Parsed Oid) → read_lines g p [] ≡ ok p
  unfolding read_lines
  read_lines-nil p = refl

  pub read_lines-headers :
      (p : Parsed Oid) (hs : Headers)
      → All IsHeader hs
      → read_lines g p (headers_lines hs) ≡ ok (with_headers p (p.headers ++ hs))
  read_lines-headers p [] k =
      read_lines-nil p ∙ ap (λ x. ok (with_headers p x)) (sym (append-nil p.headers))
  read_lines-headers p (h ∷ hs) k =
      read_lines-append p (header_lines h) (headers_lines hs) (read_lines-header p h k.0)
      ∙ read_lines-headers (with_headers p (p.headers ++ h ∷ [])) hs k.1
      ∙ ap (λ x. ok (with_headers p x)) (append_assoc p.headers (h ∷ []) hs)

  -- The identifiers that are written are read again.
  pub record ReadsOids : Type 0 where
    pub back : (o : Oid) → g.oid_from_str (g.fmt_oid o) ≡ ok o
    pub no_newline : (o : Oid) → Lacks newline (g.fmt_oid o)
    pub no_return : (o : Oid) → Lacks b'\r' (g.fmt_oid o)

  abbrev pub parent_lines : List Oid → List Str
  parent_lines [] = []
  parent_lines (o ∷ os) = (codes "parent " ++ g.fmt_oid o) ∷ parent_lines os

  pub read_oid-fmt_oid : ReadsOids → (what : Str) (o : Oid) → read_oid g what (g.fmt_oid o) ≡ ok o
  unfolding read_oid
  read_oid-fmt_oid r what o = rw (read_oid, r.back o) refl

  read_header-parent :
      (p : Parsed Oid) (v : Str) {o : Oid}
      → read_oid g (codes "parent") v ≡ ok o
      → read_header g p (codes "parent") v ≡ ok (with_parents p (p.parents ++ o ∷ []))
  unfolding read_header str_eq
  read_header-parent p v h = rw h refl

  pub read_lines-parents :
      ReadsOids
      → (p : Parsed Oid) (os : List Oid)
      → read_lines g p (parent_lines os) ≡ ok (with_parents p (p.parents ++ os))
  unfolding read_lines contains
  read_lines-parents r p [] = ap (λ x. ok (with_parents p x)) (sym (append-nil p.parents))
  read_lines-parents r p (o ∷ os) =
      let first =
        read_line-named p (codes "parent") (g.fmt_oid o) (λ e. cc) refl
        ∙ read_header-parent p (g.fmt_oid o) (read_oid-fmt_oid r (codes "parent") o) in
      rw first (
        read_lines-parents r (with_parents p (p.parents ++ o ∷ [])) os
        ∙ ap (λ x. ok (with_parents p x)) (append_assoc p.parents (o ∷ []) os))

  pub read_line-author :
      (p : Parsed Oid) (s : Str) {a : Author}
      → parse_author s ≡ ok a
      → read_line g p (codes "author " ++ s)
        ≡ ok (record {
          parents = p.parents;
          author = some a;
          committer = p.committer;
          headers = p.headers;
        })
  unfolding read_header str_eq contains read_author
  read_line-author p s h =
      read_line-named p (codes "author") s (λ e. cc) refl ∙ rw (read_header, read_author, h) refl

  pub read_line-committer :
      (p : Parsed Oid) (s : Str) {a : Author}
      → parse_author s ≡ ok a
      → read_line g p (codes "committer " ++ s)
        ≡ ok (record {
          parents = p.parents;
          author = p.author;
          committer = some a;
          headers = p.headers;
        })
  unfolding read_header str_eq contains read_author
  read_line-committer p s h =
      read_line-named p (codes "committer") s (λ e. cc) refl ∙ rw (read_header, read_author, h) refl
