-- ===== src/Surf/Diff/Git/Sound.antt =====
-- radicle-surf/src/diff/git.rs: what is read is what libgit2 gives.
use radicle_git.Base.{
  Pairs, Pairs-append, ℕ, zero, suc, ◌≡◌, refl, sym, ap, ap₂, ◌∙◌, Bool, true, false, ◌||◌, List,
  [], ◌∷◌, ◌++◌, append_assoc, append-nil, Option, none, some, ok, map_err, map_err-ok, bind-eq-ok,
  ok-injective, Str,
}
use radicle_git.Surf.Diff.{FileMode, DiffFile, Modification, Hunk, DiffContent}
use radicle_git.Surf.Diff.Libgit.{GitFileMode, DiffLineType, GitLine, GitHunk, Patch, GitDiffFile}
use radicle_git.Surf.Diff.Git.{
  read_mode, git_mode, read_file, read_line, read_numbers, Progress, take_line, read_lines,
  read_hunks, eof_of, read_patch, HunkError,
}
use radicle_git.Surf.Diff.Git.Described.{
  ReadsLines, ReadsHunks, marks_old, marks_new, any_line, any_hunk, LineOf, texts, HunkOf, PatchOf,
  EntryOf,
}

git_mode-read_mode : (g : GitFileMode) {m : FileMode} → read_mode g ≡ ok m → git_mode m ≡ g
unfolding read_mode git_mode
git_mode-read_mode GitFileMode.blob h = rw (← ok-injective h) refl
git_mode-read_mode GitFileMode.blob_executable h = rw (← ok-injective h) refl
git_mode-read_mode GitFileMode.tree h = rw (← ok-injective h) refl
git_mode-read_mode GitFileMode.link h = rw (← ok-injective h) refl
git_mode-read_mode GitFileMode.commit h = rw (← ok-injective h) refl
git_mode-read_mode (GitFileMode.other n) h = absurd (cc)

pub read_file-EntryOf : (g : GitDiffFile) {f : DiffFile} → read_file g ≡ ok f → EntryOf g f
unfolding read_file
read_file-EntryOf g h =
    let (m, read, h1) = bind-eq-ok (read_mode g.mode) _ h in
    rw (← ok-injective h1) (refl, git_mode-read_mode g.mode read)

read_numbers-LineOf :
    (c : Str) (old new : Option ℕ) (l : GitLine) {m : Modification}
    → l.content ≡ c
    → l.old_lineno ≡ old
    → l.new_lineno ≡ new
    → read_numbers c old new ≡ ok m
    → LineOf l m
unfolding read_numbers
read_numbers-LineOf c none (some n) l hc ho hn h = rw (← ok-injective h) (ho, hn, hc)
read_numbers-LineOf c (some n) none l hc ho hn h = rw (← ok-injective h) (ho, hn, hc)
read_numbers-LineOf c (some o) (some n) l hc ho hn h = rw (← ok-injective h) (ho, hn, hc)
read_numbers-LineOf c none none l hc ho hn h = absurd (cc)

read_line-LineOf : (l : GitLine) {m : Modification} → read_line l ≡ ok m → LineOf l m
unfolding read_line
read_line-LineOf l h = read_numbers-LineOf l.content l.old_lineno l.new_lineno l refl refl refl h

pub or_assoc : (a b c : Bool) → ((a || b) || c) ≡ (a || (b || c))
or_assoc true b c = refl
or_assoc false b c = refl

pub or_true : (a : Bool) → (a || true) ≡ true
or_true true = refl
or_true false = refl

pub or_false : (a : Bool) → (a || false) ≡ a
or_false true = refl
or_false false = refl

-- What the loop has done since: the modifications of some lines, and their marks.
abbrev Grown : Progress Modification → List GitLine → Progress Modification → Type 0
Grown s ls t =
    (ms : List Modification) × (t.done ≡ s.done ++ ms)
    × Pairs LineOf (texts ls) ms
    × (t.old_missing_eof ≡ (s.old_missing_eof || any_line marks_old ls))
    × (t.new_missing_eof ≡ (s.new_missing_eof || any_line marks_new ls))

texts-cons :
    (l : GitLine) (ls : List GitLine) (o : DiffLineType)
    → l.origin_value ≡ o
    → texts (l ∷ ls) ≡ texts (l ∷ []) ++ texts ls
texts-cons l ls DiffLineType.context_eofnl e = rw e refl
texts-cons l ls DiffLineType.add_eofnl e = rw e refl
texts-cons l ls DiffLineType.delete_eofnl e = rw e refl
texts-cons l ls (DiffLineType.other n) e = rw e refl

flag_cons :
    (a p q : Bool) {b c : Bool} → b ≡ (a || (p || false)) → c ≡ (b || q) → c ≡ (a || (p || q))
flag_cons a p q h g = g ∙ ap (λ x. x || q) (h ∙ ap (λ x. a || x) (or_false p)) ∙ or_assoc a p q

flag_hunks : (a p q : Bool) {b c : Bool} → b ≡ (a || p) → c ≡ (b || q) → c ≡ (a || (p || q))
flag_hunks a p q h g = g ∙ ap (λ x. x || q) h ∙ or_assoc a p q

Grown-cons :
    (s : Progress Modification) (l : GitLine) (ls : List GitLine) {t u : Progress Modification}
    → Grown s (l ∷ []) t
    → Grown t ls u
    → Grown s (l ∷ ls) u
Grown-cons s l ls (ms, hd, hm, ho, hn) (ns, gd, gm, go, gn) = (
  ms ++ ns,
  gd ∙ ap (λ x. x ++ ns) hd ∙ append_assoc s.done ms ns,
  rw (texts-cons l ls l.origin_value refl)
      (Pairs-append LineOf (texts (l ∷ [])) (texts ls) ms ns hm gm),
  flag_cons s.old_missing_eof (marks_old l.origin_value) (any_line marks_old ls) ho go,
  flag_cons s.new_missing_eof (marks_new l.origin_value) (any_line marks_new ls) hn gn,
)

take_line-Grown :
    {E : Type 0} (s : Progress Modification) (l : GitLine) (o : DiffLineType)
    {t : Progress Modification}
    → l.origin_value ≡ o
    → take_line {E = E} s l ≡ ok t
    → Grown s (l ∷ []) t
unfolding take_line
take_line-Grown s l DiffLineType.context_eofnl e h =
    let made = ok-injective (rw e at h) in
    rw (← made, e) ([], sym (append-nil _), tt, sym (or_true _), sym (or_true _))
take_line-Grown s l DiffLineType.add_eofnl e h =
    let made = ok-injective (rw e at h) in
    rw (← made, e) ([], sym (append-nil _), tt, sym (or_true _), sym (or_false _))
take_line-Grown s l DiffLineType.delete_eofnl e h =
    let made = ok-injective (rw e at h) in
    rw (← made, e) ([], sym (append-nil _), tt, sym (or_false _), sym (or_true _))
take_line-Grown s l (DiffLineType.other n) e h =
    let (m, read, h1) = bind-eq-ok (map_err HunkError.line (read_line l)) _ (rw e at h) in
    rw (← ok-injective h1, e)
      (
        m ∷ [],
        refl,
        (read_line-LineOf l (map_err-ok HunkError.line (read_line l) read), tt),
        sym (or_false _),
        sym (or_false _),
      )

-- What the loop over hunks has done since.
abbrev GrownHunks :
    Progress (Hunk Modification)
    → List (GitHunk × List GitLine)
    → Progress (Hunk Modification)
    → Type 0
GrownHunks s gs t =
    (hs : List (Hunk Modification)) × (t.done ≡ s.done ++ hs)
    × Pairs HunkOf gs hs
    × (t.old_missing_eof ≡ (s.old_missing_eof || any_hunk marks_old gs))
    × (t.new_missing_eof ≡ (s.new_missing_eof || any_hunk marks_new gs))

module _ {E : Type 0} (p : Patch E) where
  read_lines-Grown :
      (h l k : ℕ) (s : Progress Modification) {t : Progress Modification}
      → read_lines p h l k s ≡ ok t
      → (ls : List GitLine) × ReadsLines p h l k ls × Grown s ls t
  unfolding read_lines
  read_lines-Grown h l zero s e =
      rw (← ok-injective e)
        ([], tt, ([], sym (append-nil _), tt, sym (or_false _), sym (or_false _)))
  read_lines-Grown h l (suc k) s e =
      let (x, read, e1) = bind-eq-ok (map_err HunkError.git (p.line_in_hunk h l)) _ e in
      let (s1, step, e2) = bind-eq-ok (take_line s x) _ e1 in
      let (ls, reads, grown) = read_lines-Grown h (suc l) k s1 e2 in
      (
        x ∷ ls,
        (map_err-ok HunkError.git (p.line_in_hunk h l) read, reads),
        Grown-cons s x ls (take_line-Grown s x x.origin_value refl step) grown,
      )

  read_hunks-Grown :
      (h k : ℕ) (s : Progress (Hunk Modification)) {t : Progress (Hunk Modification)}
      → read_hunks p h k s ≡ ok t
      → (gs : List (GitHunk × List GitLine)) × ReadsHunks p h k gs × GrownHunks s gs t
  unfolding read_hunks
  read_hunks-Grown h zero s e =
      rw (← ok-injective e)
        ([], tt, ([], sym (append-nil _), tt, sym (or_false _), sym (or_false _)))
  read_hunks-Grown h (suc k) s e =
      let ((g, n), read, e1) = bind-eq-ok (map_err HunkError.git (p.hunk h)) _ e in
      let (u, lines, e2) = bind-eq-ok (read_lines p h 0 n _) _ e1 in
      let (ls, reads, (ms, done, pairs, old, new)) = read_lines-Grown h 0 n _ lines in
      let (gs, more, (hs, done1, pairs1, old1, new1)) = read_hunks-Grown (suc h) k _ e2 in
      (
        (g, ls) ∷ gs,
        ((n, map_err-ok HunkError.git (p.hunk h) read, reads), more),
        (
          _ ∷ hs,
          done1 ∙ append_assoc s.done _ hs,
          ((refl, rw done pairs, refl, refl), pairs1),
          flag_hunks s.old_missing_eof (any_line marks_old ls) (any_hunk marks_old gs) old old1,
          flag_hunks s.new_missing_eof (any_line marks_new ls) (any_hunk marks_new gs) new new1,
        ),
      )

  pub read_patch-PatchOf : {c : DiffContent} → read_patch p ≡ ok c → PatchOf p c
  unfolding read_patch
  read_patch-PatchOf e =
      let (s, hunks, e1) = bind-eq-ok (read_hunks p 0 p.num_hunks _) _ e in
      let (gs, reads, (hs, done, pairs, old, new)) = read_hunks-Grown 0 p.num_hunks _ hunks in
      rw (← ok-injective e1) (gs, reads, rw done pairs, ap₂ eof_of old new)
