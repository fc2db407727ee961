-- ===== src/Ext/Commit/AuthorLine.antt =====
-- The line of an author in a commit (radicle-git-ext/src/commit.rs and author.rs) is one line.
use Prim.Native.Nat.{ℕ, suc, ◌<◌}
use radicle_git.Base.{
  ◌≡◌, ◌≢◌, refl, sym, ap, ◌∙◌, false, [], ◌∷◌, ◌++◌, ok, ok-injective, Str, contains, Lacks, arith,
}
use radicle_git.Ext.Decimal.{ℤ, pos, negsuc, fmt_nat, fmt_int}
use radicle_git.Ext.Decimal.Laws.{AllDigits-fmt_nat, AllDigits→lacks}
use radicle_git.Ext.Author.{Author, sign_of, fmt_author}
use radicle_git.Ext.Author.Clock.{clock, AllDigits-clock, clock-ne-nil, abs-OffsetFits}
use radicle_git.Ext.Author.RoundTrip.{contains-append, fmt_author-pieces, IsPrintable}
use radicle_git.Ext.Commit.{newline, strip_return}
use radicle_git.Ext.Commit.Lines.{IsLine}

strip_return-cons : (c : ℕ) (t : Str) → t ≢ [] → strip_return t ≡ t → strip_return (c ∷ t) ≡ c ∷ t
unfolding strip_return
strip_return-cons c [] h k = absurd (h refl)
strip_return-cons c (d ∷ t) h k = ap (◌∷◌ c) k

pub append-ne-nil : (x y : Str) → y ≢ [] → x ++ y ≢ []
append-ne-nil [] y h e = h e
append-ne-nil (c ∷ x) y h e = cc

pub strip_return-append : (x y : Str) → y ≢ [] → strip_return y ≡ y → strip_return (x ++ y) ≡ x ++ y
strip_return-append [] y h k = k
strip_return-append (c ∷ x) y h k =
    strip_return-cons c (x ++ y) (append-ne-nil x y h) (strip_return-append x y h k)

pub strip_return-Lacks : (y : Str) → Lacks b'\r' y → strip_return y ≡ y
unfolding strip_return contains
strip_return-Lacks [] h = refl
strip_return-Lacks (c ∷ []) h = ground arith
strip_return-Lacks (c ∷ d ∷ y) h = ap (◌∷◌ c) (strip_return-Lacks (d ∷ y) (ground arith))

contains-cons : (c d : ℕ) (s : Str) → c < d → contains c s ≡ false → contains c (d ∷ s) ≡ false
unfolding contains
contains-cons c d s h k = ground arith

contains-nil : (c : ℕ) → contains c [] ≡ false
unfolding contains
contains-nil c = refl

-- What stands at the end decides whether a return is taken off.
ends_with_clock :
    (n e t : Str) (c : ℕ) (y : Str)
    → y ≢ []
    → strip_return y ≡ y
    → strip_return (n ++ b' ' ∷ (e ++ b' ' ∷ (t ++ b' ' ∷ c ∷ y)))
      ≡ n ++ b' ' ∷ (e ++ b' ' ∷ (t ++ b' ' ∷ c ∷ y))
ends_with_clock n e t c y some_char k =
    let last = strip_return-append (b' ' ∷ c ∷ []) y some_char k in
    let time = strip_return-append (b' ' ∷ t) (b' ' ∷ c ∷ y) (λ h. cc) last in
    let email = strip_return-append (b' ' ∷ e) (b' ' ∷ (t ++ b' ' ∷ c ∷ y)) (λ h. cc) time in
    strip_return-append n (b' ' ∷ (e ++ b' ' ∷ (t ++ b' ' ∷ c ∷ y))) (λ h. cc) email

fmt_int-lacks : (c : ℕ) (z : ℤ) → c < b'-' → contains c (fmt_int z) ≡ false
unfolding fmt_int
fmt_int-lacks c (pos n) h = AllDigits→lacks c (fmt_nat n) (omega arith) (AllDigits-fmt_nat n)
fmt_int-lacks c (negsuc n) h =
    contains-cons c b'-' (fmt_nat (suc n)) h
      (AllDigits→lacks c (fmt_nat (suc n)) (omega arith) (AllDigits-fmt_nat (suc n)))

sign_clock-lacks : (c : ℕ) (z : ℤ) (a : ℕ) → c < b'+' → contains c (sign_of z ∷ clock a) ≡ false
unfolding sign_of
sign_clock-lacks c (pos n) a h =
    contains-cons c b'+' (clock a) h (AllDigits→lacks c (clock a) (omega arith) (AllDigits-clock a))
sign_clock-lacks c (negsuc n) a h =
    contains-cons c b'-' (clock a) (omega arith)
      (AllDigits→lacks c (clock a) (omega arith) (AllDigits-clock a))

-- The author's name and email have no newline.
pub record IsOneLine (a : Author) : Type 0 where
  pub name_lacks : Lacks newline a.name
  pub email_lacks : Lacks newline a.email

-- A word in front of an author makes a line.
pub fmt_author-IsLine :
    (w : Str) (a : Author) {s : Str}
    → Lacks newline w
    → IsPrintable a
    → IsOneLine a
    → fmt_author a ≡ ok s
    → IsLine (w ++ s)
fmt_author-IsLine w a {s} hw h one eq =
    let (m, value) = abs-OffsetFits a.time.offset h.offset_fits in
    let t = fmt_int a.time.seconds in
    let o = sign_of a.time.offset ∷ clock m in
    let e = b'<' ∷ (a.email ++ b'>' ∷ []) in
    let shape : s ≡ a.name ++ b' ' ∷ (e ++ b' ' ∷ (t ++ b' ' ∷ o)) =
      ok-injective (sym eq ∙ fmt_author-pieces a value) in
    let tail_lacks : Lacks newline (b' ' ∷ (t ++ b' ' ∷ o)) =
      contains-cons newline b' ' (t ++ b' ' ∷ o) (omega arith) (
        contains-append newline t (b' ' ∷ o) (fmt_int-lacks newline a.time.seconds (omega arith)) (
          contains-cons newline b' ' o (omega arith)
            (sign_clock-lacks newline a.time.offset m (omega arith)))) in
    let email_lacks : Lacks newline e =
      contains-cons newline b'<' (a.email ++ b'>' ∷ []) (omega arith) (
        contains-append newline a.email (b'>' ∷ []) one.email_lacks
          (contains-cons newline b'>' [] (omega arith) (contains-nil newline))) in
    let all_lacks =
      contains-append newline a.name (b' ' ∷ (e ++ b' ' ∷ (t ++ b' ' ∷ o))) one.name_lacks (
        contains-cons newline b' ' (e ++ b' ' ∷ (t ++ b' ' ∷ o)) (omega arith)
          (contains-append newline e (b' ' ∷ (t ++ b' ' ∷ o)) email_lacks tail_lacks)) in
    let clock_kept =
      strip_return-Lacks (clock m)
        (AllDigits→lacks b'\r' (clock m) (omega arith) (AllDigits-clock m)) in
    let ends : strip_return (a.name ++ b' ' ∷ (e ++ b' ' ∷ (t ++ b' ' ∷ o)))
        ≡ a.name ++ b' ' ∷ (e ++ b' ' ∷ (t ++ b' ' ∷ o)) =
      ends_with_clock a.name e t (sign_of a.time.offset) (clock m) (clock-ne-nil m) clock_kept in
    rw shape (record {
      no_newline =
          contains-append newline w (a.name ++ b' ' ∷ (e ++ b' ' ∷ (t ++ b' ' ∷ o))) hw all_lacks;
      some_char =
          append-ne-nil w _ (append-ne-nil a.name (b' ' ∷ (e ++ b' ' ∷ (t ++ b' ' ∷ o))) (λ k. cc));
      no_return =
          strip_return-append w _
            (append-ne-nil a.name (b' ' ∷ (e ++ b' ' ∷ (t ++ b' ' ∷ o))) (λ k. cc)) ends;
    })
