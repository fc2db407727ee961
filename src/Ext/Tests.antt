-- ===== src/Ext/Tests.antt =====
-- Runs of the modelled functions of radicle-git-ext, and its theorems at concrete inputs.
use radicle_git.Base.{◌≡◌, refl, ok, err, Str, codes, split, contains, arith}
use radicle_git.Ext.Decimal.{pos, negsuc, pos_overflow}
use radicle_git.Ext.Author.{
  Author, abs_overflow, fmt_time, fmt_author, ParseError, missing, parse_offset, parse_author,
}
use radicle_git.Ext.Author.RoundTrip.{IsPrintable, parse_author-fmt_author}

abbrev alice : Author
alice = record {
  name = codes "Alice B.";
  email = codes "alice@example.org";
  time = record { seconds = pos 1658331845; offset = negsuc 89 };
}

fmt_author-alice : fmt_author alice ≡ ok (codes "Alice B. <alice@example.org> 1658331845 -0130")
unfolding fmt_author
fmt_author-alice = refl

-- An offset with no sign is taken, and one that is no number is refused.
parse_offset_errors :
    (parse_offset (codes "0200") ≡ ok (pos 120))
    × (parse_offset (codes "9999999999") ≡ err (ParseError.offset pos_overflow))
    × (parse_author (codes "0200") ≡ err (missing (codes "time")))
unfolding parse_offset parse_author split
parse_offset_errors = (refl, refl, refl)

-- At the least offset, the minutes have no absolute value.
least_offset : fmt_time (record { seconds = pos 0; offset = negsuc 2147483647 }) ≡ err abs_overflow
unfolding fmt_time
least_offset = refl

alice-IsPrintable : IsPrintable alice
unfolding contains
alice-IsPrintable = record {
  email_lacks = refl;
  email_angles = (refl, refl);
  seconds_fit = omega arith;
  offset_fits = omega arith;
}

parse_author-fmt_author_example :
    (s : Str) × (fmt_author alice ≡ ok s) × (parse_author s ≡ ok alice)
parse_author-fmt_author_example = parse_author-fmt_author alice alice-IsPrintable
