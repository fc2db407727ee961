-- ===== src/Link/Take/Tests.antt =====
-- Runs of the limited reader of archived/link-git, and its theorems at concrete inputs.
use radicle_git.Base.{◌≤◌, ◌-◌, ◌+◌, ◌≡◌, ◌≢◌, refl, List, [], ◌∷◌, ok, err, arith}
use radicle_git.Link.Take.{ready, Reader, TryTake, exceeded, poll_read, poll_fill_buf}
use radicle_git.Link.Take.Limits.{
  FitsBuffer, read_all, read_all-bounded, BufCall, fill, skip, run_calls, poll_fill_buf-unlimited,
}

-- A reader that fills each buffer.
abbrev zeros : Reader (Unit {0}) (Unit {0})
zeros = record {
  poll_read = λ r len. (ready (ok len), r);
  poll_fill_buf = λ r. (ready (ok (0 ∷ 0 ∷ 0 ∷ [])), r);
  consume = λ r _. r;
}

zeros-FitsBuffer : FitsBuffer zeros
zeros-FitsBuffer r len = omega arith

abbrev ten : TryTake (Unit {0})
ten = record { limit = 10; inner = tt }

-- The third read goes past the limit, and the fourth fails.
four_reads : read_all zeros ten (4 ∷ 4 ∷ 4 ∷ 4 ∷ []) ≡ (12, record { limit = 0; inner = tt })
unfolding poll_read
four_reads = refl

read_all-bounded_example : (read_all zeros ten (4 ∷ 4 ∷ 4 ∷ 4 ∷ [])).0 ≤ 10 - 1 + 4
read_all-bounded_example =
    read_all-bounded zeros zeros-FitsBuffer ten 4 (4 ∷ 4 ∷ 4 ∷ 4 ∷ [])
      (omega arith, (omega arith, (omega arith, (omega arith, tt))))

-- Twelve bytes are taken of ten.
abbrev four_skips : List BufCall
four_skips = fill ∷ skip 3 ∷ fill ∷ skip 3 ∷ fill ∷ skip 3 ∷ fill ∷ skip 3 ∷ []

poll_fill_buf-unlimited_example :
    ((run_calls zeros ten four_skips).limit ≡ 10)
    × ((poll_fill_buf zeros (run_calls zeros ten four_skips)).0 ≢ ready (err exceeded))
poll_fill_buf-unlimited_example =
    poll_fill_buf-unlimited zeros ten four_skips (λ h. omega (arith, h))
