-- ===== src/Link/Take.antt =====
-- archived/link-git/src/protocol/take.rs: a reader that fails once its limit is used up.
pub mod Limits
mod Tests
use radicle_git.Base.{
  ℕ, zero, suc, ◌+◌, ◌-◌, ◌==◌, List, [], ◌∷◌, if◌then◌else◌, Result, ok, err, Str,
}

-- `Poll` of the standard library.
pub data Poll (A : Type 0) : Type 0 where
  pending : Poll A
  ready : A → Poll A

-- A reader, over its states and errors: a read says how many bytes it put in a buffer of the given
-- length, `poll_fill_buf` which bytes are ready, and `consume` skips some of these.
pub record Reader (R E : Type 0) : Type 0 where
  pub poll_read : R → ℕ → Poll (Result E ℕ) × R
  pub poll_fill_buf : R → Poll (Result E Str) × R
  pub consume : R → ℕ → R

pub record TryTake (R : Type 0) : Type 0 where
  pub limit : ℕ
  pub inner : R

-- `io::Error::new(.., "max input size exceeded")`, or an error of the reader.
pub data TakeError (E : Type 0) : Type 0 where
  exceeded : TakeError E
  inner : E → TakeError E

module _ {R E : Type 0} (reader : Reader R E) where
  -- The closure of `poll_read`; the difference stops at 0.
  unfoldable pub after_read : ℕ → Poll (Result E ℕ) × R → Poll (Result (TakeError E) ℕ) × TryTake R
  after_read limit (pending, r) = (pending, record { limit = limit; inner = r })
  after_read limit (ready (ok siz), r) = (ready (ok siz), record { limit = limit - siz; inner = r })
  after_read limit (ready (err e), r) =
      (ready (err (TakeError.inner e)), record { limit = limit; inner = r })

  -- `AsyncRead::poll_read`, into a buffer of the given length
  unfoldable pub poll_read : TryTake R → ℕ → Poll (Result (TakeError E) ℕ) × TryTake R
  unfolding after_read
  poll_read t len =
      if t.limit == 0
      then (ready (err exceeded), t)
      else after_read t.limit (reader.poll_read t.inner len)

  unfoldable pub after_fill :
      ℕ → Poll (Result E Str) × R → Poll (Result (TakeError E) Str) × TryTake R
  after_fill limit (pending, r) = (pending, record { limit = limit; inner = r })
  after_fill limit (ready (ok buf), r) = (ready (ok buf), record { limit = limit; inner = r })
  after_fill limit (ready (err e), r) =
      (ready (err (TakeError.inner e)), record { limit = limit; inner = r })

  -- `AsyncBufRead::poll_fill_buf`
  unfoldable pub poll_fill_buf : TryTake R → Poll (Result (TakeError E) Str) × TryTake R
  unfolding after_fill
  poll_fill_buf t =
      if t.limit == 0
      then (ready (err exceeded), t)
      else after_fill t.limit (reader.poll_fill_buf t.inner)

  -- `AsyncBufRead::consume`
  unfoldable pub consume : TryTake R → ℕ → TryTake R
  consume t amt = record { limit = t.limit; inner = reader.consume t.inner amt }
