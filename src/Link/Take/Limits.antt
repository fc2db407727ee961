-- ===== src/Link/Take/Limits.antt =====
-- How many bytes the reader of archived/link-git/src/protocol/take.rs lets through.
use radicle_git.Base.{
  ℕ, ◌+◌, ◌-◌, ◌≤◌, ◌==◌, ◌≡◌, ◌≢◌, refl, sym, ◌∙◌, List, [], ◌∷◌, Result, ok, err, Str, All,
  Bool-cases, inl, inr, ==_iff, arith,
}
use radicle_git.Link.Take.{
  Poll, pending, ready, Reader, TryTake, exceeded, after_read, poll_read, after_fill, poll_fill_buf,
  consume,
}

-- The bytes that a read has got.
abbrev pub got : {E : Type 0} → Poll (Result E ℕ) → ℕ
got pending = 0
got (ready (ok siz)) = siz
got (ready (err e)) = 0

-- A read does not put more in the buffer than fits.
abbrev pub FitsBuffer : {R E : Type 0} → Reader R E → Type 0
FitsBuffer reader = (r : _) (len : ℕ) → got (reader.poll_read r len).0 ≤ len

-- Reads into buffers of given lengths, one behind the other: the bytes that they got.
abbrev pub read_all : {R E : Type 0} → Reader R E → TryTake R → List ℕ → ℕ × TryTake R
read_all reader t [] = (0, t)
read_all reader t (len ∷ lens) =
    let (p, t1) = poll_read reader t len in
    let (total, t2) = read_all reader t1 lens in (got p + total, t2)

module _ {R E : Type 0} (reader : Reader R E) (fits : FitsBuffer reader) where
  after_read-limit :
      (limit : ℕ) (x : Poll (Result E ℕ) × R)
      → (got (after_read reader limit x).0 ≡ got x.0)
        × ((after_read reader limit x).1.limit ≡ limit - got x.0)
  unfolding after_read
  after_read-limit limit (pending, r) = (refl, omega arith)
  after_read-limit limit (ready (ok siz), r) = (refl, refl)
  after_read-limit limit (ready (err e), r) = (refl, omega arith)

  -- A read gets no more than fits the buffer, nothing once the limit is used up, and the limit goes
  -- down by what it gets.
  poll_read-limit :
      (t : TryTake R) (len : ℕ)
      → (got (poll_read reader t len).0 ≤ len)
        × ((poll_read reader t len).1.limit ≡ t.limit - got (poll_read reader t len).0)
        × (t.limit ≡ 0 → got (poll_read reader t len).0 ≡ 0)
  unfolding poll_read
  poll_read-limit t len = elim (Bool-cases (t.limit == 0)) [
    | inl e ↦ rw e (omega arith, omega arith, λ h. refl)
    | inr ne ↦
        let (same, left) = after_read-limit t.limit (reader.poll_read t.inner len) in
        let few = fits t.inner len in
        rw ne (
          omega (arith, same, few),
          rw same left,
          λ h. absurd (ground (arith, (==_iff t.limit 0).1)),
        )
  ]

  read_all-limit :
      (t : TryTake R) (lens : List ℕ)
      → (read_all reader t lens).1.limit ≡ t.limit - (read_all reader t lens).0
  read_all-limit t [] = omega arith
  read_all-limit t (len ∷ lens) =
      let (few, left, none_left) = poll_read-limit t len in
      let rest = read_all-limit (poll_read reader t len).1 lens in omega (arith, left, rest)

  read_all-empty : (t : TryTake R) (lens : List ℕ) → t.limit ≡ 0 → (read_all reader t lens).0 ≡ 0
  read_all-empty t [] h = refl
  read_all-empty t (len ∷ lens) h =
      let (few, left, none_left) = poll_read-limit t len in
      omega (
        arith,
        none_left h,
        read_all-empty (poll_read reader t len).1 lens (omega (arith, left, h)),
      )

  -- However many reads there are into buffers of `b` bytes at most: what they get in all exceeds
  -- the limit by less than a buffer, or by a buffer at most if the limit is 0.
  pub read_all-bounded :
      (t : TryTake R) (b : ℕ) (lens : List ℕ)
      → All (λ len. len ≤ b) lens
      → (read_all reader t lens).0 ≤ t.limit - 1 + b
  read_all-bounded t b [] all = omega arith
  read_all-bounded t b (len ∷ lens) (small, all) =
      let (few, left, none_left) = poll_read-limit t len in
      let t1 = (poll_read reader t len).1 in
      let rest = read_all-bounded t1 b lens all in
      let empty = read_all-empty t1 lens in ground (arith, few, left, none_left, rest, empty, small)

  -- Once the reads have got as much as the limit, the next read fails.
  pub read_all-exceeded :
      (t : TryTake R) (lens : List ℕ) (len : ℕ)
      → t.limit ≤ (read_all reader t lens).0
      → (poll_read reader (read_all reader t lens).1 len).0 ≡ ready (err exceeded)
  unfolding poll_read
  read_all-exceeded t lens len h =
      let left = read_all-limit t lens in
      let used : (read_all reader t lens).1.limit ≡ 0 = omega (arith, left, h) in rw used refl

-- The calls of `AsyncBufRead`, one behind the other.
pub data BufCall : Type 0 where
  fill : BufCall
  skip : ℕ → BufCall

module _ {R E : Type 0} (reader : Reader R E) where
  abbrev pub run_calls : TryTake R → List BufCall → TryTake R
  run_calls t [] = t
  run_calls t (fill ∷ cs) = run_calls (poll_fill_buf reader t).1 cs
  run_calls t (skip n ∷ cs) = run_calls (consume reader t n) cs

  after_fill-limit :
      (limit : ℕ) (x : Poll (Result E Str) × R) → (after_fill reader limit x).1.limit ≡ limit
  unfolding after_fill
  after_fill-limit limit (pending, r) = refl
  after_fill-limit limit (ready (ok b), r) = refl
  after_fill-limit limit (ready (err e), r) = refl

  poll_fill_buf-limit : (t : TryTake R) → (poll_fill_buf reader t).1.limit ≡ t.limit
  unfolding poll_fill_buf
  poll_fill_buf-limit t = elim (Bool-cases (t.limit == 0)) [
    | inl e ↦ rw e refl
    | inr ne ↦ rw ne (after_fill-limit t.limit (reader.poll_fill_buf t.inner))
  ]

  run_calls-limit : (t : TryTake R) (cs : List BufCall) → (run_calls t cs).limit ≡ t.limit
  unfolding consume
  run_calls-limit t [] = refl
  run_calls-limit t (fill ∷ cs) =
      run_calls-limit (poll_fill_buf reader t).1 cs ∙ poll_fill_buf-limit t
  run_calls-limit t (skip n ∷ cs) = run_calls-limit (consume reader t n) cs

  after_fill-passes :
      (limit : ℕ) (x : Poll (Result E Str) × R)
      → (after_fill reader limit x).0 ≢ ready (err exceeded)
  unfolding after_fill
  after_fill-passes limit (pending, r) h = cc
  after_fill-passes limit (ready (ok b), r) h = cc
  after_fill-passes limit (ready (err e), r) h = cc

  -- Bytes that are taken through `AsyncBufRead` do not count: whatever is filled and consumed, the
  -- limit stays as it was, and unless it was 0 from the start it is never exceeded.
  pub poll_fill_buf-unlimited :
      (t : TryTake R) (cs : List BufCall)
      → t.limit ≢ 0
      → ((run_calls t cs).limit ≡ t.limit)
        × ((poll_fill_buf reader (run_calls t cs)).0 ≢ ready (err exceeded))
  unfolding poll_fill_buf
  poll_fill_buf-unlimited t cs some_left =
      let kept = run_calls-limit t cs in
      (
        kept,
        λ h. elim (Bool-cases ((run_calls t cs).limit == 0)) [
          | inl e ↦ absurd (some_left (sym kept ∙ (==_iff (run_calls t cs).limit 0).0 e))
          | inr ne ↦ after_fill-passes _ (reader.poll_fill_buf (run_calls t cs).inner) (rw ne at h)
        ],
      )
