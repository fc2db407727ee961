-- ===== src/Link/Window/Lookup.antt =====
-- `get` of archived/link-git/src/odb/window.rs keeps the cache well formed, and what it returns is in it.
use Prim.Native.Nat.{◌%◌}
use native.Mathlib.Nat.{mod-lt}
use radicle_git.Base.{
  ℕ, zero, suc, ◌+◌, ◌<◌, ◌≡◌, refl, sym, ap, ◌∙◌, List, [], ◌∷◌, none, some, Option-cases, Result,
  ok, Result-cases, ok-injective, inl, inr, length, arith,
}
use radicle_git.Link.Window.{
  Data, hit, Info, Fixed, Stats, Bucket, nth, set_nth, touch, store_slot, index, found_in,
  load_into, get, record_load, record_hit, record_miss,
}
use radicle_git.Link.Window.Buckets.{
  Absent, Good, AllGood, nth-Good, set_nth-AllGood, length-set_nth, touch-some, touch-none,
  some_pair,
}
use radicle_git.Link.Window.Eviction.{store_slot-Good}

nth-set_nth :
    {A : Type 0} (i : ℕ) (b : List A) (bs : List (List A))
    → i < length bs
    → nth i (set_nth i b bs) ≡ b
unfolding nth set_nth
nth-set_nth i b [] lt = absurd (omega (arith, lt))
nth-set_nth zero b (c ∷ bs) lt = refl
nth-set_nth (suc i) b (c ∷ bs) lt = nth-set_nth i b bs (omega (arith, lt))

zero_sum : (i : ℕ) → 0 + i ≡ i
zero_sum i = omega arith

module _ {F : Type 0} where
  -- A cache of so many buckets with so many slots: each entry is in the bucket for its hash, and no
  -- two of them have the same.
  abbrev pub Fits : ℕ → ℕ → Fixed F → Type 0
  Fits n slots c = (length c.entries ≡ n) × AllGood n slots 0 c.entries

  -- A hash is found without a load.
  abbrev pub Cached : ℕ → Fixed F → Type 0
  Cached h c = (d : Data F) × (c1 : Fixed F) × (found_in h c ≡ some (d, c1))

  index-lt : (n h : ℕ) (c : Fixed F) → 0 < n → length c.entries ≡ n → index h c < length c.entries
  unfolding index
  index-lt n h c some_buckets long = mod-lt h (rw long some_buckets)

  index-eq : (n h : ℕ) (c : Fixed F) → length c.entries ≡ n → h % n ≡ index h c
  unfolding index
  index-eq n h c long = ap (λ m. h % m) (sym long)

  bucket-Good :
      (n slots h : ℕ) (c : Fixed F)
      → 0 < n
      → Fits n slots c
      → Good n slots (index h c) (nth (index h c) c.entries)
  bucket-Good n slots h c some_buckets (long, good) =
      rw (zero_sum (index h c)) at
        (nth-Good n slots 0 (index h c) c.entries (index-lt n h c some_buckets long) good)

  touch-Cached :
      (h : ℕ) (c : Fixed F) (d : Data F) (b : Bucket F)
      → touch h (nth (index h c) c.entries) ≡ some (d, b)
      → Cached h c
  unfolding found_in
  touch-Cached h c d b found =
      let c1 : Fixed F = record {
        entries = set_nth (index h c) b c.entries;
        stats = record_hit c.stats;
      } in
      (d, c1, rw (found_in, found) refl)

  -- A bucket for the hash that is put back.
  put-Fits :
      (n slots h : ℕ) (c : Fixed F) (b : Bucket F) (s : Stats) (d2 : Data F) (b2 : Bucket F)
      → 0 < n
      → Fits n slots c
      → Good n slots (index h c) b
      → touch h b ≡ some (d2, b2)
      → Fits n slots (record { entries = set_nth (index h c) b c.entries; stats = s })
        × Cached h (record { entries = set_nth (index h c) b c.entries; stats = s })
  put-Fits n slots h c b s d2 b2 some_buckets (long, good) new found =
      let i = index h c in
      let c1 : Fixed F = record { entries = set_nth i b c.entries; stats = s } in
      let kept = length-set_nth i b c.entries in
      let same : index h c1 ≡ i = sym (index-eq n h c1 (kept ∙ long)) ∙ index-eq n h c long in
      (
        (kept ∙ long, set_nth-AllGood n slots 0 i b c.entries (rw (zero_sum i) new) good),
        touch-Cached h c1 d2 b2 (
            ap (λ k. touch h (nth k c1.entries)) same
            ∙ ap (touch h) (nth-set_nth i b c.entries (index-lt n h c some_buckets long))
            ∙ found),
      )

  found_in-Fits :
      (n slots h : ℕ) (c : Fixed F) {d : Data F} {c1 : Fixed F}
      → 0 < n
      → Fits n slots c
      → found_in h c ≡ some (d, c1)
      → (d.hash ≡ h) × Fits n slots c1 × Cached h c1
  unfolding found_in
  found_in-Fits n slots h c some_buckets fits e =
      elim (Option-cases (touch h (nth (index h c) c.entries))) [
        | inl gone ↦ absurd (let e1 = (rw (found_in, gone) at e) in cc)
        | inr ((d, b), found) ↦
            let e1 = some_pair (rw (found_in, found) at e) in
            let (same, long, all, unique, counted, (d2, b2, again)) =
              touch-some h (nth (index h c) c.entries) found in
            let (l, p, u, t) = bucket-Good n slots h c some_buckets fits in
            let new : Good n slots (index h c) b =
              (long ∙ l, all (λ k. k % n ≡ index h c) p, unique u, counted t) in
            rw (← e1.0, ← e1.1)
              (
                same,
                (put-Fits n slots h c b (record_hit c.stats) d2 b2 some_buckets fits new again).0,
                (put-Fits n slots h c b (record_hit c.stats) d2 b2 some_buckets fits new again).1,
              )
      ]

  found_in-none : (h : ℕ) (c : Fixed F) → found_in h c ≡ none → Absent h (nth (index h c) c.entries)
  unfolding found_in
  found_in-none h c e = elim (Option-cases (touch h (nth (index h c) c.entries))) [
    | inl gone ↦ touch-none h (nth (index h c) c.entries) gone
    | inr ((d, b), found) ↦ absurd (let e1 = (rw (found_in, found) at e) in cc)
  ]

  -- What `get` promises of a result and of the cache that it leaves.
  abbrev pub Served : {E : Type 0} → ℕ → ℕ → ℕ → Result E (Data F) × Fixed F → Type 0
  Served {E} n slots h (r, c) =
      Fits n slots c × ((d : Data F) → r ≡ ok d → (d.hash ≡ h) × Cached h c)

  load_into-Served :
      {E P : Type 0} (open_file : P → Result E F) (n slots : ℕ) (c : Fixed F) (info : Info P)
      → 0 < n
      → 0 < slots
      → Fits n slots c
      → found_in info.hash c ≡ none
      → Served n slots info.hash (load_into open_file c info)
  unfolding load_into hit
  load_into-Served open_file n slots c info some_buckets some_slots fits gone =
      elim (Result-cases (open_file info.data_path)) [
        | inr (x, failed) ↦ rw (load_into, failed) (fits, λ d h. absurd (cc))
        | inl (file, opened) ↦
            let i = index info.hash c in
            let b = nth i c.entries in
            let d : Data F = hit (record { hash = info.hash; hits = 0; file = file }) in
            let (new, (d2, b2, found)) =
              store_slot-Good n slots i d b some_slots (omega arith) (index-eq n info.hash c fits.0)
                (found_in-none info.hash c gone)
                (bucket-Good n slots info.hash c some_buckets fits) in
            let (fits1, cached) =
              put-Fits n slots info.hash c (store_slot d b) (record_load c.stats) d2 b2 some_buckets
                fits new found in
            rw (load_into, opened) (fits1, λ d1 h. (rw (← ok-injective h) refl, cached))
      ]

  -- Whatever other threads do that keep the cache well formed: `get` keeps it well formed too, and
  -- where it returns an entry, that has the hash of the pack and is in the cache, so that the next
  -- request is served without a load.
  pub get-Served :
      {E P : Type 0} (open_file : P → Result E F) (others : Fixed F → Fixed F) (n slots : ℕ)
      (c : Fixed F) (info : Info P)
      → 0 < n
      → 0 < slots
      → ((x : Fixed F) → Fits n slots x → Fits n slots (others x))
      → Fits n slots c
      → Served n slots info.hash (get open_file others c info)
  unfolding get
  get-Served open_file others n slots c info some_buckets some_slots keep fits =
      elim (Option-cases (found_in info.hash c)) [
        | inr ((d, c1), found) ↦
            let (same, fits1, cached) = found_in-Fits n slots info.hash c some_buckets fits found in
            rw (get, found) (fits1, λ d1 h. (rw (← ok-injective h) same, cached))
        | inl gone ↦
            let c1 = others (record { entries = c.entries; stats = record_miss c.stats }) in
            let fits1 = keep (record { entries = c.entries; stats = record_miss c.stats }) fits in
            elim (Option-cases (found_in info.hash c1)) [
              | inr ((d, c2), found) ↦
                  let (same, fits2, cached) =
                    found_in-Fits n slots info.hash c1 some_buckets fits1 found in
                  rw (get, gone, found) (fits2, λ d1 h. (rw (← ok-injective h) same, cached))
              | inl gone1 ↦
                  rw (get, gone, gone1)
                    (load_into-Served open_file n slots c1 info some_buckets some_slots fits1 gone1)
            ]
      ]
