-- ===== src/Surf/Fs/Size.antt =====
-- radicle-surf/src/fs.rs: what `Directory::size` adds up.
use Prim.Native.Nat.{◌%◌, ◌^◌}
use radicle_git.Base.{
  ℕ, zero, suc, ◌+◌, ◌*◌, ◌≤◌, ◌≡◌, refl, ap, ◌∙◌, List, [], ◌∷◌, Result, ok, arith,
}
use radicle_git.Base.Map.{Map}
use radicle_git.Surf.Branch.{Failure}
use radicle_git.Surf.Fs.{
  Repository, DirectoryError, File, Directory, Entry, file, directory, entries, values, try_fold,
  visit, traverse, usize_add, size, file_size, add_size,
}

abbrev pub wrap_usize : ℕ → ℕ
wrap_usize a = a % 2 ^ 64

module _ {E : Type 0} (repo : Repository E) where
  -- The sum over some entries: the files once, and what is below a directory twice.
  abbrev pub SumsAll : (Directory → ℕ → Type 0) → List Entry → ℕ → Type 0
  SumsAll S [] total = total ≡ 0
  SumsAll S (file f ∷ es) total =
      (n rest : ℕ) × (repo.find_blob f.id ≡ ok n) × (total ≡ n + rest) × SumsAll S es rest
  SumsAll S (directory d ∷ es) total =
      (n rest : ℕ) × S d n × (total ≡ 2 * n + rest) × SumsAll S es rest

  -- The sum for a directory of some depth at most, whose files all are found.
  abbrev pub Sums : ℕ → Directory → ℕ → Type 0
  Sums zero d total = ⊥
  Sums (suc n) d total =
      (listing : Map Entry) × (entries repo d ≡ ok listing)
      × SumsAll (Sums n) (values listing) total

  SumsAll-map :
      (S T : Directory → ℕ → Type 0)
      → ((d : Directory) (w : ℕ) → S d w → T d w)
      → (es : List Entry) (total : ℕ) → SumsAll S es total
      → SumsAll T es total
  SumsAll-map S T h [] total sum = sum
  SumsAll-map S T h (file f ∷ es) total (n, rest, read, e, sum) =
      (n, rest, read, e, SumsAll-map S T h es rest sum)
  SumsAll-map S T h (directory d ∷ es) total (n, rest, below, e, sum) =
      (n, rest, h d n below, e, SumsAll-map S T h es rest sum)

  Sums-le : (n m : ℕ) (d : Directory) (w : ℕ) → n ≤ m → Sums n d w → Sums m d w
  Sums-le zero m d w le h = absurd h
  Sums-le (suc n) zero d w le h = absurd (ground arith)
  Sums-le (suc n) (suc m) d w le (listing, read, sum) = (
    listing,
    read,
    SumsAll-map (Sums n) (Sums m) (λ s v. Sums-le n m s v (omega arith)) (values listing) w sum,
  )

add_mod : (a b : ℕ) → usize_add (wrap_usize a) b ≡ wrap_usize (a + b)
add_mod a b = omega arith

add_mod_both : (a b : ℕ) → usize_add (wrap_usize a) (wrap_usize b) ≡ wrap_usize (a + b)
add_mod_both a b = omega arith

module _ {E : Type 0} (repo : Repository E) where
  -- The closure adds the size of a file, and for a directory some depth at most what it sums up to.
  abbrev Adds : ℕ → (ℕ → Entry → Result (Failure (DirectoryError E)) ℕ) → Type 0
  Adds m c =
      ((total n : ℕ) (f : File)
        → repo.find_blob f.id ≡ ok n
        → c total (file f) ≡ ok (usize_add total n))
      × ((total w : ℕ) (d : Directory)
          → Sums repo m d w
          → c total (directory d) ≡ ok (usize_add total (wrap_usize w)))

  fold-SumsAll :
      (n m : ℕ) (c : ℕ → Entry → Result (Failure (DirectoryError E)) ℕ) (acc : ℕ) (es : List Entry)
      (total : ℕ)
      → n ≤ m
      → Adds m c
      → ((a : ℕ) (d : Directory) (w : ℕ)
          → Sums repo n d w
          → traverse (λ e. e) repo n d (wrap_usize a) c ≡ ok (wrap_usize (a + w)))
      → SumsAll repo (Sums repo n) es total
      → try_fold (visit (λ s a. traverse (λ e. e) repo n s a c) c) (wrap_usize acc) es
        ≡ ok (wrap_usize (acc + total))
  fold-SumsAll n m c acc [] total le adds ih sum = ap (λ x. ok (wrap_usize x)) (omega (arith, sum))
  fold-SumsAll n m c acc (file f ∷ es) total le adds ih (s, rest, read, e, sum) =
      rw (adds.0 (wrap_usize acc) s f read, add_mod acc s)
        (fold-SumsAll n m c (acc + s) es rest le adds ih sum
          ∙ ap (λ x. ok (wrap_usize x)) (omega (arith, e)))
  fold-SumsAll n m c acc (directory d ∷ es) total le adds ih (s, rest, below, e, sum) =
      rw
        (
          ih acc d s below,
          adds.1 (wrap_usize (acc + s)) s d (Sums-le repo n m d s le below),
          add_mod_both (acc + s) s,
        )
        (fold-SumsAll n m c (acc + s + s) es rest le adds ih sum
          ∙ ap (λ x. ok (wrap_usize x)) (omega (arith, e)))

  traverse-Sums :
      (n m : ℕ) (c : ℕ → Entry → Result (Failure (DirectoryError E)) ℕ) (acc : ℕ) (d : Directory)
      (w : ℕ)
      → n ≤ suc m
      → Adds m c
      → Sums repo n d w
      → traverse (λ e. e) repo n d (wrap_usize acc) c ≡ ok (wrap_usize (acc + w))
  unfolding traverse
  traverse-Sums zero m c acc d w le adds h = absurd h
  traverse-Sums (suc n) m c acc d w le adds (listing, read, sum) = rw read (
      fold-SumsAll n m c acc (values listing) w (omega (arith, le)) adds
        (λ a s v. traverse-Sums n m c a s v (omega (arith, le)) adds) sum)

  add_size-Adds :
      (n : ℕ)
      → ((s : Directory) (v : ℕ) → Sums repo n s v → size repo n s ≡ ok (wrap_usize v))
      → Adds n (add_size repo (λ s. size repo n s))
  unfolding add_size file_size
  add_size-Adds n h = (λ total s f read. rw read refl, λ total v s below. rw (h s v below) refl)

  -- Where a directory can be listed to the end and its files be found, with fuel for its depth
  -- `size` returns a sum, in which the size of a file counts once for the directory that it is in,
  -- and twice as often for each directory further up; of that sum the last 64 bits.
  pub size-Sums :
      (n : ℕ) (d : Directory) (w : ℕ) → Sums repo n d w → size repo n d ≡ ok (wrap_usize w)
  unfolding size
  size-Sums zero d w h = absurd h
  size-Sums (suc n) d w h =
      traverse-Sums (suc n) n (add_size repo (λ s. size repo n s)) 0 d w (omega arith)
        (add_size-Adds n (λ s v below. size-Sums n s v below)) h
      ∙ ap (λ x. ok (wrap_usize x)) (omega arith)
