-- ===== src/Surf/Fs/Visits.antt =====
-- radicle-surf/src/fs.rs: what `Directory::traverse` and `Directory::size` visit.
use radicle_git.Base.{
  ℕ, zero, suc, ◌≡◌, refl, sym, ◌∙◌, List, [], ◌∷◌, ◌++◌, Result, ok, ◌>>=◌, bind_assoc, bind_congr,
}
use radicle_git.Base.Map.{Map}
use radicle_git.Surf.Branch.{Failure}
use radicle_git.Surf.Fs.{
  Repository, DirectoryError, Directory, Entry, file, directory, entries, values, try_fold, visit,
  traverse,
}

-- The entries that are met behind one another, where each directory stands behind what is met in it.
abbrev pub Walked : (Directory → List Entry → Type 0) → List Entry → List Entry → Type 0
Walked V [] es = es ≡ []
Walked V (file f ∷ xs) es = (rest : List Entry) × (es ≡ file f ∷ rest) × Walked V xs rest
Walked V (directory d ∷ xs) es =
    (inner rest : List Entry) × (es ≡ inner ++ directory d ∷ rest) × V d inner × Walked V xs rest

try_fold-append :
    {E B : Type 0} (f : B → Entry → Result E B) (acc : B) (xs ys : List Entry)
    → try_fold f acc (xs ++ ys) ≡ (try_fold f acc xs >>= λ a. try_fold f a ys)
try_fold-append f acc [] ys = refl
try_fold-append f acc (x ∷ xs) ys =
    bind_congr (f acc x) (λ a. try_fold-append f a xs ys)
    ∙ sym (bind_assoc (f acc x) (λ a. try_fold f a xs) (λ a. try_fold f a ys))

module _ {E : Type 0} (repo : Repository E) where
  -- The entries below a directory of some depth at most, in post-order.
  abbrev pub Visits : ℕ → Directory → List Entry → Type 0
  Visits zero d es = ⊥
  Visits (suc n) d es =
      (listing : Map Entry) × (entries repo d ≡ ok listing) × Walked (Visits n) (values listing) es

module _ {E F : Type 0} (wrap : DirectoryError E → F) (repo : Repository E) where
  visit-Walked :
      {B : Type 0} (n : ℕ) (f : B → Entry → Result (Failure F) B) (xs es : List Entry) (acc : B)
      → ((d : Directory) (inner : List Entry) (a : B)
          → Visits repo n d inner
          → traverse wrap repo n d a f ≡ try_fold f a inner)
      → Walked (Visits repo n) xs es
      → try_fold (visit (λ s a. traverse wrap repo n s a f) f) acc xs ≡ try_fold f acc es
  visit-Walked n f [] es acc ih h = rw h refl
  visit-Walked n f (file x ∷ xs) es acc ih (rest, e, more) =
      rw e (bind_congr (f acc (file x)) (λ a. visit-Walked n f xs rest a ih more))
  visit-Walked n f (directory d ∷ xs) es acc ih (inner, rest, e, below, more) =
      rw (e, try_fold-append f acc inner (directory d ∷ rest), ← ih d inner acc below)
        (bind_assoc (traverse wrap repo n d acc f) (λ a. f a (directory d)) _
          ∙ bind_congr (traverse wrap repo n d acc f)
              (λ b. bind_congr (f b (directory d)) (λ a. visit-Walked n f xs rest a ih more)))

  -- Where the entries below a directory can be listed to the end, with fuel for its depth it is
  -- traversed to the end, and that is a fold of all entries below it, each directory behind the
  -- entries in it.
  pub traverse-Visits :
      {B : Type 0} (n : ℕ) (d : Directory) (es : List Entry) (initial : B)
      (f : B → Entry → Result (Failure F) B)
      → Visits repo n d es
      → traverse wrap repo n d initial f ≡ try_fold f initial es
  unfolding traverse
  traverse-Visits zero d es initial f h = absurd h
  traverse-Visits (suc n) d es initial f (listing, read, walked) = rw read (
      visit-Walked n f (values listing) es initial
        (λ s inner a below. traverse-Visits n s inner a f below) walked)
