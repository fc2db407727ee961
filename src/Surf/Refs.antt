-- ===== src/Surf/Refs.antt =====
-- radicle-surf/src/refs.rs: iterators over the references of several lists.
pub mod Iteration
use Prim.Native.Nat.{◌-◌}
use radicle_git.Base.{
  ℕ, zero, suc, ltb, Bool, true, false, List, [], ◌∷◌, ◌++◌, Option, none, some, if◌then◌else◌,
  Result, ok, err, map_ok, map_err, ok_or, ◌>>=◌, length, Str,
}
use radicle_git.RefFormat.Check.{Error}
use radicle_git.RefFormat.Name.{Panic, RefString, Component, try_from}
use radicle_git.RefFormat.Deriv.{Qualified, from_refstr, non_empty_components, from_category}
use radicle_git.RefFormat.Name
use radicle_git.Storage.Previous.{Oid}
use radicle_git.Surf.Branch.{
  Failure, failed, panicked, out_of_fuel, unwind, Branch, BranchError, branch_from_str,
  branch_refname, refstr_join,
}
use radicle_git.Surf.Tag.{
  Reference, Utf8Or, utf8, named, map_failure, Tag, TagError, reference_name, tag_try_from,
}

-- `Tags`, `Branches` and `Categories`, which hold iterators of libgit2 by what is left of them.
pub record Lists (A : Type 0) : Type 0 where
  pub references : List (List A)
  pub current : ℕ

module _ {A : Type 0} where
  -- The derived `Default`
  abbrev pub lists_default : Lists A
  lists_default = record { references = []; current = 0 }

  -- `Tags::push`, `Branches::push` and `Categories::push`
  unfoldable pub push_list : Lists A → List A → Lists A
  push_list s refs = record s { references = s.references ++ refs ∷ [] }

  -- `get_mut(i)`, and `next` of the iterator that is there
  unfoldable pub next_at : ℕ → List (List A) → Option (Option A × List (List A))
  next_at i [] = none
  next_at zero ([] ∷ ls) = some (none, [] ∷ ls)
  next_at zero ((x ∷ xs) ∷ ls) = some (some x, xs ∷ ls)
  next_at (suc i) (l ∷ ls) = elim (next_at i ls) [ none ↦ none | some (x, ls1) ↦ some (x, l ∷ ls1) ]

-- A call that may panic; `none` means that the model ran out of fuel.
abbrev pub Run : Type 0 → Type 0
Run A = Option (Result Panic A)

-- The value or the error of a call is gone on with; a panic of it unwinds.
abbrev pub settle : {E A B : Type 0} → Result (Failure E) A → (Result E A → B) → Run B
settle (ok a) f = some (ok (f (ok a)))
settle (err (failed e)) f = some (ok (f (err e)))
settle (err (panicked p)) f = some (err p)
settle (err out_of_fuel) f = none

module _ {A B E : Type 0} (convert : A → Result (Failure E) B) where
  -- The loop of each `next`, with fuel for the lists from the current one on.
  unfoldable pub next_loop : ℕ → Lists A → Run (Option (Result E B) × Lists A)
  unfolding next_at
  next_loop zero s = some (ok (none, s))
  next_loop (suc f) s =
      let rest = next_loop f (record s { current = suc s.current }) in
      if ltb s.current (length s.references)
      then elim (next_at s.current s.references) [
        | none ↦ some (ok (none, s))
        | some (none, ls) ↦ rest
        | some (some x, ls) ↦ settle (convert x) (λ b. (some b, record s { references = ls }))
      ]
      else some (ok (none, s))

  unfoldable pub next : Lists A → Run (Option (Result E B) × Lists A)
  unfolding next_loop
  next s = next_loop (length s.references - s.current) s

-- The errors of the items, over those of libgit2.
pub data ItemError (G E : Type 0) : Type 0 where
  git : G → ItemError G E
  convert : E → ItemError G E

-- `error::Category`, with `Utf8` beside it
pub data CategoryError : Type 0 where
  not_qualified : RefString → CategoryError
  ref_format_error : Error → CategoryError

-- The category, and what is behind it.
unfoldable pub split_category :
    Component × Component × Component × List Component → Result Panic (RefString × RefString)
unfolding refstr_join
split_category (_, category, c, cs) = map_ok (λ rest. (category.inner, rest)) (refstr_join c cs)

abbrev pub Iter : Type 0 → Type 0 → Type 0
Iter G U = Lists (Result G (Reference G U))

module _ {G U : Type 0} where
  -- `TryFrom<&git2::Reference> for Branch`
  unfoldable pub branch_try_from : Reference G U → Result (Failure (Utf8Or U BranchError)) Branch
  branch_try_from r = do
    name ← map_err (λ u. failed (utf8 u)) r.name
    map_err (map_failure named) (branch_from_str name)

  -- An item of libgit2, and the closure for it.
  unfoldable pub item {ℓ} :
      {E : Type 0} {A : Type ℓ}
      → (Reference G U → Result (Failure E) A)
      → Result G (Reference G U)
      → Result (Failure (ItemError G E)) A
  item f res = do
    r ← map_err (λ e. failed (git e)) res
    map_err (map_failure ItemError.convert) (f r)

  -- The closure of `BranchNames::next`
  unfoldable pub branch_name : Reference G U → Result (Failure (Utf8Or U BranchError)) Qualified
  unfolding branch_try_from
  branch_name r = do b ← branch_try_from r; unwind (branch_refname b)

  -- The closure of `TagNames::next`
  unfoldable pub tag_name : Reference G U → Result (Failure (Utf8Or U (TagError G U))) Qualified
  tag_name r = do n ← reference_name r; unwind (from_category Name.tags n)

  -- The closure of `Categories::next`
  unfoldable pub category_of :
      Reference G U → Result (Failure (Utf8Or U CategoryError)) (RefString × RefString)
  unfolding split_category
  category_of r = do
    s ← map_err (λ u. failed (utf8 u)) r.name
    name ← map_err (λ e. failed (named (CategoryError.ref_format_error e))) (try_from s)
    q ← ok_or (failed (named (CategoryError.not_qualified name))) (from_refstr name)
    cs ← unwind (non_empty_components q)
    unwind (split_category cs)

  -- `Branches::next`
  unfoldable pub branches_next :
      Iter G U → Run (Option (Result (ItemError G (Utf8Or U BranchError)) Branch) × Iter G U)
  unfolding next item branch_try_from
  branches_next = next (item branch_try_from)

  -- `BranchNames::next`
  unfoldable pub branch_names_next :
      Iter G U → Run (Option (Result (ItemError G (Utf8Or U BranchError)) Qualified) × Iter G U)
  unfolding next item branch_name
  branch_names_next = next (item branch_name)

  -- `Tags::next`
  unfoldable pub tags_next :
      Iter G U → Run (Option (Result (ItemError G (Utf8Or U (TagError G U))) Tag) × Iter G U)
  unfolding next item
  tags_next = next (item tag_try_from)

  -- `TagNames::next`
  unfoldable pub tag_names_next :
      Iter G U → Run (Option (Result (ItemError G (Utf8Or U (TagError G U))) Qualified) × Iter G U)
  unfolding next item tag_name
  tag_names_next = next (item tag_name)

  -- `Categories::next`
  unfoldable pub categories_next :
      Iter G U
      → Run (
          Option (Result (ItemError G (Utf8Or U CategoryError)) (RefString × RefString)) × Iter G U)
  unfolding next item category_of
  categories_next = next (item category_of)
