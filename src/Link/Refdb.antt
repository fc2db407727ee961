-- ===== src/Link/Refdb.antt =====
-- archived/link-git/src/refs/db.rs: snapshots of packed references, and the following of references.
pub mod Follow
pub mod Stale
mod Tests
use radicle_git.Base.{
  ℕ, zero, suc, ◌+◌, ltb, ◌==◌, not, Bool, true, false, List, [], ◌∷◌, Option, none, some,
  if◌then◌else◌, Result, ok, err, map_ok, ◌>>=◌, map_err, ok_or, Str, str_eq, length,
}
use radicle_git.Storage.Previous.{Oid}

-- `FullName` of git_ref
abbrev pub FullName : Type 0
FullName = Str

-- `Target` and `Reference` of git_ref
pub data Target : Type 0 where
  peeled : Oid → Target
  symbolic : FullName → Target

pub record Reference : Type 0 where
  pub name : FullName
  pub target : Target

-- `error::Follow`
pub data FollowError (E : Type 0) : Type 0 where
  cycle : FullName → FollowError E
  not_found : FullName → FollowError E
  depth_limit_exceeded : ℕ → FollowError E
  find : E → FollowError E

abbrev pub max_depth : ℕ
max_depth = 5

-- `BTreeSet::contains` and `BTreeSet::insert`, on the list of the elements
unfoldable pub has : FullName → List FullName → Bool
has x [] = false
has x (y ∷ ys) = if str_eq x y then true else has x ys

unfoldable pub insert : FullName → List FullName → List FullName
unfolding has
insert x seen = if has x seen then seen else x ∷ seen

-- `self.find(..)?.ok_or_else(..)?`, over the errors and the function of the store
unfoldable pub find_or :
    {E : Type 0}
    → (FullName → Result E (Option Reference))
    → FullName
    → Result (FollowError E) Reference
find_or find_ref name = do
  found ← map_err FollowError.find (find_ref name)
  ok_or (not_found name) found

module _ {E : Type 0} (find_ref : FullName → Result E (Option Reference)) where
  -- The loop of `follow`; `none` means that the fuel ran out.
  unfoldable pub follow_loop :
      ℕ → List FullName → Reference → Option (Result (FollowError E) Reference)
  unfolding find_or insert has
  follow_loop zero seen next = none
  follow_loop (suc f) seen next = elim (next.target) [
    | peeled _ ↦ some (ok next)
    | symbolic sym ↦
        if ltb max_depth (length seen + 1)
        then some (err (depth_limit_exceeded max_depth))
        else if has sym seen
        then some (err (cycle sym))
        else elim (find_or find_ref sym) [
          | err e ↦ some (err e)
          | ok next1 ↦ follow_loop f (insert sym seen) next1
        ]
  ]

  -- `Snapshot::follow`, with fuel for each reference that the limit allows
  unfoldable pub follow : Reference → Option (Result (FollowError E) Reference)
  unfolding follow_loop
  follow symref = elim (symref.target) [
    | peeled _ ↦ some (ok symref)
    | symbolic name ↦ elim (find_or find_ref name) [
      | err e ↦ some (err e)
      | ok next ↦ follow_loop max_depth (insert name (insert symref.name [])) next
    ]
  ]

-- A buffer of packed references, with the time of the file that it was read from.
pub record Packed (B : Type 0) : Type 0 where
  pub buf : B
  pub mtime : ℕ

-- The file of packed references: its time, if it exists, and what opening it gives.
pub record PackedRefs (E B : Type 0) : Type 0 where
  pub metadata : Result E (Option ℕ)
  pub open_file : Result E (Option (Packed B))

module _ {E B : Type 0} (file : PackedRefs E B) where
  -- `Packed::is_modified`
  unfoldable pub is_modified : Packed B → Result E Bool
  is_modified p = do
    meta ← file.metadata
    ok (elim meta [ none ↦ true | some mtime ↦ p.mtime == mtime ])

  abbrev pub buf_of : Option (Packed B) → Option B
  buf_of none = none
  buf_of (some p) = some p.buf

  -- `Packed::open` and the match on it: the buffer of the snapshot, and what is held from then on.
  unfoldable pub reopen : Option (Packed B) → Result E (Option B) × Option (Packed B)
  reopen held = elim (file.open_file) [ err e ↦ (err e, held) | ok p ↦ (ok (buf_of p), p) ]

  -- `Refdb::reload`, on what is held once the lock is taken
  unfoldable pub reload :
      (Packed B → Bool) → Option (Packed B) → Result E (Option B) × Option (Packed B)
  unfolding reopen
  reload modified_while_blocked none = reopen none
  reload modified_while_blocked (some p) =
      let opened = reopen (some p) in
      if modified_while_blocked p then (ok (some p.buf), some p) else opened

  -- `Refdb::snapshot`; other threads may act between its two locks
  unfoldable pub snapshot :
      (Option (Packed B) → Option (Packed B))
      → Option (Packed B)
      → Result E (Option B) × Option (Packed B)
  unfolding reload is_modified
  snapshot others none = reload (λ _. true) (others none)
  snapshot others (some p) = elim (is_modified p) [
    | err e ↦ (err e, some p)
    | ok true ↦ reload (λ q. not (q.mtime == p.mtime)) (others (some p))
    | ok false ↦ (ok (some p.buf), some p)
  ]
