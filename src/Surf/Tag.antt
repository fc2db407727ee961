-- ===== src/Surf/Tag.antt =====
-- radicle-surf/src/tag.rs: tags, read from references, and their names.
pub mod Refname
use radicle_git.Base.{
  Bool, true, false, ◌&&◌, List, [], ◌∷◌, Option, none, some, if◌then◌else◌, Result, ok, err,
  map_ok, map_err, ok_or, ◌>>=◌, Str, str_eq,
}
use radicle_git.RefFormat.Check.{Error}
use radicle_git.RefFormat.Name.{Panic, RefString, Component, tags, try_from}
use radicle_git.RefFormat.Deriv.{Qualified, from_refstr, non_empty_components, from_category}
use radicle_git.Storage.Previous.{Oid}
use radicle_git.Ext.Author.{Time}
use radicle_git.Surf.Branch.{Failure, failed, panicked, out_of_fuel, unwind, refstr_join}

abbrev pub map_failure {ℓ κ} : {E : Type ℓ} {F : Type κ} → (E → F) → Failure E → Failure F
map_failure f (failed e) = failed (f e)
map_failure f (panicked p) = panicked p
map_failure f out_of_fuel = out_of_fuel

-- A signature of libgit2; bytes stand as `from_utf8` reads them.
pub record Signature (U : Type 0) : Type 0 where
  pub name_bytes : Result U Str
  pub email_bytes : Result U Str
  pub when : Time

-- `git2::Tag`
pub record GitTag (U : Type 0) : Type 0 where
  pub id : Oid
  pub target_id : Oid
  pub name_bytes : Result U Str
  pub tagger : Option (Signature U)
  pub message_bytes : Option (Result U Str)

-- `git2::Reference`
pub record Reference (G U : Type 0) : Type 0 where
  pub name : Result U Str
  pub peel_to_tag : Result G (GitTag U)
  pub is_no_tag : G → Bool
  pub peel_to_commit : Result G Oid

-- `Author` of commit.rs
pub record Author : Type 0 where
  pub name : Str
  pub email : Str
  pub time : Time

pub data Tag : Type 0 where
  light : Oid → RefString → Tag
  annotated : Oid → Oid → RefString → Option Author → Option Str → Tag

-- An error that has a variant for texts that are not UTF-8.
pub data Utf8Or (U E : Type 0) : Type 0 where
  utf8 : U → Utf8Or U E
  named : E → Utf8Or U E

-- `error::FromReference`, with `FromTag` in its place, and `Utf8` beside it
pub data TagError (G U : Type 0) : Type 0 where
  from_tag : Utf8Or U Error → TagError G U
  git : G → TagError G U
  not_qualified : Str → TagError G U
  not_tag : RefString → TagError G U
  ref_format_error : Error → TagError G U

-- `Tag::id`
unfoldable pub tag_id : Tag → Oid
tag_id (light id _) = id
tag_id (annotated id _ _ _ _) = id

-- `Tag::short_name`
unfoldable pub tag_short_name : Tag → RefString
tag_short_name (light _ name) = name
tag_short_name (annotated _ _ name _ _) = name

-- `Tag::refname`
unfoldable pub tag_refname : Tag → Result Panic Qualified
unfolding tag_short_name
tag_refname t = from_category tags (tag_short_name t)

abbrev pub map_some {ℓ κ} : {A : Type ℓ} {B : Type κ} → (A → B) → Option A → Option B
map_some f none = none
map_some f (some a) = some (f a)

module _ {U : Type 0} where
  -- `TryFrom<git2::Signature> for Author`
  unfoldable pub author_try_from : Signature U → Result U Author
  author_try_from s = do
    name ← s.name_bytes
    email ← s.email_bytes
    ok (record { name = name; email = email; time = s.when })

  -- `transpose` of an option of a result
  abbrev pub transpose {ℓ} : {A : Type ℓ} → Option (Result U A) → Result U (Option A)
  transpose none = ok none
  transpose (some r) = map_ok some r

  -- `TryFrom<&git2::Tag> for Tag`
  unfoldable pub annotated_try_from : GitTag U → Result (Utf8Or U Error) Tag
  unfolding author_try_from
  annotated_try_from tag = do
    s ← map_err utf8 tag.name_bytes
    name ← map_err named (try_from s)
    tagger ← map_err utf8 (transpose (map_some author_try_from tag.tagger))
    message ← map_err utf8 (transpose tag.message_bytes)
    ok (annotated tag.id tag.target_id name tagger message)

module _ {G U : Type 0} where
  -- The test of the category in `reference_name`
  unfoldable pub tag_of :
      Qualified
      → Component × Component × Component × List Component
      → Result (Failure (Utf8Or U (TagError G U))) RefString
  unfolding refstr_join
  tag_of q (_, category, c, cs) =
      if str_eq category.inner tags
      then unwind (refstr_join c cs)
      else err (failed (named (not_tag q.inner)))

  -- The function `reference_name`
  unfoldable pub reference_name :
      Reference G U → Result (Failure (Utf8Or U (TagError G U))) RefString
  unfolding tag_of
  reference_name r = do
    s ← map_err (λ u. failed (utf8 u)) r.name
    name ← map_err (λ e. failed (named (TagError.ref_format_error e))) (try_from s)
    q ← ok_or (failed (named (TagError.not_qualified name))) (from_refstr name)
    cs ← unwind (non_empty_components q)
    tag_of q cs

  -- `TryFrom<&git2::Reference> for Tag`
  unfoldable pub tag_try_from : Reference G U → Result (Failure (Utf8Or U (TagError G U))) Tag
  unfolding reference_name annotated_try_from
  tag_try_from r = do
    name ← reference_name r
    elim (r.peel_to_tag) [
      | ok tag ↦ map_err (λ e. failed (named (from_tag e))) (annotated_try_from tag)
      | err e ↦
          if r.is_no_tag e
          then (do
            id ← map_err (λ e1. failed (named (TagError.git e1))) r.peel_to_commit
            ok (light id name))
          else err (failed (named (TagError.git e)))
    ]
