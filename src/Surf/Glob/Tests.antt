-- ===== src/Surf/Glob/Tests.antt =====
-- Runs of the globs of radicle-surf, and their theorems at concrete inputs.
use radicle_git.Base.{◌≡◌, refl, List, [], ◌∷◌, some, ok, map_ok, codes}
use radicle_git.RefFormat.Name.{RefStr, try_from}
use radicle_git.RefFormat.Refspec.{PatternString, try_pattern, with_pattern, from_patternstr}
use radicle_git.Surf.Glob.{
  RefType, Glob, and, all_tags, namespaces_from_iter, namespaces_extend, tags_from_iter,
  tags_extend, heads_from_iter, heads_extend, remotes_from_iter, remotes_extend,
}
use radicle_git.Surf.Glob.Prefixes.{all_behind, from_iter-behind, extend-and}

abbrev features : PatternString
features = codes "features/*"

abbrev notes : RefStr
notes = codes "notes"

every_tag : all_tags ≡ ok (record { globs = record { inner = codes "refs/tags/*" } ∷ [] })
unfolding all_tags from_patternstr radicle_git.RefFormat.Deriv.has_category radicle_git.Base.split
    with_pattern radicle_git.Base.str_eq
every_tag = refl

abbrev no_globs : {T : RefType} → Glob T
no_globs = record { globs = [] }

from_iter-behind_example :
    (namespaces_from_iter (features ∷ [])
      ≡ ok (all_behind (codes "refs/namespaces") (features ∷ [])))
    × (tags_from_iter (features ∷ []) ≡ ok (all_behind (codes "refs/tags") (features ∷ [])))
    × (heads_from_iter (features ∷ []) ≡ ok (all_behind (codes "refs/heads") (features ∷ [])))
    × (remotes_from_iter (features ∷ []) ≡ ok (all_behind (codes "refs/remotes") (features ∷ [])))
from_iter-behind_example = from_iter-behind (features ∷ [])

extend-and_example :
    ((namespaces_from_iter (features ∷ [])
        ≡ ok (all_behind (codes "refs/namespaces") (features ∷ [])))
      × (namespaces_extend no_globs (features ∷ [])
          ≡ ok (and no_globs (all_behind (codes "refs/namespaces") (features ∷ [])))))
    × ((tags_from_iter (features ∷ []) ≡ ok (all_behind (codes "refs/tags") (features ∷ [])))
        × (tags_extend no_globs (features ∷ [])
            ≡ ok (and no_globs (all_behind (codes "refs/tag") (features ∷ [])))))
    × ((heads_from_iter (features ∷ []) ≡ ok (all_behind (codes "refs/heads") (features ∷ [])))
        × (heads_extend no_globs (features ∷ [])
            ≡ ok (and no_globs (all_behind (codes "refs/heads") (features ∷ [])))))
    × ((remotes_from_iter (features ∷ []) ≡ ok (all_behind (codes "refs/remotes") (features ∷ [])))
        × (remotes_extend no_globs (features ∷ [])
            ≡ ok (and no_globs (all_behind (codes "refs/remotes") (features ∷ [])))))
extend-and_example = extend-and no_globs no_globs no_globs no_globs (features ∷ [])

notes_name : try_from notes ≡ ok notes
unfolding try_from radicle_git.RefFormat.Check.ref_format radicle_git.Base.split
    radicle_git.Base.ends_with radicle_git.RefFormat.Check.judge
notes_name = refl

features_pattern : try_pattern features ≡ ok features
unfolding try_pattern radicle_git.RefFormat.Check.ref_format radicle_git.Base.split
    radicle_git.Base.ends_with radicle_git.RefFormat.Check.judge
features_pattern = refl
