-- ===== src/RefFormat/Lit.antt =====
-- radicle-git-ext/git-ref-format/core/src/lit.rs: the known literals and the names made of them.
pub mod Laws
use radicle_git.Base.{Option, none, some, if◌then◌else◌, str_eq, Str, codes}
use radicle_git.RefFormat.Name.{
  RefStr, Component, to_component, refs, heads, namespaces, remotes, tags, notes,
}

pub data KnownLit : Type 0 where
  refs_lit heads_lit namespaces_lit remotes_lit tags_lit notes_lit : KnownLit

-- The constants `Lit::NAME`.
unfoldable pub name_of : KnownLit → RefStr
name_of refs_lit = refs
name_of heads_lit = heads
name_of namespaces_lit = namespaces
name_of remotes_lit = remotes
name_of tags_lit = tags
name_of notes_lit = notes

-- `Lit::from_component`, for the literal given.
unfoldable pub lit_from_component : KnownLit → Component → Option KnownLit
unfolding name_of
lit_from_component k c = if str_eq c.inner (name_of k) then some k else none

-- `KnownLit::from_component`
unfoldable pub known_from_component : Component → Option KnownLit
known_from_component c =
    if str_eq c.inner refs
    then some refs_lit
    else if str_eq c.inner heads
    then some heads_lit
    else if str_eq c.inner namespaces
    then some namespaces_lit
    else if str_eq c.inner remotes
    then some remotes_lit
    else if str_eq c.inner tags
    then some tags_lit
    else if str_eq c.inner notes
    then some notes_lit
    else none

-- `From<KnownLit> for Component`
unfoldable pub component_of : KnownLit → Component
unfolding name_of
component_of k = to_component (name_of k)

pub data SomeLit : Type 0 where
  known : KnownLit → SomeLit
  any : Component → SomeLit

-- `SomeLit::known`
unfoldable pub as_known : SomeLit → Option KnownLit
as_known (known k) = some k
as_known (any c) = none

-- `From<Component> for SomeLit`
unfoldable pub some_lit_of : Component → SomeLit
unfolding known_from_component
some_lit_of c = elim (known_from_component c) [ some k ↦ known k | none ↦ any c ]

-- `From<SomeLit> for Component`
unfoldable pub some_lit_component : SomeLit → Component
unfolding component_of
some_lit_component (known k) = component_of k
some_lit_component (any c) = c
