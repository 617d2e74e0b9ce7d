-- ===== src/SelectorCache.antt =====
-- pkg/git/selectorcache/cache.go: which refs `git ls-remote` is asked for, and which of the refs that
-- it lists is taken.
pub mod Laws
pub mod Flight
mod Tests
use Prim.Native.String.{◌++◌ as text_append}
use c2j.Prelude.{String, Bool, true, false, Option, none, some, List, [], ◌∷◌}
use c2j.Prelude.{string_eq, ◌==◌, if◌then◌else◌, has_prefix}

pub record LsRemoteMatch : Type 0 where
  pub hash : String
  pub ref_name : String

-- `lsRemotePatterns`
unfoldable pub ls_remote_patterns : String → List String
ls_remote_patterns ref =
    if ref == "HEAD"
    then "HEAD" ∷ []
    else if has_prefix ref "refs/tags/"
    then ref ∷ text_append ref "^{}" ∷ []
    else if has_prefix ref "refs/"
    then ref ∷ []
    else text_append "refs/heads/" ref
      ∷ text_append "refs/tags/" ref
      ∷ text_append (text_append "refs/tags/" ref) "^{}"
      ∷ ref
      ∷ []

-- `preferredRemoteRefs`
unfoldable pub preferred_remote_refs : String → List String
preferred_remote_refs ref =
    if ref == "HEAD"
    then "HEAD" ∷ []
    else if has_prefix ref "refs/tags/"
    then text_append ref "^{}" ∷ ref ∷ []
    else if has_prefix ref "refs/"
    then ref ∷ []
    else text_append "refs/heads/" ref
      ∷ text_append (text_append "refs/tags/" ref) "^{}"
      ∷ text_append "refs/tags/" ref
      ∷ ref
      ∷ []

-- The inner loop of `chooseLSRemoteMatch`
unfoldable pub find_ref : String → List LsRemoteMatch → Option LsRemoteMatch
find_ref want [] = none
find_ref want (m ∷ ms) = let rest = find_ref want ms in if m.ref_name == want then some m else rest

abbrev pub first_match : List LsRemoteMatch → Option LsRemoteMatch
first_match [] = none
first_match (m ∷ ms) = some m

-- The outer loop, and the first match behind it
unfoldable pub choose_from : List String → List LsRemoteMatch → Option LsRemoteMatch
choose_from [] ms = first_match ms
choose_from (want ∷ wants) ms = elim (find_ref want ms) [
  | some m ↦ some m
  | none ↦ choose_from wants ms
]

-- `chooseLSRemoteMatch`
unfoldable pub choose_ls_remote_match : String → List LsRemoteMatch → Option LsRemoteMatch
choose_ls_remote_match ref ms = choose_from (preferred_remote_refs ref) ms
