-- ===== src/SelectorCache/Tests.antt =====
-- The theorems on remote refs at a concrete listing.
use c2j.Prelude.{some, List, [], ◌∷◌, ◌≡◌, refl, string_eq}
use c2j.SelectorCache.{
  LsRemoteMatch, preferred_remote_refs, find_ref, choose_from, choose_ls_remote_match,
}

abbrev tag : LsRemoteMatch
tag = record { hash = "aa"; ref_name = "refs/tags/v1" }

abbrev peeled : LsRemoteMatch
peeled = record { hash = "bb"; ref_name = "refs/tags/v1^{}" }

abbrev listing : List LsRemoteMatch
listing = tag ∷ peeled ∷ []

takes_peeled : choose_ls_remote_match "v1" listing ≡ some peeled
unfolding choose_ls_remote_match choose_from find_ref preferred_remote_refs
takes_peeled = refl
