-- ===== src/SelectorCache/Laws.antt =====
-- The ref that is taken is one that was listed, and none that is preferred to it was.
use c2j.Prelude.{String, false, Option, none, some, List, [], ◌∷◌, ◌≡◌, refl, arith, inl, inr, ◌∙◌}
use c2j.Prelude.{string_eq, contains, picked}
use c2j.SelectorCache.{
  LsRemoteMatch, ls_remote_patterns, preferred_remote_refs, find_ref, first_match, choose_from,
  choose_ls_remote_match,
}

abbrev pub ref_names : List LsRemoteMatch → List String
ref_names [] = []
ref_names (m ∷ ms) = m.ref_name ∷ ref_names ms

pub data Listed (m : LsRemoteMatch) : List LsRemoteMatch → Type 0 where
  at_head : {ms : List LsRemoteMatch} → Listed m (m ∷ ms)
  behind : {n : LsRemoteMatch} {ms : List LsRemoteMatch} → Listed m ms → Listed m (n ∷ ms)

-- The first name of the list that is listed, or the first match if no name is.
pub data Best (ms : List LsRemoteMatch) (m : LsRemoteMatch) : List String → Type 0 where
  wanted : {w : String} {ws : List String} → m.ref_name ≡ w → Listed m ms → Best ms m (w ∷ ws)
  unlisted :
      {w : String} {ws : List String}
      → contains (ref_names ms) w ≡ false
      → Best ms m ws
      → Best ms m (w ∷ ws)
  any_other : first_match ms ≡ some m → Best ms m []

Listed-here : {m n : LsRemoteMatch} (ms : List LsRemoteMatch) → n ≡ m → Listed m (n ∷ ms)
Listed-here ms e = rw e at_head

find_ref-Listed :
    (want : String) (ms : List LsRemoteMatch) (m : LsRemoteMatch)
    → find_ref want ms ≡ some m
    → (m.ref_name ≡ want) × Listed m ms
unfolding find_ref
find_ref-Listed want [] m h = cc
find_ref-Listed want (n ∷ ms) m h = elim (picked (string_eq.beq n.ref_name want) _ n m h) [
  | inl (same, e) ↦ (ground (arith, string_eq.beq_iff n.ref_name want), Listed-here ms e)
  | inr h' ↦ let (same, l) = find_ref-Listed want ms m h' in (same, behind l)
]

find_ref-unlisted :
    (want : String) (ms : List LsRemoteMatch)
    → find_ref want ms ≡ none
    → contains (ref_names ms) want ≡ false
unfolding find_ref contains
find_ref-unlisted want [] h = refl
find_ref-unlisted want (n ∷ ms) h = ground (arith, find_ref-unlisted want ms)

choose-step :
    (o : Option LsRemoteMatch) (want : String) (wants : List String) (ms : List LsRemoteMatch)
    (m : LsRemoteMatch)
    → find_ref want ms ≡ o
    → (choose_from wants ms ≡ some m → Best ms m wants)
    → (elim o [ some n ↦ some n | none ↦ choose_from wants ms ]) ≡ some m
    → Best ms m (want ∷ wants)
choose-step none want wants ms m e rest h = unlisted (find_ref-unlisted want ms e) (rest h)
choose-step (some n) want wants ms m e rest h =
    let (same, l) = find_ref-Listed want ms m (e ∙ h) in wanted same l

choose_from-Best :
    (wants : List String) (ms : List LsRemoteMatch) (m : LsRemoteMatch)
    → choose_from wants ms ≡ some m
    → Best ms m wants
unfolding choose_from
choose_from-Best [] ms m h = any_other h
choose_from-Best (want ∷ wants) ms m h =
    choose-step (find_ref want ms) want wants ms m refl (λ k. choose_from-Best wants ms m k) h

-- chooseLSRemoteMatch takes a listed ref by the first preferred name that is listed, and the first
-- ref of the list if no preferred name is.
pub choose-Best :
    (ref : String) (ms : List LsRemoteMatch) (m : LsRemoteMatch)
    → choose_ls_remote_match ref ms ≡ some m
    → Best ms m (preferred_remote_refs ref)
unfolding choose_ls_remote_match
choose-Best ref ms m h = choose_from-Best (preferred_remote_refs ref) ms m h

-- The refs that are preferred are the ones that ls-remote is asked for.
pub preferred_asked :
    (ref name : String)
    → contains (preferred_remote_refs ref) name ≡ contains (ls_remote_patterns ref) name
unfolding preferred_remote_refs ls_remote_patterns contains
preferred_asked ref name = ground arith
