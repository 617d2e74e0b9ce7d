-- ===== src/Execution/Requirements/Laws.antt =====
-- Merging lists of references and capabilities.
use c2j.Prelude.{false, not, ◌&&◌, ◌||◌, List, [], ◌∷◌, ◌++◌, ◌≡◌, refl, ◌∙◌}
use c2j.Prelude.{Bytes, bytes_eq, contains, contains-append, arith, Bool-cases, inl, inr}
use c2j.Prelude.Sorting.{bytes_before, contains-sort_by}
use c2j.Execution.Requirements.{unseen, merge_packages, merge_capabilities}

contains-unseen :
    (seen refs : List Bytes) (k : Bytes)
    → contains (unseen seen refs) k ≡ (contains refs k && not (contains seen k))
unfolding unseen contains
contains-unseen seen [] k = refl
contains-unseen seen (ref ∷ refs) k = ground (
  arith,
  bytes_eq.beq_iff ref k,
  contains-unseen seen refs k,
  contains-unseen (ref ∷ seen) refs k,
)

-- A merged list has the references of both lists.
pub contains-merge_packages :
    (a b : List Bytes) (k : Bytes)
    → contains (merge_packages a b) k ≡ (contains a k || contains b k)
unfolding merge_packages contains
contains-merge_packages a b k = ground (arith, contains-unseen [] (a ++ b) k, contains-append a b k)

-- Capabilities accumulate: a merged list has exactly the names of both lists.
pub contains-merge_capabilities :
    (a b : List Bytes) (k : Bytes)
    → contains (merge_capabilities a b) k ≡ (contains a k || contains b k)
unfolding merge_capabilities
contains-merge_capabilities a b k =
    contains-sort_by bytes_before (merge_packages a b) k ∙ contains-merge_packages a b k

-- No reference is listed twice, nor one of those seen before.
abbrev pub Fresh : List Bytes → List Bytes → Type 0
Fresh seen [] = Unit {0}
Fresh seen (ref ∷ refs) = (contains seen ref ≡ false) × Fresh (ref ∷ seen) refs

unseen-Fresh : (seen refs : List Bytes) → Fresh seen (unseen seen refs)
unfolding unseen
unseen-Fresh seen [] = tt
unseen-Fresh seen (ref ∷ refs) = elim (Bool-cases (contains seen ref)) [
  | inl old ↦ rw old (unseen-Fresh seen refs)
  | inr new ↦ rw new (new, unseen-Fresh (ref ∷ seen) refs)
]

-- A merged list of packages names each reference once.
pub merge_packages-Fresh : (a b : List Bytes) → Fresh [] (merge_packages a b)
unfolding merge_packages
merge_packages-Fresh a b = unseen-Fresh [] (a ++ b)
