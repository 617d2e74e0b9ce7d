-- ===== src/Prelude/Sorting.antt =====
-- `slices.Sort` and `slices.Compact`, as the standard library documents them, and the order of
-- strings.
use Prim.Native.Nat.{Ordering}
use Prim.Native.String.{String, compare}
use mathlib.Core.Path.{◌≡◌, refl}
use mathlib.Core.Bool.{Bool, true, false, ◌||◌, ◌&&◌}
use mathlib.Core.List.{List, [], ◌∷◌}
use native.Mathlib.Omega.{arith}
use c2j.Prelude.Tests.{if◌then◌else◌, ltb, nat_beq}
use c2j.Prelude.Equality.{Comparable, Bytes, string_eq, contains}

abbrev pub before : String → String → Bool
before s t = elim (compare s t) [ Ordering.gt ↦ false | _ ↦ true ]

-- The order of byte strings.
abbrev pub bytes_before : Bytes → Bytes → Bool
bytes_before [] ys = true
bytes_before (x ∷ xs) [] = false
bytes_before (x ∷ xs) (y ∷ ys) = ltb x y || (nat_beq x y && bytes_before xs ys)

module _ {ℓ} {A : Type ℓ} (le : A → A → Bool) where
  insert : A → List A → List A
  insert s [] = s ∷ []
  insert s (t ∷ ts) = let rest = insert s ts in if le s t then s ∷ t ∷ ts else t ∷ rest

  -- The items in increasing order.
  unfoldable pub sort_by : List A → List A
  unfolding insert
  sort_by [] = []
  sort_by (s ∷ ss) = insert s (sort_by ss)

module _ {ℓ} {A : Type ℓ} ⦃e : Comparable A⦄ where
  -- Each run of equal items becomes one item.
  unfoldable pub compact : List A → List A
  compact [] = []
  compact (s ∷ []) = s ∷ []
  compact (s ∷ t ∷ ts) = let rest = compact (t ∷ ts) in if e.beq s t then rest else s ∷ rest

  contains-insert :
      (le : A → A → Bool) (s : A) (ss : List A) (a : A)
      → contains (insert le s ss) a ≡ (e.beq s a || contains ss a)
  unfolding insert contains
  contains-insert le s [] a = refl
  contains-insert le s (t ∷ ts) a = ground (arith, contains-insert le s ts a)

  pub contains-sort_by :
      (le : A → A → Bool) (ss : List A) (a : A) → contains (sort_by le ss) a ≡ contains ss a
  unfolding sort_by contains
  contains-sort_by le [] a = refl
  contains-sort_by le (s ∷ ss) a =
      ground (arith, contains-insert le s (sort_by le ss) a, contains-sort_by le ss a)

  pub contains-compact : (ss : List A) (a : A) → contains (compact ss) a ≡ contains ss a
  unfolding compact contains
  contains-compact [] a = refl
  contains-compact (s ∷ []) a = refl
  contains-compact (s ∷ t ∷ ts) a = ground (arith, e.beq_iff s t, contains-compact (t ∷ ts) a)

-- `slices.Sort` on strings
unfoldable pub sort : List String → List String
unfolding sort_by
sort = sort_by before

pub contains-sort : (ss : List String) (a : String) → contains (sort ss) a ≡ contains ss a
unfolding sort
contains-sort ss a = contains-sort_by before ss a
