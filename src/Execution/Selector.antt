-- ===== src/Execution/Selector.antt =====
-- pkg/execution/base.go: `MatchBase`. Strings are byte strings; `strings.Split`, `HasPrefix`,
-- `Index` with the slice behind the match, and `HasSuffix` are written out.
pub mod Meaning
pub mod Correct
use c2j.Prelude.{ℕ, Bool, true, false, ◌&&◌, ◌||◌, Option, none, some, List, [], ◌∷◌}
use c2j.Prelude.{Bytes, nat_beq, bytes_beq, bytes_eq, ◌==◌, if◌then◌else◌, is_nil}

-- The first part, and the parts behind it.
abbrev pub Parts : Type 0
Parts = Bytes × List Bytes

abbrev pub add_byte : ℕ → Parts → Parts
add_byte c (first, rest) = (c ∷ first, rest)

abbrev pub new_part : Parts → Parts
new_part (first, rest) = ([], first ∷ rest)

-- `strings.Split(selector, "*")`
unfoldable pub split : Bytes → Parts
split [] = ([], [])
split (c ∷ cs) = let parts = split cs in if nat_beq c b'*' then new_part parts else add_byte c parts

-- `strings.HasPrefix(actual, part)` and the slice behind the prefix
unfoldable pub strip : Bytes → Bytes → Option Bytes
strip [] s = some s
strip (c ∷ cs) [] = none
strip (c ∷ cs) (d ∷ s) = let rest = strip cs s in if nat_beq c d then rest else none

abbrev pub or_else : Option Bytes → Option Bytes → Option Bytes
or_else none b = b
or_else (some a) b = some a

-- `strings.Index(actual, part)` and the slice behind that first occurrence
unfoldable pub after_first : Bytes → Bytes → Option Bytes
after_first part [] = strip part []
after_first part (c ∷ s) = or_else (strip part (c ∷ s)) (after_first part s)

-- `strings.HasSuffix(actual, part)`
unfoldable pub has_suffix : Bytes → Bytes → Bool
has_suffix part [] = bytes_beq part []
has_suffix part (c ∷ s) = bytes_beq part (c ∷ s) || has_suffix part s

-- The loop over the parts behind the first, and the test of the last part.
unfoldable pub walk : Bytes → List Bytes → Bytes → Bool
walk part [] s = has_suffix part s
walk part (next ∷ parts) s = elim (after_first part s) [
  | none ↦ false
  | some rest ↦ walk next parts rest
]

-- The two cases behind the tests on "*" and "": a literal selector, or parts round stars.
unfoldable pub match_parts : Parts → Bytes → Bytes → Bool
match_parts (first, []) selector actual = selector == actual
match_parts (first, part ∷ parts) selector actual = elim (strip first actual) [
  | none ↦ false
  | some rest ↦ walk part parts rest
]

unfoldable pub match_base : Bytes → Bytes → Bool
unfolding match_parts split walk
match_base selector actual =
    if selector == (b'*' ∷ [])
    then true
    else if is_nil actual
    then false
    else match_parts (split selector) selector actual
