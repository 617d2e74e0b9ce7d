-- ===== src/Execution/Fields.antt =====
-- pkg/execution/base.go, capabilities.go, packages.go and legacy.go: the syntax of the fields.
use c2j.Prelude.{ℕ, Bool, true, false, not, ◌&&◌, ◌||◌, Option, none, some, List, [], ◌∷◌}
use c2j.Prelude.{Bytes, codes, nat_beq, ltb, if◌then◌else◌, is_nil, length, every, bytes_eq, ◌==◌}
use c2j.Prelude.{Result, ok, err, ◌>>◌, reject_if}
use c2j.Execution.Text.{
  contains_any, has_byte, has_prefix, contains_text, cut, split_at, join, utf8_valid, is_digit,
  is_lower,
}
use c2j.Execution.Requirements.{
  Error, bad_base, abstract_base, bad_capability, bad_package, Formats,
}

unfoldable pub validate_base : Bytes → Bool → Result Error (Unit {0})
validate_base value concrete = do
  reject_if
      (is_nil value
        || ltb 4096 (length value)
        || not (utf8_valid value)
        || contains_any value (0 ∷ 32 ∷ 9 ∷ 13 ∷ 10 ∷ []))
      bad_base
  reject_if (concrete && has_byte value b'*') abstract_base

-- `^[a-z][a-z0-9]*(?:[._/-][a-z0-9]+)*$`: whether a byte must be a letter or digit comes along.
abbrev is_alnum : ℕ → Bool
is_alnum c = is_lower c || is_digit c

abbrev is_separator : ℕ → Bool
is_separator c = nat_beq c b'.' || nat_beq c b'_' || nat_beq c b'/' || nat_beq c b'-'

capability_tail : Bool → Bytes → Bool
capability_tail due [] = not due
capability_tail due (c ∷ s) =
    (is_alnum c || (not due && is_separator c)) && capability_tail (not (is_alnum c)) s

unfoldable pub capability_name : Bytes → Bool
unfolding capability_tail
capability_name [] = false
capability_name (c ∷ s) = is_lower c && capability_tail false s

unfoldable pub validate_capabilities : List Bytes → Result Error (Unit {0})
unfolding capability_name
validate_capabilities [] = ok tt
validate_capabilities (name ∷ names) =
    if capability_name name then validate_capabilities names else err (bad_capability name)

-- `^[a-z0-9][a-z0-9_.-]*$`
platform_component : Bytes → Bool
platform_component [] = false
platform_component (c ∷ s) =
    is_alnum c && every (λ d. is_alnum d || nat_beq d b'_' || nat_beq d b'.' || nat_beq d b'-') s

abbrev two_or_three : List Bytes → Bool
two_or_three (a ∷ []) = true
two_or_three (a ∷ b ∷ []) = true
two_or_three _ = false

module _ (f : Formats) where
  unfoldable pub normalize_platform : Bytes → Option Bytes
  unfolding platform_component
  normalize_platform value =
      let (first, rest) = split_at b'/' (f.lower value) in
      if two_or_three rest && platform_component first && every platform_component rest
      then some (join b'/' first rest)
      else none

  -- `ParsePackage`, as far as `Normalize` uses it: whether there is an error.
  unfoldable pub package_ok : Bytes → Bool
  package_ok ref = elim (cut b':' ref) [
    | none ↦ false
    | some (manager, spec) ↦
        not (
          is_nil spec
          || not (f.trim ref == ref)
          || contains_any ref (0 ∷ 13 ∷ 10 ∷ [])
          || has_prefix spec (b'-' ∷ [])
          || contains_text spec (codes "${{"))
        && (manager == codes "nix" || manager == codes "pnpm" || manager == codes "uv")
  ]

  unfoldable pub check_packages : List Bytes → Result Error (Unit {0})
  check_packages [] = ok tt
  check_packages (ref ∷ refs) =
      if package_ok ref then check_packages refs else err (bad_package ref)
