-- ===== src/Execution/Text.antt =====
-- The text operations of Go's standard library that pkg/execution uses, on byte strings.
pub mod Decimal
use c2j.Prelude.{
  ℕ, zero, suc, ◌+◌, ◌*◌, ◌≤◌, Bool, true, false, not, ◌&&◌, ◌||◌, Option, none, some, List, [],
  ◌∷◌, ◌++◌,
}
use c2j.Prelude.{Bytes, nat_beq, leb, ltb, if◌then◌else◌, is_nil, every}

abbrev pub is_digit : ℕ → Bool
is_digit c = leb b'0' c && leb c b'9'

abbrev pub is_lower : ℕ → Bool
is_lower c = leb b'a' c && leb c b'z'

-- The longest run of digits in front, and the rest.
unfoldable pub take_digits : Bytes → Bytes × Bytes
take_digits [] = ([], [])
take_digits (c ∷ s) =
    let (ds, rest) = take_digits s in if is_digit c then (c ∷ ds, rest) else ([], c ∷ s)

-- `strings.ContainsRune` for an ASCII byte
unfoldable pub has_byte : Bytes → ℕ → Bool
has_byte [] c = false
has_byte (d ∷ s) c = nat_beq d c || has_byte s c

-- `strings.ContainsAny`
unfoldable pub contains_any : Bytes → Bytes → Bool
unfolding has_byte
contains_any s [] = false
contains_any s (c ∷ chars) = has_byte s c || contains_any s chars

-- `strings.HasPrefix`
unfoldable pub has_prefix : Bytes → Bytes → Bool
has_prefix s [] = true
has_prefix [] (c ∷ p) = false
has_prefix (d ∷ s) (c ∷ p) = nat_beq d c && has_prefix s p

-- `strings.Contains`
unfoldable pub contains_text : Bytes → Bytes → Bool
unfolding has_prefix
contains_text [] p = has_prefix [] p
contains_text (c ∷ s) p = has_prefix (c ∷ s) p || contains_text s p

-- `strings.Cut` at one byte
unfoldable pub cut : ℕ → Bytes → Option (Bytes × Bytes)
cut sep [] = none
cut sep (c ∷ s) =
    let rest = cut sep s in
    if nat_beq c sep
    then some ([], s)
    else elim rest [ none ↦ none | some (a, b) ↦ some (c ∷ a, b) ]

-- `strings.Split` at one byte
unfoldable pub split_at : ℕ → Bytes → Bytes × List Bytes
split_at sep [] = ([], [])
split_at sep (c ∷ s) =
    let (first, rest) = split_at sep s in
    if nat_beq c sep then ([], first ∷ rest) else (c ∷ first, rest)

-- `strings.Join`
unfoldable pub join : ℕ → Bytes → List Bytes → Bytes
join sep first [] = first
join sep first (part ∷ parts) = first ++ (sep ∷ join sep part parts)

abbrev is_cont : ℕ → Bool
is_cont c = leb 0x80 c && leb c 0xBF

abbrev within : ℕ → ℕ → ℕ → Bool
within lo hi c = leb lo c && leb c hi

-- The bounds of the second byte behind a first byte of three or four: no overlong forms, no
-- surrogates, nothing above U+10FFFF.
abbrev second_ok : ℕ → ℕ → Bool
second_ok c d =
    if nat_beq c 0xE0
    then within 0xA0 0xBF d
    else if nat_beq c 0xED
    then within 0x80 0x9F d
    else if nat_beq c 0xF0
    then within 0x90 0xBF d
    else if nat_beq c 0xF4
    then within 0x80 0x8F d
    else is_cont d

-- The bytes that continue the character begun by `c`, if it is one.
abbrev width : ℕ → Option ℕ
width c =
    if leb c 0x7F
    then some 0
    else if within 0xC2 0xDF c
    then some 1
    else if within 0xE0 0xEF c
    then some 2
    else if within 0xF0 0xF4 c
    then some 3
    else none

abbrev second_fits : ℕ → ℕ → Bytes → Bool
second_fits (suc (suc n)) c (d ∷ s) = second_ok c d
second_fits n c s = true

-- The scan for `utf8.ValidString`: the first argument counts the bytes that a character wants yet.
utf8_scan : ℕ → Bytes → Bool
utf8_scan zero [] = true
utf8_scan (suc n) [] = false
utf8_scan (suc n) (c ∷ s) = is_cont c && utf8_scan n s
utf8_scan zero (c ∷ s) = elim (width c) [
  | none ↦ false
  | some n ↦ second_fits n c s && utf8_scan n s
]

-- `utf8.ValidString`
unfoldable pub utf8_valid : Bytes → Bool
unfolding utf8_scan
utf8_valid s = utf8_scan 0 s
