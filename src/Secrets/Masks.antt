-- ===== src/Secrets/Masks.antt =====
-- pkg/secrets/redactor.go: `RedactParts`. Strings are byte strings; a slice of marks is a function of
-- the position. `Encodings` gives `strconv.Quote` and `json.Marshal` of a text, without their outer
-- quotes. A map of masks is the list of its keys.
pub mod Laws
pub mod Boundaries
use c2j.Prelude.{ℕ, zero, suc, ◌+◌, ◌-◌, Bool, true, false, not, ◌&&◌, ◌||◌, Option, none, some}
use c2j.Prelude.{List, [], ◌∷◌, ◌++◌, Bytes, ltb, leb, length, is_nil, if◌then◌else◌, codes}
use c2j.Execution.Text.{has_prefix}
use c2j.Execution.Selector.{has_suffix}

pub record Encodings : Type 0 where
  pub quoted : Bytes → Bytes
  pub encoded : Bytes → Bytes

-- `masked`
abbrev pub Marks : Type 0
Marks = ℕ → Bool

abbrev pub unmarked : Marks
unmarked j = false

abbrev pub in_range : ℕ → ℕ → ℕ → Bool
in_range i n j = leb i j && ltb j (i + n)

-- `for j := i; j < i+n; j++ { masked[j] = true }`
abbrev pub mark_range : ℕ → ℕ → Marks → Marks
mark_range i n m j = m j || in_range i n j

abbrev pub drop : ℕ → Bytes → Bytes
drop zero s = s
drop (suc n) [] = []
drop (suc n) (c ∷ s) = drop n s

abbrev pub take : ℕ → Bytes → Bytes
take zero s = []
take (suc n) [] = []
take (suc n) (c ∷ s) = c ∷ take n s

abbrev pub one_on : Option ℕ → Option ℕ
one_on none = none
one_on (some i) = some (suc i)

-- `strings.Index(text, v)`
unfoldable pub index : Bytes → Bytes → Option ℕ
index v [] = if is_nil v then some 0 else none
index v (c ∷ s) = if has_prefix (c ∷ s) v then some 0 else one_on (index v s)

-- The loop over the occurrences of `v`, with the text from the offset on. Each turn moves the offset
-- on, so that as many turns as the text has bytes are enough.
unfoldable pub mark_occurrences : ℕ → Bytes → ℕ → Bytes → Marks → Marks
mark_occurrences zero v offset rest m = m
mark_occurrences (suc turns) v offset [] m = m
mark_occurrences (suc turns) v offset (c ∷ s) m = elim (index v (c ∷ s)) [
  | none ↦ m
  | some i ↦
      mark_occurrences turns v (offset + i + 1) (drop i s) (mark_range (offset + i) (length v) m)
]

abbrev pub min : ℕ → ℕ → ℕ
min a b = if ltb b a then b else a

-- The loop down over the lengths of a prefix of `v` in which an incomplete text may end.
unfoldable pub mark_tail : ℕ → Bytes → Bytes → Marks → Marks
mark_tail zero v text m = m
mark_tail (suc n) v text m =
    let shorter = mark_tail n v text m in
    if has_suffix (take (suc n) v) text then mark_range (length text - suc n) (suc n) m else shorter

unfoldable pub mark_variant : Bool → Bytes → Bytes → Marks → Marks
mark_variant incomplete text v m =
    let found = mark_occurrences (length text) v 0 text m in
    if incomplete then mark_tail (min (length v - 1) (length text)) v text found else found

module _ (x : Encodings) where
  -- The body of the loop over the values.
  unfoldable pub mark_value : Bool → Bytes → Bytes → Marks → Marks
  mark_value incomplete text [] m = m
  mark_value incomplete text (c ∷ v) m =
      mark_variant incomplete text (x.encoded (c ∷ v))
        (mark_variant incomplete text (x.quoted (c ∷ v)) (mark_variant incomplete text (c ∷ v) m))

  unfoldable pub mark_values : Bool → Bytes → List Bytes → Marks → Marks
  mark_values incomplete text [] m = m
  mark_values incomplete text (v ∷ vs) m =
      mark_values incomplete text vs (mark_value incomplete text v m)

abbrev pub marker : Bytes
marker = codes "[REDACTED]"

-- Whether a run of marks starts at the position.
abbrev pub run_starts : Marks → ℕ → Bool
run_starts m zero = true
run_starts m (suc j) = not (m j)

-- The loop over the bytes of a part.
unfoldable pub render : Marks → ℕ → Bytes → Bytes
render m offset [] = []
render m offset (c ∷ part) =
    let rest = render m (suc offset) part in
    if m offset then (if run_starts m offset then marker ++ rest else rest) else c ∷ rest

-- The loop over the parts.
unfoldable pub render_parts : Marks → ℕ → List Bytes → List Bytes
render_parts m offset [] = []
render_parts m offset (part ∷ parts) =
    render m offset part ∷ render_parts m (offset + length part) parts

-- `strings.Join(parts, "")`
unfoldable pub concat : List Bytes → Bytes
concat [] = []
concat (part ∷ parts) = part ++ concat parts

module _ (x : Encodings) where
  -- `RedactParts`, with the masks of all the redactors
  unfoldable pub redact_parts : List Bytes → List Bytes → Bool → List Bytes
  redact_parts values parts incomplete =
      if is_nil values
      then parts
      else render_parts (mark_values x incomplete (concat parts) values unmarked) 0 parts
