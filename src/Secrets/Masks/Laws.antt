-- ===== src/Secrets/Masks/Laws.antt =====
-- RedactParts against a description of the bytes that are hidden, which has no loop over offsets.
use mathlib.Core.Path.{fun_ext}
use c2j.Prelude.{
  ℕ, zero, suc, ◌+◌, ◌-◌, ◌≤◌, Bool, true, false, ◌&&◌, ◌||◌, Option, none, some, List, [], ◌∷◌,
}
use c2j.Prelude.{◌≡◌, refl, sym, ap, ◌∙◌, inl, inr, arith, Bytes, length, Bool-cases, Option-cases}
use c2j.Execution.Text.{has_prefix}
use c2j.Execution.Selector.{has_suffix}
use c2j.Secrets.Masks.{
  Encodings, Marks, unmarked, in_range, mark_range, drop, take, index, mark_occurrences, min,
  mark_tail, mark_variant, mark_value, mark_values, render, render_parts, concat, redact_parts,
}

-- Position `j` lies in an occurrence of `v` in a text that starts at `offset`.
unfoldable pub covered : Bytes → Bytes → ℕ → ℕ → Bool
covered v [] offset j = false
covered v (c ∷ s) offset j =
    (has_prefix (c ∷ s) v && in_range offset (length v) j) || covered v s (suc offset) j

-- Position `j` lies in a prefix of `v`, of at most `n` bytes, in which the text ends.
unfoldable pub in_tail : ℕ → Bytes → Bytes → ℕ → Bool
in_tail zero v text j = false
in_tail (suc n) v text j =
    (has_suffix (take (suc n) v) text && in_range (length text - suc n) (suc n) j)
    || in_tail n v text j

unfoldable pub hidden_by : Bool → Bytes → Bytes → Marks
hidden_by incomplete text v j =
    covered v text 0 j || (incomplete && in_tail (min (length v - 1) (length text)) v text j)

unfoldable pub hidden : Encodings → Bool → Bytes → List Bytes → Marks
hidden x incomplete text [] j = false
hidden x incomplete text ([] ∷ vs) j = hidden x incomplete text vs j
hidden x incomplete text ((c ∷ v) ∷ vs) j =
    (hidden_by incomplete text (c ∷ v) j
      || hidden_by incomplete text (x.quoted (c ∷ v)) j
      || hidden_by incomplete text (x.encoded (c ∷ v)) j)
    || hidden x incomplete text vs j

index-zero : (v s : Bytes) (c : ℕ) → index v (c ∷ s) ≡ some 0 → has_prefix (c ∷ s) v ≡ true
unfolding index
index-zero v s c h = ground arith

index-suc :
    (v s : Bytes) (c i : ℕ)
    → index v (c ∷ s) ≡ some (suc i)
    → (has_prefix (c ∷ s) v ≡ false) × (index v s ≡ some i)
unfolding index
index-suc v s c i h = ground arith

nowhere :
    (v : Bytes) (offset j i : ℕ)
    → index v [] ≡ some i
    → false ≡ (in_range (offset + i) (length v) j || false)
unfolding index
nowhere [] offset j i h = ground arith
nowhere (c ∷ v) offset j i h = ground arith

-- The first occurrence, and those behind its first byte.
covered-index :
    (v s : Bytes) (offset j i : ℕ)
    → index v s ≡ some i
    → covered v s offset j
      ≡ (in_range (offset + i) (length v) j || covered v (drop (suc i) s) (offset + i + 1) j)
unfolding covered
covered-index v [] offset j i h = nowhere v offset j i h
covered-index v (c ∷ s) offset j zero h =
    let e : offset + 0 ≡ offset = omega arith in
    let e' : offset + 1 ≡ suc offset = omega arith in rw (e, e', index-zero v s c h) refl
covered-index v (c ∷ s) offset j (suc i) h =
    let (e, h') = index-suc v s c i h in
    let k : offset + suc i ≡ suc offset + i = omega arith in
    rw (e, k) (covered-index v s (suc offset) j i h')

covered-none : (v s : Bytes) (offset j : ℕ) → index v s ≡ none → covered v s offset j ≡ false
unfolding index covered
covered-none v [] offset j h = refl
covered-none v (c ∷ s) offset j h = ground (arith, covered-none v s (suc offset) j)

length-drop : (n : ℕ) (s : Bytes) → length (drop n s) ≤ length s
length-drop zero s = omega arith
length-drop (suc n) [] = omega arith
length-drop (suc n) (c ∷ s) = omega (arith, length-drop n s)

or_assoc : (a b c : Bool) → ((a || b) || c) ≡ (a || (b || c))
or_assoc a b c = ground arith

-- One turn of the loop.
occurrences_turn :
    (o : Option ℕ) (turns : ℕ) (v : Bytes) (offset c : ℕ) (s : Bytes) (m : Marks)
    → index v (c ∷ s) ≡ o
    → mark_occurrences (suc turns) v offset (c ∷ s) m ≡ (elim o [
      | none ↦ m
      | some i ↦
          mark_occurrences turns v
            (offset + i + 1)
            (drop i s)
            (mark_range (offset + i) (length v) m)
    ])
unfolding mark_occurrences
occurrences_turn o turns v offset c s m e = rw (e, mark_occurrences) refl

mark_occurrences-covered :
    (turns : ℕ) (v : Bytes) (offset : ℕ) (rest : Bytes) (m : Marks) (j : ℕ)
    → length rest ≤ turns
    → mark_occurrences turns v offset rest m j ≡ (m j || covered v rest offset j)
unfolding mark_occurrences
mark_occurrences-covered zero v offset [] m j h = unfold covered in ground arith
mark_occurrences-covered zero v offset (c ∷ s) m j h = absurd (omega arith)
mark_occurrences-covered (suc turns) v offset [] m j h = unfold covered in ground arith
mark_occurrences-covered (suc turns) v offset (c ∷ s) m j h =
    elim (Option-cases (index v (c ∷ s))) [
      | inl e ↦
          ap (λ (k : Marks). k j) (occurrences_turn none turns v offset c s m e)
          ∙ rw (covered-none v (c ∷ s) offset j e) (ground arith)
      | inr (i, e) ↦
          ap (λ (k : Marks). k j) (occurrences_turn (some i) turns v offset c s m e)
          ∙ rw (covered-index v (c ∷ s) offset j i e) (
              mark_occurrences-covered turns v (offset + i + 1) (drop i s) _ j
                (omega (arith, length-drop i s))
              ∙ or_assoc (m j) _ _)
    ]

-- The prefixes in which a text ends are nested.
in_tail-within :
    (n : ℕ) (v text : Bytes) (j : ℕ)
    → suc n ≤ length text
    → in_tail n v text j ≡ true
    → in_range (length text - suc n) (suc n) j ≡ true
unfolding in_tail
in_tail-within zero v text j h e = cc
in_tail-within (suc n) v text j h e = ground (arith, in_tail-within n v text j)

mark_tail-in_tail :
    (n : ℕ) (v text : Bytes) (m : Marks) (j : ℕ)
    → n ≤ length text
    → mark_tail n v text m j ≡ (m j || in_tail n v text j)
unfolding mark_tail in_tail
mark_tail-in_tail zero v text m j h = ground arith
mark_tail-in_tail (suc n) v text m j h = elim (Bool-cases (has_suffix (take (suc n) v) text)) [
  | inl e ↦ rw e (ground (arith, in_tail-within n v text j h))
  | inr e ↦ rw e (mark_tail-in_tail n v text m j (omega arith))
]

min-le : (a b : ℕ) → min a b ≤ b
min-le a b = ground arith

mark_variant-hidden_by :
    (incomplete : Bool) (text v : Bytes) (m : Marks) (j : ℕ)
    → mark_variant incomplete text v m j ≡ (m j || hidden_by incomplete text v j)
unfolding mark_variant hidden_by
mark_variant-hidden_by false text v m j =
    ground (arith, mark_occurrences-covered (length text) v 0 text m j)
mark_variant-hidden_by true text v m j =
    mark_tail-in_tail (min (length v - 1) (length text)) v text _ j (min-le _ _)
    ∙ rw (mark_occurrences-covered (length text) v 0 text m j (omega arith)) (or_assoc (m j) _ _)

module _ (x : Encodings) where
  mark_values-hidden :
      (incomplete : Bool) (text : Bytes) (vs : List Bytes) (m : Marks) (j : ℕ)
      → mark_values x incomplete text vs m j ≡ (m j || hidden x incomplete text vs j)
  unfolding mark_values mark_value hidden
  mark_values-hidden incomplete text [] m j = ground arith
  mark_values-hidden incomplete text ([] ∷ vs) m j = mark_values-hidden incomplete text vs m j
  mark_values-hidden incomplete text ((c ∷ v) ∷ vs) m j =
      mark_values-hidden incomplete text vs _ j
      ∙ ground (
        arith,
        mark_variant-hidden_by incomplete text (x.encoded (c ∷ v))
            (mark_variant incomplete text (x.quoted (c ∷ v))
              (mark_variant incomplete text (c ∷ v) m))
            j,
        mark_variant-hidden_by incomplete text (x.quoted (c ∷ v))
            (mark_variant incomplete text (c ∷ v) m) j,
        mark_variant-hidden_by incomplete text (c ∷ v) m j,
      )

render-unmarked : (offset : ℕ) (part : Bytes) → render unmarked offset part ≡ part
unfolding render
render-unmarked offset [] = refl
render-unmarked offset (c ∷ part) = ap (λ r. c ∷ r) (render-unmarked (suc offset) part)

render_parts-unmarked :
    (offset : ℕ) (parts : List Bytes) → render_parts unmarked offset parts ≡ parts
unfolding render_parts
render_parts-unmarked offset [] = refl
render_parts-unmarked offset (part ∷ parts) =
    cc (render-unmarked offset part, render_parts-unmarked (offset + length part) parts)

module _ (x : Encodings) where
  -- RedactParts writes each byte that is not hidden, and one marker for each run of hidden bytes. A
  -- byte is hidden exactly if it lies in an occurrence of a nonempty mask, or of one of its two
  -- encodings, in the joined text, or, where the text is incomplete, in a proper prefix of one of
  -- these in which the text ends.
  pub redact_parts-hidden :
      (values parts : List Bytes) (incomplete : Bool)
      → redact_parts x values parts incomplete
        ≡ render_parts (hidden x incomplete (concat parts) values) 0 parts
  unfolding redact_parts
  redact_parts-hidden [] parts incomplete = unfold hidden in sym (render_parts-unmarked 0 parts)
  redact_parts-hidden (v ∷ vs) parts incomplete =
      ap (λ m. render_parts m 0 parts)
        (fun_ext λ j. mark_values-hidden x incomplete (concat parts) (v ∷ vs) unmarked j)
