-- ===== src/Secrets/Masks/Boundaries.antt =====
-- RedactParts hides the same bytes wherever the parts are cut.
use c2j.Prelude.{
  ℕ, suc, ◌+◌, Bool, true, false, List, [], ◌∷◌, ◌++◌, ◌≡◌, refl, sym, ap, ◌∙◌, arith, Bytes,
  length, if◌then◌else◌,
}
use mathlib.Core.List.{append-nil}
use c2j.Secrets.Masks.{
  Encodings, Marks, marker, run_starts, unmarked, mark_values, render, render_parts, concat,
  redact_parts,
}

shift : (offset c : ℕ) (part : Bytes) → suc offset + length part ≡ offset + length (c ∷ part)
shift offset c part = omega arith

-- A part is written where the one before it ends.
render-append :
    (m : Marks) (offset : ℕ) (s t : Bytes)
    → render m offset (s ++ t) ≡ render m offset s ++ render m (offset + length s) t
unfolding render
render-append m offset [] t = let e : offset + 0 ≡ offset = omega arith in rw e refl
render-append m offset (c ∷ s) t =
    rw (render-append m (suc offset) s t, shift offset c s)
      (split_case (m offset) (run_starts m offset))
  where
    split_case :
        (b f : Bool)
        → (if b
            then (if f
                then marker ++ (render m (suc offset) s ++ render m (offset + length (c ∷ s)) t)
                else render m (suc offset) s ++ render m (offset + length (c ∷ s)) t)
            else c ∷ (render m (suc offset) s ++ render m (offset + length (c ∷ s)) t))
          ≡ (if b
              then (if f then marker ++ render m (suc offset) s else render m (suc offset) s)
              else c ∷ render m (suc offset) s)
            ++ render m (offset + length (c ∷ s)) t
    split_case true true = refl
    split_case true false = refl
    split_case false f = refl

concat-render_parts :
    (m : Marks) (offset : ℕ) (parts : List Bytes)
    → concat (render_parts m offset parts) ≡ render m offset (concat parts)
unfolding render_parts concat
concat-render_parts m offset [] = unfold render in refl
concat-render_parts m offset (part ∷ parts) =
    ap (λ r. render m offset part ++ r) (concat-render_parts m (offset + length part) parts)
    ∙ sym (render-append m offset part (concat parts))

-- What RedactParts writes, put together, is what it writes for the joined text in one part.
pub concat-redact_parts :
    (x : Encodings) (values parts : List Bytes) (incomplete : Bool)
    → concat (redact_parts x values parts incomplete)
      ≡ concat (redact_parts x values (concat parts ∷ []) incomplete)
unfolding redact_parts
concat-redact_parts x [] parts incomplete = unfold concat in sym (append-nil (concat parts))
concat-redact_parts x (v ∷ vs) parts incomplete =
    let whole : concat (concat parts ∷ []) ≡ concat parts =
      unfold concat in append-nil (concat parts) in
    let m : Marks = mark_values x incomplete (concat parts) (v ∷ vs) unmarked in
    concat-render_parts m 0 parts
    ∙ rw whole (sym (concat-render_parts m 0 (concat parts ∷ []) ∙ ap (λ t. render m 0 t) whole))
