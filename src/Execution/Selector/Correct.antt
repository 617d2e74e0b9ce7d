-- ===== src/Execution/Selector/Correct.antt =====
-- `MatchBase`, which takes each part at its first occurrence, decides the meaning of selectors.
use c2j.Prelude.{ℕ, true, some, List, [], ◌∷◌, ◌++◌, ◌≡◌, ◌≢◌, ◌↔◌, refl, sym, ◌∙◌, ap}
use c2j.Prelude.{
  ◌⊎◌, inl, inr, Bytes, bytes_beq, bytes_eq, arith, Bool-cases, Option-cases, bytes_beq_refl,
  bytes_beq_iff, length, length-append, ◌≤◌,
}
use c2j.Execution.Selector.Meaning.{Glob, finish, byte, leave, take, Gap, last, next, Fits}
use c2j.Execution.Selector.{
  Parts, add_byte, new_part, split, strip, after_first, has_suffix, walk, match_parts, match_base,
}
use native.Mathlib.Decide.{ℕ_discrete}
use mathlib.Core.List.{append_assoc, append-nil}

strip_sound : (p s t : Bytes) → strip p s ≡ some t → s ≡ p ++ t
unfolding strip
strip_sound [] s t h = ground arith
strip_sound (c ∷ cs) [] t h = cc
strip_sound (c ∷ cs) (d ∷ s) t h = ground (arith, strip_sound cs s t)

strip-append : (p t : Bytes) → strip p (p ++ t) ≡ some t
unfolding strip
strip-append [] t = refl
strip-append (c ∷ cs) t = ground (arith, strip-append cs t)

after_first_sound : (p s t : Bytes) → after_first p s ≡ some t → (x : Bytes) × (s ≡ x ++ (p ++ t))
unfolding after_first
after_first_sound p [] t h = ([], strip_sound p [] t h)
after_first_sound p (c ∷ s) t h = elim (Option-cases (strip p (c ∷ s))) [
  | inl no_match ↦ let (x, e) = after_first_sound p s t (ground arith) in (c ∷ x, ap (λ r. c ∷ r) e)
  | inr (r, found) ↦ ([], strip_sound p (c ∷ s) t (ground arith))
]

after_first_self : (p t : Bytes) → after_first p (p ++ t) ≡ some t
unfolding after_first strip
after_first_self [] [] = refl
after_first_self [] (d ∷ t) = refl
after_first_self (c ∷ p) t = ground (arith, strip-append p t)

-- Of two ends of one text, the longer one has the shorter one for its end.
longer_end : (p r z t : Bytes) → p ++ r ≡ z ++ t → length t ≤ length r → (y : Bytes) × (r ≡ y ++ t)
longer_end [] r z t e h = (z, e)
longer_end (c ∷ p) r [] t e h = absurd (omega (arith, ap length e, length-append p r))
longer_end (c ∷ p) r (d ∷ z) t e h = longer_end p r z t (ground arith) h

-- The first occurrence leaves at least what any other leaves.
after_first_first : (p x t : Bytes) → (y : Bytes) × (after_first p (x ++ (p ++ t)) ≡ some (y ++ t))
unfolding after_first
after_first_first p [] t = ([], after_first_self p t)
after_first_first p (c ∷ x) t = elim (Option-cases (strip p (c ∷ (x ++ (p ++ t))))) [
  | inl no_match ↦ let (y, e) = after_first_first p x t in (y, ground arith)
  | inr (r, found) ↦
      let e = strip_sound p (c ∷ (x ++ (p ++ t))) r found in
      let (y, q) = longer_end p r ((c ∷ x) ++ p) t (sym e ∙ sym (append_assoc (c ∷ x) p t)) (
        omega
          (arith, ap length e, length-append x (p ++ t), length-append p t, length-append p r)) in
      (y, ground arith)
]

has_suffix_sound : (p s : Bytes) → has_suffix p s ≡ true → (x : Bytes) × (s ≡ x ++ p)
unfolding has_suffix
has_suffix_sound p [] h = ([], sym ((bytes_beq_iff p []).0 h))
has_suffix_sound p (c ∷ s) h = elim (Bool-cases (bytes_beq p (c ∷ s))) [
  | inl same ↦ ([], sym ((bytes_beq_iff p (c ∷ s)).0 same))
  | inr other ↦ let (x, e) = has_suffix_sound p s (ground arith) in (c ∷ x, ap (λ r. c ∷ r) e)
]

has_suffix_self : (p : Bytes) → has_suffix p p ≡ true
unfolding has_suffix
has_suffix_self [] = refl
has_suffix_self (c ∷ p) = ground (arith, bytes_beq_refl (c ∷ p))

has_suffix-append : (x p : Bytes) → has_suffix p (x ++ p) ≡ true
unfolding has_suffix
has_suffix-append [] p = has_suffix_self p
has_suffix-append (c ∷ x) p = ground (arith, has_suffix-append x p)

Gap-append : {p : Bytes} {ps : List Bytes} {s : Bytes} (y : Bytes) → Gap p ps s → Gap p ps (y ++ s)
Gap-append {p} y (last x e) = last (y ++ x) (rw e (sym (append_assoc y x p)))
Gap-append {p} y (next x t e g) = next (y ++ x) t (rw e (sym (append_assoc y x (p ++ t)))) g

walk_sound : (p : Bytes) (ps : List Bytes) (s : Bytes) → walk p ps s ≡ true → Gap p ps s
unfolding walk
walk_sound p [] s h = let (x, e) = has_suffix_sound p s h in last x e
walk_sound p (q ∷ ps) s h = elim (Option-cases (after_first p s)) [
  | inl no_match ↦ absurd (ground arith)
  | inr (t, found) ↦
      let (x, e) = after_first_sound p s t found in
      next x t e (walk_sound q ps t (rw (found, walk) at h))
]

-- Stated for any text in front, so that the induction goes through.
walk_complete :
    {p : Bytes} {ps : List Bytes} {s : Bytes} (y : Bytes) → Gap p ps s → walk p ps (y ++ s) ≡ true
unfolding walk
walk_complete {p} y (last x e) = rw (e, ← append_assoc y x p) (has_suffix-append (y ++ x) p)
walk_complete {p} y (next x t e g) =
    let (z, found) = after_first_first p (y ++ x) t in
    rw (e, ← append_assoc y x (p ++ t)) (rw (found, walk) (walk_complete z g))

split_byte : (c : ℕ) (p : Bytes) → c ≢ b'*' → split (c ∷ p) ≡ add_byte c (split p)
unfolding split
split_byte c p ne = ground arith

split_star : (c : ℕ) (p : Bytes) → c ≡ b'*' → split (c ∷ p) ≡ new_part (split p)
unfolding split
split_star c p e = ground arith

-- A text read by the parts of a selector.
abbrev Reads : Parts → Bytes → Type 0
Reads (first, rest) s = (t : Bytes) × (s ≡ first ++ t) × Fits rest t

-- A reading of the parts becomes one behind a star.
Reads→Gap :
    (first : Bytes) (rest : List Bytes) (s : Bytes) → Reads (first, rest) s → Gap first rest s
Reads→Gap first [] s (t, e, nil) = last [] (e ∙ (rw nil (append-nil first)))
Reads→Gap first (q ∷ qs) s (t, e, g) = next [] t e g

Glob→Reads : {p s : Bytes} → Glob p s → Reads (split p) s
unfolding split
Glob→Reads finish = ([], refl, refl)
Glob→Reads (byte {c} {p} ne g) =
    let (t, e, f) = Glob→Reads g in rw (split_byte c p ne) (t, ap (λ r. c ∷ r) e, f)
Glob→Reads (leave {c} {p} e g) =
    rw (split_star c p e) (_, refl, Reads→Gap (split p).0 (split p).1 _ (Glob→Reads g))
Glob→Reads (take {c} {d} {p} e g) =
    let (t, q, f) = rw (split_star c p e) at (Glob→Reads g) in
    rw (split_star c p e) (_, refl, rw q (Gap-append (d ∷ []) f))

-- What a star takes before the text that is left.
stretch : {c : ℕ} {p t : Bytes} → c ≡ b'*' → (x : Bytes) → Glob (c ∷ p) t → Glob (c ∷ p) (x ++ t)
stretch e [] g = g
stretch e (d ∷ x) g = take e (stretch e x g)

Gap→Reads :
    {p : Bytes} {ps : List Bytes} {s : Bytes}
    → Gap p ps s
    → (x : Bytes) × (s' : Bytes) × (s ≡ x ++ s') × Reads (p, ps) s'
Gap→Reads {p} (last x e) = (x, p, e, ([], sym (append-nil p), refl))
Gap→Reads {p} (next x t e g) = (x, p ++ t, e, (t, refl, g))

Gap→Glob :
    {c : ℕ} (p s : Bytes)
    → c ≡ b'*'
    → ((s' : Bytes) → Reads (split p) s' → Glob p s')
    → Gap (split p).0 (split p).1 s
    → Glob (c ∷ p) s
Gap→Glob p s e ih g = let (x, s', q, r) = Gap→Reads g in rw q (stretch e x (leave e (ih s' r)))

Reads→Glob : (p s : Bytes) → Reads (split p) s → Glob p s
unfolding split
Reads→Glob [] s (t, e, nil) = rw (e ∙ nil) finish
Reads→Glob (c ∷ p) s r = elim (ℕ_discrete c b'*') [
  | yes star ↦
      Gap→Glob p s star (Reads→Glob p) (let (t, q, g) = rw (split_star c p star) at r in rw q g)
  | no other ↦
      let (t, q, f) = rw (split_byte c p other) at r in
      rw q (byte other (Reads→Glob p ((split p).0 ++ t) (t, refl, f)))
]

split_whole : (p : Bytes) → (split p).1 ≡ [] → (split p).0 ≡ p
unfolding split
split_whole [] h = refl
split_whole (c ∷ p) h = ground (arith, split_whole p)

-- One part: the selector has no star, and the whole texts are compared.
match_whole : (p s : Bytes) → (split p).1 ≡ [] → (bytes_beq p s ≡ true) ↔ Glob p s
match_whole p s h = (
  λ same. Reads→Glob p s (
    [],
    sym ((bytes_beq_iff p s).0 same) ∙ (sym (split_whole p h) ∙ sym (append-nil (split p).0)),
    rw h refl,
  ),
  λ g.
      let (t, e, f) = Glob→Reads g in
      let nil : t ≡ [] = rw h at f in
      (bytes_beq_iff p s).1 (sym (e ∙ (rw nil (append-nil (split p).0) ∙ split_whole p h))),
)

-- Several parts.
match_starred :
    (first part : Bytes) (parts : List Bytes) (p s : Bytes)
    → split p ≡ (first, part ∷ parts)
    → (match_parts (first, part ∷ parts) p s ≡ true) ↔ Glob p s
unfolding match_parts
match_starred first part parts p s h = (
  λ m. elim (Option-cases (strip first s)) [
    | inl no_prefix ↦ absurd (ground arith)
    | inr (r, found) ↦ Reads→Glob p s (
        rw h
          (r, strip_sound first s r found, walk_sound part parts r (rw (found, match_parts) at m)))
  ],
  λ g.
      let (t, e, gap) = rw h at (Glob→Reads g) in
      rw e (rw (strip-append first t, match_parts) (walk_complete [] gap)),
)

match_parts_iff : (p s : Bytes) → (match_parts (split p) p s ≡ true) ↔ Glob p s
match_parts_iff p s = go (split p) refl
  where
    go : (parts : Parts) → split p ≡ parts → (match_parts parts p s ≡ true) ↔ Glob p s
    go (first, []) h = unfold match_parts in (match_whole p s (ap (λ parts. parts.1) h))
    go (first, part ∷ parts) h = match_starred first part parts p s h

-- `MatchBase` accepts exactly the selector of one star, with any text, and the nonempty texts that
-- the selector means.
pub match_base_iff :
    (p s : Bytes) → (match_base p s ≡ true) ↔ ((p ≡ b'*' ∷ []) ⊎ ((s ≢ []) × Glob p s))
unfolding match_base
match_base_iff p s = (
  λ m. ground (arith, bytes_beq_iff p (b'*' ∷ []), (match_parts_iff p s).0),
  λ h. ground (arith, bytes_beq_iff p (b'*' ∷ []), (match_parts_iff p s).1),
)
