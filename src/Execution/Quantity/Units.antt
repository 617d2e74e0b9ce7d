-- ===== src/Execution/Quantity/Units.antt =====
-- The units of a quantity, without the tables of pkg/execution/quantity.go.
use mathlib.Core.Path.{subst}
use c2j.Prelude.{ℕ, ◌*◌, ◌^◌, ◌<◌, Bool, true, false, some, none, [], ◌∷◌}
use c2j.Prelude.{
  Bytes, nat_beq, if◌then◌else◌, ◌≡◌, refl, arith, picked, inl, inr, Option, not, ◌&&◌, ◌||◌,
}
use c2j.Execution.Quantity.{cpu_suffix, byte_suffix, unit_power, scaled}

-- The letters of the units, and their powers; the first letter differs.
pub data UnitLetter (first : ℕ) : ℕ → ℕ → Type 0 where
  kilo : UnitLetter first first 1
  mega : UnitLetter first b'M' 2
  giga : UnitLetter first b'G' 3
  tera : UnitLetter first b'T' 4
  peta : UnitLetter first b'P' 5
  exa : UnitLetter first b'E' 6

-- A unit in millicores (`true`) or in bytes: "" and "m", or "k" to "E" and "Ki" to "Ei".
pub data IsUnit : Bool → Bytes → ℕ → Type 0 where
  cores : IsUnit true [] 1000
  millicores : IsUnit true (b'm' ∷ []) 1
  decimal_bytes : {c p : ℕ} → UnitLetter b'k' c p → IsUnit false (c ∷ []) (1000 ^ p)
  binary_bytes : {c p : ℕ} → UnitLetter b'K' c p → IsUnit false (c ∷ b'i' ∷ []) (1024 ^ p)

letter_at :
    (first c d p k : ℕ) → nat_beq c d ≡ true → k ≡ p → UnitLetter first d k → UnitLetter first c p
letter_at first c d p k same e u =
    let e' : d ≡ c = ground arith in
    subst (λ c. UnitLetter first c p) e' (subst (UnitLetter first d) e u)

unit_power-UnitLetter :
    (first c p : ℕ)
    → ((nat_beq c b'k' || nat_beq c b'K') ≡ true → nat_beq c first ≡ true)
    → unit_power c ≡ some p
    → UnitLetter first c p
unit_power-UnitLetter first c p starts h =
    elim (picked (nat_beq c b'k' || nat_beq c b'K') _ 1 p h) [
      | inl (is, e) ↦ letter_at first c first p 1 (starts is) e kilo
      | inr h ↦ elim (picked (nat_beq c b'M') _ 2 p h) [
        | inl (is, e) ↦ letter_at first c b'M' p 2 is e mega
        | inr h ↦ elim (picked (nat_beq c b'G') _ 3 p h) [
          | inl (is, e) ↦ letter_at first c b'G' p 3 is e giga
          | inr h ↦ elim (picked (nat_beq c b'T') _ 4 p h) [
            | inl (is, e) ↦ letter_at first c b'T' p 4 is e tera
            | inr h ↦ elim (picked (nat_beq c b'P') _ 5 p h) [
              | inl (is, e) ↦ letter_at first c b'P' p 5 is e peta
              | inr h ↦ elim (picked (nat_beq c b'E') _ 6 p h) [
                | inl (is, e) ↦ letter_at first c b'E' p 6 is e exa
                | inr h ↦ absurd (ground arith)
              ]
            ]
          ]
        ]
      ]
    ]

scaled_ok :
    (base k : ℕ) (o : Option ℕ) → scaled base o ≡ some k → (p : ℕ) × (o ≡ some p) × (base ^ p ≡ k)
scaled_ok base k none h = absurd (ground arith)
scaled_ok base k (some p) h = (p, refl, ground arith)

pub unless :
    {A : Type 0} (b : Bool) (o : Option A) (a : A)
    → (if b then none else o) ≡ some a
    → (b ≡ false) × (o ≡ some a)
unless true o a h = absurd (ground arith)
unless false o a h = (refl, h)

only_if :
    {A : Type 0} (b : Bool) (o : Option A) (a : A)
    → (if b then o else none) ≡ some a
    → (b ≡ true) × (o ≡ some a)
only_if true o a h = (refl, h)
only_if false o a h = absurd (ground arith)

pub byte_suffix-IsUnit : (u : Bytes) (k : ℕ) → byte_suffix u ≡ some k → IsUnit false u k
byte_suffix-IsUnit [] k h = absurd (ground arith)
byte_suffix-IsUnit (c ∷ []) k h =
    let (other, h1) = unless (nat_beq c b'K') _ k h in
    let (p, made, e) = scaled_ok 1000 k (unit_power c) h1 in
    subst (IsUnit false (c ∷ [])) e
      (decimal_bytes (unit_power-UnitLetter b'k' c p (λ is. ground arith) made))
byte_suffix-IsUnit (c ∷ d ∷ []) k h =
    let (binary, h1) = only_if (nat_beq d b'i' && not (nat_beq c b'k')) _ k h in
    let (p, made, e) = scaled_ok 1024 k (unit_power c) h1 in
    let i : b'i' ≡ d = ground arith in
    subst (λ d. IsUnit false (c ∷ d ∷ []) k) i
      (subst (IsUnit false (c ∷ b'i' ∷ [])) e
        (binary_bytes (unit_power-UnitLetter b'K' c p (λ is. ground arith) made)))
byte_suffix-IsUnit (c ∷ d ∷ e ∷ u) k h = absurd (ground arith)

pub cpu_suffix-IsUnit :
    (u : Bytes) (k : ℕ)
    → cpu_suffix u ≡ some k
    → (size : ℕ) × IsUnit true u size × (size * k ≡ 1000) × (0 < k)
cpu_suffix-IsUnit [] k h = (1000, cores, ground arith, ground arith)
cpu_suffix-IsUnit (c ∷ []) k h =
    let (m, e) = only_if (nat_beq c b'm') _ k h in
    let same : b'm' ≡ c = ground arith in
    (1, subst (λ c. IsUnit true (c ∷ []) 1) same millicores, ground arith, ground arith)
cpu_suffix-IsUnit (c ∷ d ∷ u) k h = absurd (ground arith)
