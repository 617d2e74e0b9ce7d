-- ===== src/Execution/Quantity/Syntax.antt =====
-- What the text of a quantity says, without the regular expressions of pkg/execution/quantity.go: its
-- digits and its unit; and that the syntax reads that.
use mathlib.Core.Path.{subst}
use c2j.Prelude.{ℕ, ◌*◌, ◌^◌, ◌≤◌, ◌<◌, Bool, true, false, some, none, [], ◌∷◌, ◌++◌}
use c2j.Prelude.{
  Bytes, nat_beq, if◌then◌else◌, ◌≡◌, ◌≢◌, refl, sym, ap, arith, inl, inr, every, length, Option,
  Bool-cases, is_nil,
}
use c2j.Execution.Quantity.{
  Exact, Number, number, fraction_of, number_tail, exact, cpu_exact, byte_exact, cpu_suffix,
  byte_suffix,
}
use native.Mathlib.Nat.{mul_assoc, mul_comm, mul-one, pow-le-pow_right}
use c2j.Prelude.{zero, suc, ◌∙◌}
use c2j.Execution.Quantity.{syntax_of, digits_value}
use c2j.Execution.Quantity.Units.{IsUnit, unless, byte_suffix-IsUnit, cpu_suffix-IsUnit}
use c2j.Execution.Text.{take_digits}
use c2j.Execution.Text.Decimal.{value, digit}

-- A fraction is written behind a point, and a number without one has no point.
abbrev pub pointed : Bytes → Bytes
pointed [] = []
pointed (c ∷ ds) = b'.' ∷ c ∷ ds

-- The text is the digits `whole`, a point and the digits `fraction`, if any, and the unit, which is
-- `size` millicores or bytes.
pub record Written (cpu : Bool) (s whole fraction : Bytes) (size : ℕ) : Type 0 where
  pub suffix : Bytes
  pub spelled : s ≡ whole ++ (pointed fraction ++ suffix)
  pub whole_digits : every digit whole ≡ true
  pub some_digit : whole ≢ []
  pub fraction_digits : every digit fraction ≡ true
  pub unit : IsUnit cpu suffix size

take_digits-split :
    (s ds rest : Bytes) → take_digits s ≡ (ds, rest) → (s ≡ ds ++ rest) × (every digit ds ≡ true)
unfolding take_digits every
take_digits-split [] ds rest h = ground arith
take_digits-split (c ∷ s) ds rest h =
    let (e, all) = take_digits-split s (take_digits s).0 (take_digits s).1 refl in ground arith

-- The digits and the suffix of a text that the syntax matches.
pub record Spelled (s : Bytes) (n : Number) : Type 0 where
  pub spells : s ≡ n.whole ++ (pointed n.fraction ++ n.suffix)
  pub whole_digits : every digit n.whole ≡ true
  pub some_digit : n.whole ≢ []
  pub fraction_digits : every digit n.fraction ≡ true

fraction_of-Spelled :
    (s whole ds suffix : Bytes) (n : Number)
    → s ≡ whole ++ (b'.' ∷ (ds ++ suffix))
    → every digit whole ≡ true
    → whole ≢ []
    → every digit ds ≡ true
    → fraction_of whole ds suffix ≡ some n
    → Spelled s n
fraction_of-Spelled s whole [] suffix n e v some_digit w h = absurd (ground arith)
fraction_of-Spelled s whole (d ∷ ds) suffix n e v some_digit w h =
    let made : ◌≡◌ {A = Number} (record { whole = whole; fraction = d ∷ ds; suffix = suffix }) n =
      cc in
    subst (Spelled s) made
      (record { spells = e; whole_digits = v; some_digit = some_digit; fraction_digits = w })

without_fraction :
    (s whole rest : Bytes) (n : Number)
    → s ≡ whole ++ rest
    → every digit whole ≡ true
    → whole ≢ []
    → ◌≡◌ {A = Option Number}
        (some (record { whole = whole; fraction = []; suffix = rest }))
        (some n)
    → Spelled s n
without_fraction s whole rest n e v some_digit h =
    let made : ◌≡◌ {A = Number} (record { whole = whole; fraction = []; suffix = rest }) n = cc in
    subst (Spelled s) made (record {
      spells = e;
      whole_digits = v;
      some_digit = some_digit;
      fraction_digits = unfold every in refl;
    })

number_tail-Spelled :
    (s whole rest : Bytes) (n : Number)
    → s ≡ whole ++ rest
    → every digit whole ≡ true
    → whole ≢ []
    → number_tail whole rest ≡ some n
    → Spelled s n
number_tail-Spelled s whole [] n e v some_digit h = without_fraction s whole [] n e v some_digit h
number_tail-Spelled s whole (c ∷ rest) n e v some_digit h =
    let (split, w) = take_digits-split rest (take_digits rest).0 (take_digits rest).1 refl in
    elim (Bool-cases (nat_beq c b'.')) [
      | inl point ↦
          let same : c ≡ b'.' = ground arith in
          fraction_of-Spelled s whole (take_digits rest).0 (take_digits rest).1 n
            (subst (λ r. s ≡ whole ++ (b'.' ∷ r)) split
              (subst (λ c. s ≡ whole ++ (c ∷ rest)) same e))
            v some_digit w (rw point at h)
      | inr other ↦ without_fraction s whole (c ∷ rest) n e v some_digit (rw other at h)
    ]

number-Spelled : (s : Bytes) (n : Number) → number s ≡ some n → Spelled s n
unfolding number
number-Spelled s n h =
    let (split, v) = take_digits-split s (take_digits s).0 (take_digits s).1 refl in
    let (filled, h1) = unless (is_nil (take_digits s).0) _ n h in
    number_tail-Spelled s (take_digits s).0 (take_digits s).1 n split v (λ empty. ground arith) h1

-- The exact value that the syntax reads is the value of the digits in the unit that is written.
pub record Reads (cpu : Bool) (s : Bytes) (x : Exact) : Type 0 where
  pub whole : Bytes
  pub fraction : Bytes
  pub size : ℕ
  pub written : Written cpu s whole fraction size
  pub exactly :
      x.top * (if cpu then 1000 else 1) * 10 ^ length fraction
      ≡ value (whole ++ fraction) * size * x.bottom
  pub same_zero : 0 < x.top → 0 < value (whole ++ fraction)
  pub positive : 0 < x.bottom

positive_left : (v k : ℕ) → 0 < v * k → 0 < v
positive_left zero k h = ground arith
positive_left (suc v) k h = omega arith

pow_positive : (k : ℕ) → 0 < 10 ^ k
pow_positive k =
    let low : 1 ≤ 10 ^ k = pow-le-pow_right {n = 10} (omega arith) {i = 0} {j = k} (omega arith) in
    omega arith

product_positive : (a b : ℕ) → 0 < a → 0 < b → 0 < a * b
product_positive zero b h k = absurd (omega arith)
product_positive (suc a) b h k = ground arith

cpu_scale : (v p size k : ℕ) → size * k ≡ 1000 → v * 1000 * p ≡ v * size * (p * k)
cpu_scale v p size k h = rw (sym h) (
    ap (λ m. m * p) (sym (mul_assoc v size k))
    ∙ mul_assoc (v * size) k p
    ∙ ap (λ m. v * size * m) (mul_comm k p))

exact_same : (a b : Exact) → ◌≡◌ {A = Option Exact} (some a) (some b) → a ≡ b
exact_same a b h = ground arith

matched :
    (cpu : Bool) (o : Option Number) (x : Exact)
    → (elim o [ none ↦ none | some n ↦ syntax_of cpu n ]) ≡ some x
    → (n : Number) × (o ≡ some n)
matched cpu none x h = absurd (ground arith)
matched cpu (some n) x h = (n, refl)

pub exact-number :
    (cpu : Bool) (s : Bytes) (x : Exact) → exact cpu s ≡ some x → (n : Number) × (number s ≡ some n)
unfolding exact
exact-number cpu s x h = matched cpu (number s) x h

matched_syntax :
    (cpu : Bool) (o : Option Number) (n : Number) (x : Exact)
    → o ≡ some n
    → (elim o [ none ↦ none | some n ↦ syntax_of cpu n ]) ≡ some x
    → syntax_of cpu n ≡ some x
matched_syntax cpu none n x e h = absurd (ground arith)
matched_syntax cpu (some m) n x e h =
    let same : m ≡ n = ground arith in subst (λ n. syntax_of cpu n ≡ some x) same h

pub exact-Reads :
    (cpu : Bool) (s : Bytes) (n : Number) (x : Exact)
    → number s ≡ some n
    → exact cpu s ≡ some x
    → Reads cpu s x
unfolding exact cpu_exact byte_exact
exact-Reads cpu s n x e h = in_unit cpu (matched_syntax cpu (number s) n x e h)
  where
    found : Spelled s n
    found = number-Spelled s n e

    written :
        (cpu : Bool) (size : ℕ) → IsUnit cpu n.suffix size → Written cpu s n.whole n.fraction size
    written cpu size u = record {
      suffix = n.suffix;
      spelled = found.spells;
      whole_digits = found.whole_digits;
      some_digit = found.some_digit;
      fraction_digits = found.fraction_digits;
      unit = u;
    }

    in_cores :
        (k : ℕ)
        → cpu_suffix n.suffix ≡ some k
        → Reads true s (record { top = digits_value n; bottom = 10 ^ length n.fraction * k })
    in_cores k e =
        let (size, u, whole_unit, positive) = cpu_suffix-IsUnit n.suffix k e in
        record {
          whole = n.whole;
          fraction = n.fraction;
          size = size;
          written = written true size u;
          exactly = cpu_scale (digits_value n) (10 ^ length n.fraction) size k whole_unit;
          same_zero = λ h. h;
          positive =
              product_positive (10 ^ length n.fraction) k (pow_positive (length n.fraction))
                positive;
        }

    in_bytes :
        (k : ℕ)
        → byte_suffix n.suffix ≡ some k
        → Reads false s (record { top = digits_value n * k; bottom = 10 ^ length n.fraction })
    in_bytes k e = record {
      whole = n.whole;
      fraction = n.fraction;
      size = k;
      written = written false k (byte_suffix-IsUnit n.suffix k e);
      exactly = ap (λ m. m * 10 ^ length n.fraction) (mul-one (digits_value n * k));
      same_zero = positive_left (digits_value n) k;
      positive = pow_positive (length n.fraction);
    }

    in_unit : (cpu : Bool) → syntax_of cpu n ≡ some x → Reads cpu s x
    in_unit true h =
        elim (cpu_suffix n.suffix)
            as (λ o.
              cpu_suffix n.suffix ≡ o
              → (elim o [
                | none ↦ none
                | some k ↦
                    some (record { top = digits_value n; bottom = 10 ^ length n.fraction * k })
              ])
                ≡ some x
              → Reads true s x) [
                | none ↦ λ e h. absurd (ground arith)
                | some k ↦ λ e h. subst (Reads true s) (exact_same _ x h) (in_cores k e)
              ]
          refl h
    in_unit false h =
        elim (byte_suffix n.suffix)
            as (λ o.
              byte_suffix n.suffix ≡ o
              → (elim o [
                | none ↦ none
                | some k ↦
                    some (record { top = digits_value n * k; bottom = 10 ^ length n.fraction })
              ])
                ≡ some x
              → Reads false s x) [
                | none ↦ λ e h. absurd (ground arith)
                | some k ↦ λ e h. subst (Reads false s) (exact_same _ x h) (in_bytes k e)
              ]
          refl h
