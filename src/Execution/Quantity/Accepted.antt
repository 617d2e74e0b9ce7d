-- ===== src/Execution/Quantity/Accepted.antt =====
-- What a quantity is that parseQuantity of pkg/execution/quantity.go accepts.
use c2j.Prelude.{ℕ, ◌*◌, ◌^◌, ◌≤◌, ◌<◌, Bool, true, false, some, ◌++◌}
use c2j.Prelude.{Bytes, if◌then◌else◌, ◌≡◌, sym, ap, arith, length}
use c2j.Execution.Quantity.{Quantity, Parser, parse_quantity, int64_max, amount}
use native.Mathlib.Nat.{mul_right_comm, mul-div_cancel}
use c2j.Prelude.{◌∙◌, ◌/◌}
use c2j.Execution.Quantity.Normal.{amount_exact, parse_stages}
use c2j.Execution.Text.Decimal.{value}
use c2j.Execution.Quantity.Syntax.{Written, exact-number, exact-Reads}

cancel : (b m n : ℕ) → 0 < b → m * b ≡ n * b → m ≡ n
cancel b m n h e = sym (mul-div_cancel m h) ∙ ap (λ k. k / b) e ∙ mul-div_cancel n h

same_value :
    (n b top scale p v : ℕ) → 0 < b → n * b ≡ top * scale → top * scale * p ≡ v * b → n * p ≡ v
same_value n b top scale p v h amount exactly =
    cancel b (n * p) v h (mul_right_comm n p b ∙ ap (λ m. m * p) amount ∙ exactly)

same_quantity :
    (n b top scale d u : ℕ) → 0 < b → n * b ≡ top * scale → top * d ≡ u * b → n * d ≡ u * scale
same_quantity n b top scale d u h amount held = cancel b (n * d) (u * scale) h (
    mul_right_comm n d b
    ∙ ap (λ m. m * d) amount
    ∙ mul_right_comm top scale d
    ∙ ap (λ m. m * scale) held
    ∙ mul_right_comm u b scale)

scaled_top :
    (cpu : Bool) (top m : ℕ)
    → m ≡ (if cpu then top * 1000 else top)
    → m ≡ top * (if cpu then 1000 else 1)
scaled_top true top m h = h
scaled_top false top m h = ground arith

-- A quantity that is accepted as the amount `n`.
pub record Accepted (cpu : Bool) (s : Bytes) (q : Quantity) (n : ℕ) : Type 0 where
  pub whole : Bytes
  pub fraction : Bytes
  pub size : ℕ
  pub written : Written cpu s whole fraction size
  pub is_positive : 0 < value (whole ++ fraction)
  pub is_value : n * 10 ^ length fraction ≡ value (whole ++ fraction) * size
  pub is_held : n * q.denominator ≡ q.numerator * (if cpu then 1000 else 1)
  pub in_int64 : n ≤ int64_max

-- Where parseQuantity accepts a text, it is digits, with a fraction or without, and a unit; the amount
-- is exactly their value in that unit, in millicores or bytes, which is positive and within int64;
-- and it is what the quantity holds that ParseQuantity returned.
pub parse_quantity-Accepted :
    (parser : Parser) (s : Bytes) (cpu : Bool) (q : Quantity) (n : ℕ)
    → parse_quantity parser s cpu ≡ some (q, n)
    → Accepted cpu s q n
parse_quantity-Accepted parser s cpu q n h =
    let (x, e, _, a) = parse_stages parser s cpu q n h in
    let (m, matches) = exact-number cpu s x e in
    let (positive, bounded, top, held) = amount_exact cpu x q n a in
    let r = exact-Reads cpu s m x matches e in
    let scale = if cpu then 1000 else 1 in
    let amount_top = scaled_top cpu x.top (n * x.bottom) top in
    record {
      whole = r.whole;
      fraction = r.fraction;
      size = r.size;
      written = r.written;
      is_positive = r.same_zero positive;
      is_value =
          same_value n x.bottom x.top scale (10 ^ length r.fraction) _ r.positive amount_top
            r.exactly;
      is_held =
          same_quantity n x.bottom x.top scale q.denominator q.numerator r.positive amount_top held;
      in_int64 = bounded;
    }
