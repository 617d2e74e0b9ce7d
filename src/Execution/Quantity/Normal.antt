-- ===== src/Execution/Quantity/Normal.antt =====
-- A normalised quantity is the same quantity.
use c2j.Prelude.{ℕ, ◌*◌, ◌/◌, ◌%◌, ◌≤◌, ◌<◌, Bool, true, false, some, [], ◌∷◌, ◌++◌}
use c2j.Prelude.{
  Bytes, nat_beq, if◌then◌else◌, ◌≡◌, refl, arith, Bool-cases, inl, inr, every, length-append,
}
use c2j.Execution.Quantity.{
  Quantity, Parser, Exact, number, exact, cpu_exact, amount, parse_quantity, normalize_cpu,
  int64_max,
}
use c2j.Execution.Text.{take_digits}
use c2j.Execution.Text.Decimal.{
  value, decimal, digit, value-decimal, every-decimal, length-decimal, decimal-ne_nil,
}
use native.Mathlib.Nat.{div-add-mod, mul_comm}
use mathlib.Core.List.{append-nil}

exact_quotient : (t b n : ℕ) → t % b ≡ 0 → n ≡ t / b → n * b ≡ t
exact_quotient t b n h e = rw e (ground (arith, div-add-mod t b, mul_comm b (t / b)))

-- The amount is exact: the digits, over the power of ten and the divisor, in millicores or bytes.
pub amount_exact :
    (cpu : Bool) (x : Exact) (q : Quantity) (n : ℕ)
    → amount cpu x q ≡ some n
    → (0 < x.top)
      × (n ≤ int64_max)
      × (n * x.bottom ≡ (if cpu then x.top * 1000 else x.top))
      × (x.top * q.denominator ≡ q.numerator * x.bottom)
unfolding amount
amount_exact true x q n h = ground (arith, exact_quotient (x.top * 1000) x.bottom n)
amount_exact false x q n h = ground (arith, exact_quotient x.top x.bottom n)

take_digits-append :
    (ds rest : Bytes)
    → every digit ds ≡ true
    → take_digits rest ≡ ([], rest)
    → take_digits (ds ++ rest) ≡ (ds, rest)
unfolding take_digits every
take_digits-append [] rest h e = e
take_digits-append (d ∷ ds) rest h e = ground (arith, take_digits-append ds rest)

number-plain :
    (n : ℕ) → number (decimal n) ≡ some (record { whole = decimal n; fraction = []; suffix = [] })
unfolding number
number-plain n =
    let e : take_digits (decimal n) ≡ (decimal n, []) =
      rw (append-nil (decimal n)) at
        (take_digits-append (decimal n) [] (every-decimal n) (unfold take_digits in refl)) in
    ground (arith, decimal-ne_nil n)

number-milli :
    (n : ℕ)
    → number (decimal n ++ b'm' ∷ [])
      ≡ some (record { whole = decimal n; fraction = []; suffix = b'm' ∷ [] })
unfolding number
number-milli n = ground (
  arith,
  decimal-ne_nil n,
  take_digits-append (decimal n) (b'm' ∷ []) (every-decimal n) (unfold take_digits in refl),
)

value-plain : (n : ℕ) → value (decimal n ++ []) ≡ n
value-plain n = rw (append-nil (decimal n)) (value-decimal n)

-- A printed number, alone and in millicores.
pub exact-plain : (n : ℕ) → exact true (decimal n) ≡ some (record { top = n; bottom = 1 })
unfolding exact cpu_exact
exact-plain n = ground (arith, number-plain n, value-plain n)

pub exact-milli :
    (n : ℕ) → exact true (decimal n ++ b'm' ∷ []) ≡ some (record { top = n; bottom = 1000 })
unfolding exact cpu_exact
exact-milli n = ground (arith, number-milli n, value-plain n)

-- What is documented of `ParseQuantity` on the numerals that are printed here: within int64 it
-- holds the number of cores, or of millicores, exactly.
pub record ReadsCores (parser : Parser) : Type 0 where
  pub cores :
      (n : ℕ)
      → n ≤ int64_max
      → (q : Quantity) × (parser (decimal n) ≡ some q) × (q.numerator ≡ n * q.denominator)
  pub millicores :
      (n : ℕ)
      → n ≤ int64_max
      → (q : Quantity) × (parser (decimal n ++ b'm' ∷ []) ≡ some q)
        × (q.numerator * 1000 ≡ n * q.denominator)

pub parse_stages :
    (parser : Parser) (s : Bytes) (cpu : Bool) (q : Quantity) (n : ℕ)
    → parse_quantity parser s cpu ≡ some (q, n)
    → (x : Exact) × (exact cpu s ≡ some x) × (parser s ≡ some q) × (amount cpu x q ≡ some n)
unfolding parse_quantity
parse_stages parser s cpu q n p = ground arith

parse_positive :
    (parser : Parser) (s : Bytes) (q : Quantity) (n : ℕ)
    → parse_quantity parser s true ≡ some (q, n)
    → (0 < n) × (n ≤ int64_max)
parse_positive parser s q n p =
    let (x, _, _, a) = parse_stages parser s true q n p in
    let (positive, bounded, same, _) = amount_exact true x q n a in (grind arith, bounded)

parse-cores :
    (parser : Parser)
    → ReadsCores parser
    → (n : ℕ) → 0 < n
    → n * 1000 ≤ int64_max
    → (q : Quantity) × (parse_quantity parser (decimal n) true ≡ some (q, n * 1000))
unfolding parse_quantity amount
parse-cores parser reads n h b =
    let (q, found, same) = reads.cores n (omega arith) in
    (q, ground (arith, exact-plain n, length-decimal n 19))

parse-millicores :
    (parser : Parser)
    → ReadsCores parser
    → (n : ℕ) → 0 < n
    → n ≤ int64_max
    → (q : Quantity) × (parse_quantity parser (decimal n ++ b'm' ∷ []) true ≡ some (q, n))
unfolding parse_quantity amount
parse-millicores parser reads n h b =
    let (q, found, same) = reads.millicores n b in
    (q, ground (arith, exact-milli n, length-decimal n 19, length-append (decimal n) (b'm' ∷ [])))

-- The canonical form of a CPU quantity is accepted again, with the same amount.
pub normalize_cpu_same :
    (parser : Parser)
    → ReadsCores parser
    → (s c : Bytes) (q : Quantity) (n : ℕ) → parse_quantity parser s true ≡ some (q, n)
    → normalize_cpu parser s ≡ some c
    → (q' : Quantity) × (parse_quantity parser c true ≡ some (q', n))
unfolding normalize_cpu
normalize_cpu_same parser reads s c q n p e =
    let (positive, bounded) = parse_positive parser s q n p in
    elim (Bool-cases (nat_beq (n % 1000) 0)) [
      | inl cores ↦
          let (q', again) = parse-cores parser reads (n / 1000) (ground arith) (ground arith) in
          (q', ground arith)
      | inr milli ↦
          let (q', again) = parse-millicores parser reads n positive bounded in (q', ground arith)
    ]
