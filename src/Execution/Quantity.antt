-- ===== src/Execution/Quantity.antt =====
-- pkg/execution/quantity.go. `resource.ParseQuantity` of Kubernetes is a parameter: the exact value
-- that the quantity holds, as a fraction, and the text that `Quantity.String` prints.
-- `big.Rat` is a fraction of natural numbers, since the syntax has no sign.
pub mod Normal
pub mod Units
pub mod Syntax
pub mod Accepted
use c2j.Prelude.{
  ℕ, zero, suc, ◌+◌, ◌-◌, ◌*◌, ◌/◌, ◌%◌, ◌^◌, ◌≤◌, ◌<◌, Bool, true, false, not, ◌&&◌, ◌||◌, Option,
  none, some, List, [], ◌∷◌, ◌++◌,
}
use c2j.Prelude.{Bytes, nat_beq, leb, ltb, if◌then◌else◌, is_nil, length}
use c2j.Execution.Text.{take_digits, is_digit}
use c2j.Execution.Text.Decimal.{value, decimal}

pub record Quantity : Type 0 where
  pub numerator : ℕ
  pub denominator : ℕ
  pub text : Bytes

-- `resource.ParseQuantity`
abbrev pub Parser : Type 0
Parser = Bytes → Option Quantity

-- A submatch of the syntaxes: digits, digits behind a point, and a suffix.
pub record Number : Type 0 where
  pub whole : Bytes
  pub fraction : Bytes
  pub suffix : Bytes

abbrev pub fraction_of : Bytes → Bytes → Bytes → Option Number
fraction_of whole ds rest =
    if is_nil ds then none else some (record { whole = whole; fraction = ds; suffix = rest })

abbrev pub number_tail : Bytes → Bytes → Option Number
number_tail whole [] = some (record { whole = whole; fraction = []; suffix = [] })
number_tail whole (c ∷ rest) =
    let (ds, suffix) = take_digits rest in
    if nat_beq c b'.'
    then fraction_of whole ds suffix
    else some (record { whole = whole; fraction = []; suffix = c ∷ rest })

-- `([0-9]+(?:\.[0-9]+)?)` and what follows it
unfoldable pub number : Bytes → Option Number
number s =
    let (whole, rest) = take_digits s in if is_nil whole then none else number_tail whole rest

-- `(m?)`: the power of ten below one core.
abbrev pub cpu_suffix : Bytes → Option ℕ
cpu_suffix [] = some 1
cpu_suffix (c ∷ []) = if nat_beq c b'm' then some 1000 else none
cpu_suffix (c ∷ d ∷ s) = none

-- The place of a letter in "kMGTPE", from one.
abbrev pub unit_power : ℕ → Option ℕ
unit_power c =
    if nat_beq c b'k' || nat_beq c b'K'
    then some 1
    else if nat_beq c b'M'
    then some 2
    else if nat_beq c b'G'
    then some 3
    else if nat_beq c b'T'
    then some 4
    else if nat_beq c b'P'
    then some 5
    else if nat_beq c b'E'
    then some 6
    else none

abbrev pub scaled : ℕ → Option ℕ → Option ℕ
scaled base none = none
scaled base (some power) = some (base ^ power)

-- `([kMGTPE]|[KMGTPE]i)`: the multiplier.
abbrev pub byte_suffix : Bytes → Option ℕ
byte_suffix [] = none
byte_suffix (c ∷ []) = if nat_beq c b'K' then none else scaled 1000 (unit_power c)
byte_suffix (c ∷ d ∷ []) =
    if nat_beq d b'i' && not (nat_beq c b'k') then scaled 1024 (unit_power c) else none
byte_suffix (c ∷ d ∷ e ∷ s) = none

-- The exact value that a text writes: cores, or bytes.
pub record Exact : Type 0 where
  pub top : ℕ
  pub bottom : ℕ

abbrev pub digits_value : Number → ℕ
digits_value n = value (n.whole ++ n.fraction)

-- Below one core the divisor joins the denominator; a multiplier of bytes joins the numerator.
unfoldable pub cpu_exact : Number → Option Exact
cpu_exact n = elim (cpu_suffix n.suffix) [
  | none ↦ none
  | some divisor ↦ some (record { top = digits_value n; bottom = 10 ^ length n.fraction * divisor })
]

unfoldable pub byte_exact : Number → Option Exact
byte_exact n = elim (byte_suffix n.suffix) [
  | none ↦ none
  | some multiplier ↦
      some (record { top = digits_value n * multiplier; bottom = 10 ^ length n.fraction })
]

abbrev pub syntax_of : Bool → Number → Option Exact
syntax_of true n = cpu_exact n
syntax_of false n = byte_exact n

-- `syntax.FindStringSubmatch` with the value of the match
unfoldable pub exact : Bool → Bytes → Option Exact
exact cpu s = elim (number s) [ none ↦ none | some n ↦ syntax_of cpu n ]

abbrev pub int64_max : ℕ
int64_max = 9223372036854775807

-- The tests behind the parse: positive, what ParseQuantity holds, integral, within int64.
unfoldable pub amount : Bool → Exact → Quantity → Option ℕ
amount cpu x q =
    let top = if cpu then x.top * 1000 else x.top in
    if nat_beq x.top 0
    then none
    else if not (nat_beq (x.top * q.denominator) (q.numerator * x.bottom))
    then none
    else if not (nat_beq (top % x.bottom) 0)
    then none
    else if leb (top / x.bottom) int64_max
    then some (top / x.bottom)
    else none

-- `parseQuantity`: the quantity and its amount in millicores or bytes; `none` is the one error.
unfoldable pub parse_quantity : Parser → Bytes → Bool → Option (Quantity × ℕ)
parse_quantity parser s cpu = if ltb 128 (length s) then none else elim (exact cpu s) [
  | none ↦ none
  | some x ↦ elim (parser s) [
    | none ↦ none
    | some q ↦ elim (amount cpu x q) [ none ↦ none | some n ↦ some (q, n) ]
  ]
]

unfoldable pub normalize_cpu : Parser → Bytes → Option Bytes
normalize_cpu parser s = elim (parse_quantity parser s true) [
  | none ↦ none
  | some (q, n) ↦ some (if nat_beq (n % 1000) 0 then decimal (n / 1000) else decimal n ++ b'm' ∷ [])
]

abbrev is_some {ℓ} : {A : Type ℓ} → Option A → Bool
is_some none = false
is_some (some a) = true

-- `strings.TrimRight` at one byte
unfoldable pub trim_right : ℕ → Bytes → Bytes
trim_right c [] = []
trim_right c (d ∷ s) =
    let rest = trim_right c s in if is_nil rest && nat_beq d c then [] else d ∷ rest

-- `%03d`, below a thousand
abbrev pub three_digits : ℕ → Bytes
three_digits n = (b'0' + n / 100) ∷ (b'0' + n / 10 % 10) ∷ (b'0' + n % 10) ∷ []

-- Kilobytes with up to three digits behind the point.
unfoldable pub kilobytes : ℕ → Bytes
kilobytes n =
    trim_right b'.' (trim_right b'0' (decimal (n / 1000) ++ (b'.' ∷ three_digits (n % 1000))))
    ++ b'k' ∷ []

unfoldable pub normalize_bytes : Parser → Bytes → Option Bytes
unfolding kilobytes
normalize_bytes parser s = elim (parse_quantity parser s false) [
  | none ↦ none
  | some (q, n) ↦ some (if is_some (exact false q.text) then q.text else kilobytes n)
]
