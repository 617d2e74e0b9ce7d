-- ===== src/Execution/Text/Decimal.antt =====
-- Decimal numerals: reading digits, and `%d` of a number that is not negative.
use c2j.Prelude.{
  ℕ, zero, suc, ◌+◌, ◌-◌, ◌*◌, ◌/◌, ◌%◌, ◌^◌, ◌≤◌, ◌<◌, Bool, true, false, ◌&&◌, [], ◌∷◌, ◌++◌, ◌≡◌,
  refl,
}
use c2j.Prelude.{Bytes, is_nil, leb, ltb, if◌then◌else◌, every, length, length-append, arith}
use native.Mathlib.Nat.{pow-suc}

-- The number that digits stand for, behind a number read before.
unfoldable pub value_from : ℕ → Bytes → ℕ
value_from n [] = n
value_from n (c ∷ cs) = value_from (n * 10 + (c - b'0')) cs

unfoldable pub value : Bytes → ℕ
unfolding value_from
value cs = value_from 0 cs

print : (k n : ℕ) → Bytes
print zero n = []
print (suc k) n =
    let rest = print k (n / 10) in
    if ltb n 10 then (b'0' + n) ∷ [] else rest ++ (b'0' + n % 10) ∷ []

-- `%d`. A number has at most as many digits as itself and one more.
unfoldable pub decimal : ℕ → Bytes
unfolding print
decimal n = print (suc n) n

-- Digits, as a test of a whole text.
abbrev pub digit : ℕ → Bool
digit c = leb b'0' c && leb c b'9'

every-append : (f : ℕ → Bool) (xs ys : Bytes) → every f (xs ++ ys) ≡ (every f xs && every f ys)
unfolding every
every-append f [] ys = refl
every-append f (x ∷ xs) ys = ground (arith, every-append f xs ys)

every-print : (k n : ℕ) → every digit (print k n) ≡ true
unfolding print every
every-print zero n = refl
every-print (suc k) n =
    ground
      (arith, every-print k (n / 10), every-append digit (print k (n / 10)) ((b'0' + n % 10) ∷ []))

pub every-decimal : (n : ℕ) → every digit (decimal n) ≡ true
unfolding decimal
every-decimal n = every-print (suc n) n

length-print : (k n b : ℕ) → n < 10 ^ b → length (print k n) ≤ suc b
unfolding print
length-print zero n b h = omega arith
length-print (suc k) n zero h = ground arith
length-print (suc k) n (suc b) h = ground (
  arith,
  pow-suc 10 b,
  length-print k (n / 10) b,
  length-append (print k (n / 10)) ((b'0' + n % 10) ∷ []),
)

-- A number below a power of ten has at most one digit more than the power.
pub length-decimal : (n b : ℕ) → n < 10 ^ b → length (decimal n) ≤ suc b
unfolding decimal
length-decimal n b h = length-print (suc n) n b h

is_nil-snoc : (xs : Bytes) (c : ℕ) → is_nil (xs ++ c ∷ []) ≡ false
is_nil-snoc [] c = refl
is_nil-snoc (x ∷ xs) c = refl

print-ne_nil : (k n : ℕ) → is_nil (print (suc k) n) ≡ false
unfolding print
print-ne_nil k n = ground (arith, is_nil-snoc (print k (n / 10)) (b'0' + n % 10))

pub decimal-ne_nil : (n : ℕ) → is_nil (decimal n) ≡ false
unfolding decimal
decimal-ne_nil n = print-ne_nil n n

value_from-append :
    (n : ℕ) (xs ys : Bytes) → value_from n (xs ++ ys) ≡ value_from (value_from n xs) ys
unfolding value_from
value_from-append n [] ys = refl
value_from-append n (x ∷ xs) ys = value_from-append (n * 10 + (x - b'0')) xs ys

value-print : (k n : ℕ) → n < k → value (print k n) ≡ n
unfolding value print
value-print zero n h = elim h [ ]
value-print (suc k) n h =
    ground
      (arith, value-print k (n / 10), value_from-append 0 (print k (n / 10)) ((b'0' + n % 10) ∷ []))

-- A printed number reads back.
pub value-decimal : (n : ℕ) → value (decimal n) ≡ n
unfolding decimal
value-decimal n = value-print (suc n) n (omega arith)
