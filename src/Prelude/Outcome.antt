-- ===== src/Prelude/Outcome.antt =====
-- A value or a Go `error`. `E` is the component's own type of errors.
use mathlib.Core.Path.{◌≡◌, refl}
use mathlib.Core.Bool.{Bool, true, false}

pub data Result {ℓ κ} (E : Type ℓ) (A : Type κ) : Type (ℓ ⊔ κ) where
  ok : A → Result E A
  err : E → Result E A

-- The next statement, where `err != nil` returns early.
module _ {ℓ κ μ} {E : Type ℓ} {A : Type κ} {B : Type μ} where
  infixl 5 ◌>>=◌
  abbrev pub ◌>>=◌ : Result E A → (A → Result E B) → Result E B
  err why >>= next = err why
  ok got >>= next = next got

  pub >>=-eq-ok :
      (m : Result E A) (next : A → Result E B) {out : B} (h : (m >>= next) ≡ ok out)
      → (got : A) × (m ≡ ok got) × (next got ≡ ok out)
  >>=-eq-ok (err why) next h = cc
  >>=-eq-ok (ok got) next h = (got, refl, h)

module _ {ℓ κ} {E : Type ℓ} {B : Type κ} where
  infixl 5 ◌>>◌
  abbrev pub ◌>>◌ : Result E (Unit {0}) → Result E B → Result E B
  checked >> rest = checked >>= λ _. rest

-- `if bad { return err }`
abbrev pub reject_if {ℓ} : {E : Type ℓ} → Bool → E → Result E (Unit {0})
reject_if true e = err e
reject_if false e = ok tt
