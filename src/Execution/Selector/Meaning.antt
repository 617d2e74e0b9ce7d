-- ===== src/Execution/Selector/Meaning.antt =====
-- What a selector means, apart from any algorithm: a star stands for any bytes, and every other
-- byte for itself.
use c2j.Prelude.{ℕ, List, [], ◌∷◌, ◌++◌, ◌≡◌, ◌≢◌, Bytes}

pub data Glob : Bytes → Bytes → Type 0 where
  finish : Glob [] []
  byte : {c : ℕ} {p s : Bytes} → c ≢ b'*' → Glob p s → Glob (c ∷ p) (c ∷ s)
  leave : {c : ℕ} {p s : Bytes} → c ≡ b'*' → Glob p s → Glob (c ∷ p) s
  take : {c d : ℕ} {p s : Bytes} → c ≡ b'*' → Glob (c ∷ p) s → Glob (c ∷ p) (d ∷ s)

-- The same over parts: each part occurs behind the one before it, and the last one ends the text.
pub data Gap : Bytes → List Bytes → Bytes → Type 0 where
  last : {p s : Bytes} (x : Bytes) → s ≡ x ++ p → Gap p [] s
  next :
      {p q s : Bytes} {ps : List Bytes} (x t : Bytes)
      → s ≡ x ++ (p ++ t)
      → Gap q ps t
      → Gap p (q ∷ ps) s

abbrev pub Fits : List Bytes → Bytes → Type 0
Fits [] t = t ≡ []
Fits (p ∷ ps) t = Gap p ps t
