-- ===== src/SelectorCache/Flight/Tests.antt =====
-- The theorems on callers of the cache at three callers of two keys.
use c2j.Prelude.{ℕ, ◌+◌, String, List, [], ◌∷◌, ◌≡◌, refl, string_eq, if◌then◌else◌, nat_beq}
use c2j.SelectorCache.Flight.{returned, new_cache, turn, run}
use c2j.SelectorCache.Flight.Progress.{run-Returns}
use c2j.SelectorCache.Flight.Laws.{Earned, run_exclusive, run-Earned}

-- The callers 0 and 1 ask for the same commit, the others for another.
abbrev keys : ℕ → String
keys i = if nat_beq i 0 then "aa" else if nat_beq i 1 then "aa" else "bb"

abbrev body : ℕ → ℕ
body i = 10 + i

-- Caller 1 comes while the body of caller 0 runs, and waits for it.
abbrev order : List ℕ
order = 0 ∷ 1 ∷ 2 ∷ 1 ∷ 0 ∷ 1 ∷ []

shares : (run keys body new_cache order).phase 1 ≡ returned 10
unfolding run turn
shares = refl

run_exclusive_example : ◌≡◌ {A = ℕ} 0 0
unfolding run turn
run_exclusive_example = run_exclusive keys body order 0 0 refl refl refl

run-Earned_example : Earned keys body 1 10
run-Earned_example = run-Earned keys body order 1 10 shares

-- Caller 1 waits while the body of caller 0 runs.
run-Returns_example :
    (more : List ℕ) × (r : ℕ) × ((run keys body (run keys body new_cache (0 ∷ 1 ∷ [])) more).phase 1
      ≡ returned r)
run-Returns_example = run-Returns keys body (0 ∷ 1 ∷ []) 1
