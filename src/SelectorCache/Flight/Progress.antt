-- ===== src/SelectorCache/Flight/Progress.antt =====
-- Nobody waits for ever: who is waited for has a call that ends.
use mathlib.Core.Path.{subst}
use c2j.Prelude.{
  ℕ, String, Bool, true, false, Option, none, some, List, [], ◌∷◌, ◌≡◌, ◌≢◌, refl, sym, ap, ◌∙◌,
  arith,
}
use c2j.Prelude.{string_eq}
use c2j.SelectorCache.Flight.{
  Phase, calling, running, closed, waiting, returned, Cache, result_of, assign_phase, assign_call,
  new_cache, enter, wake, turn_at, turn, run,
}
use c2j.SelectorCache.Flight.Laws.{assigned, assigned_call, some_same, waits_for}

-- A caller that has made a call, or has returned
abbrev pub past : {R : Type 0} → Phase R → Bool
past calling = false
past running = true
past (closed r) = true
past (waiting j) = false
past (returned r) = true

module _ {R : Type 0} (keys : ℕ → String) (body : ℕ → R) where
  record IsAwake (s : Cache R) : Type 0 where
    waits : (k j : ℕ) → waits_for (s.phase k) ≡ some j → past (s.phase j) ≡ true
    present : (key : String) (j : ℕ) → s.in_flight key ≡ some j → past (s.phase j) ≡ true

  grows :
      (s : Cache R) (i : ℕ) (p : Phase R)
      → (past (s.phase i) ≡ true → past p ≡ true)
      → (k : ℕ) → past (s.phase k) ≡ true
      → past (assign_phase i p s.phase k) ≡ true
  grows s i p h =
      assigned (λ k q. past (s.phase k) ≡ true → past q ≡ true) i p s.phase h (λ k o past_k. past_k)

  -- A turn that goes on from a phase, and what it does to the map
  moved-IsAwake :
      (s : Cache R) (i : ℕ) (p : Phase R) (calls : String → Option ℕ)
      → IsAwake s
      → (past (s.phase i) ≡ true → past p ≡ true)
      → ((j : ℕ) → waits_for p ≡ some j → past (s.phase j) ≡ true)
      → ((key : String) (j : ℕ) → calls key ≡ some j → past (assign_phase i p s.phase j) ≡ true)
      → IsAwake (record { in_flight = calls; phase = assign_phase i p s.phase })
  moved-IsAwake s i p calls v g w c = record {
    waits =
        assigned (λ k q. (j : ℕ) → waits_for q ≡ some j → past (assign_phase i p s.phase j) ≡ true)
          i p s.phase (λ j h. grows s i p g j (w j h)) (λ k o j h. grows s i p g j (v.waits k j h));
    present = c;
  }

  turn_at-IsAwake :
      (s : Cache R) (i : ℕ) (p : Phase R)
      → IsAwake s
      → s.phase i ≡ p
      → IsAwake (turn_at keys body s i p)
  turn_at-IsAwake s i calling v at = entered (s.in_flight (keys i)) refl
    where
      entered : (c : Option ℕ) → s.in_flight (keys i) ≡ c → IsAwake (enter keys body s i c)
      entered none e =
          moved-IsAwake s i running (assign_call (keys i) (some i) s.in_flight) v (λ h. refl)
            (λ j h. cc)
            (λ key j.
              assigned_call (keys i) key (some i) s.in_flight
                (λ c. c ≡ some j → past (assign_phase i running s.phase j) ≡ true)
                (λ same h.
                  assigned (λ k q. k ≡ i → past q ≡ true) i running s.phase (λ h. refl)
                    (λ k o h. absurd (ground arith)) j (sym (some_same i j h)))
                (λ h. grows s i running (λ h. refl) j (v.present key j h)))
      entered (some j) e =
          moved-IsAwake s i (waiting j) s.in_flight v (λ h. absurd (cc (h, at)))
            (λ k h. subst (λ n. past (s.phase n) ≡ true) (some_same j k h) (v.present (keys i) j e))
            (λ key k h. grows s i (waiting j) (λ h. absurd (cc (h, at))) k (v.present key k h))
  turn_at-IsAwake s i running v at =
      moved-IsAwake s i (closed (body i)) s.in_flight v (λ h. refl) (λ j h. cc)
        (λ key k h. grows s i (closed (body i)) (λ h. refl) k (v.present key k h))
  turn_at-IsAwake s i (closed r) v at =
      moved-IsAwake s i (returned r) (assign_call (keys i) none s.in_flight) v (λ h. refl)
        (λ j h. cc)
        (λ key j.
          assigned_call (keys i) key none s.in_flight
            (λ c. c ≡ some j → past (assign_phase i (returned r) s.phase j) ≡ true) (λ same h. cc)
            (λ h. grows s i (returned r) (λ h. refl) j (v.present key j h)))
  turn_at-IsAwake s i (waiting j) v at = woken (result_of (s.phase j))
    where
      woken : (o : Option R) → IsAwake (wake keys body s i o)
      woken none = v
      woken (some r) =
          moved-IsAwake s i (returned r) s.in_flight v (λ h. refl) (λ j h. cc)
            (λ key k h. grows s i (returned r) (λ h. refl) k (v.present key k h))
  turn_at-IsAwake s i (returned r) v at = v

  run-IsAwake : (s : Cache R) (order : List ℕ) → IsAwake s → IsAwake (run keys body s order)
  unfolding run turn
  run-IsAwake s [] v = v
  run-IsAwake s (i ∷ order) v =
      run-IsAwake (turn keys body s i) order (turn_at-IsAwake s i (s.phase i) v refl)

assign_phase_same :
    {R : Type 0} (i : ℕ) (p : Phase R) (phases : ℕ → Phase R) → assign_phase i p phases i ≡ p
assign_phase_same i p phases =
    assigned (λ k q. k ≡ i → q ≡ p) i p phases (λ e. refl) (λ k o e. absurd (ground arith)) i refl

assign_phase_other :
    {R : Type 0} (i k : ℕ) (p : Phase R) (phases : ℕ → Phase R)
    → k ≢ i
    → assign_phase i p phases k ≡ phases k
assign_phase_other i k p phases n =
    assigned (λ k q. k ≢ i → q ≡ phases k) i p phases (λ n. absurd (n refl)) (λ k o n. refl) k n

module _ {R : Type 0} (keys : ℕ → String) (body : ℕ → R) where
  -- A turn of a caller that made a call, or has returned, leaves a result.
  turn-result_of :
      (s : Cache R) (j : ℕ) (p : Phase R)
      → s.phase j ≡ p
      → past p ≡ true
      → (r : R) × (result_of ((turn_at keys body s j p).phase j) ≡ some r)
  turn-result_of s j calling at h = cc
  turn-result_of s j running at h =
      (body j, ap result_of (assign_phase_same j (closed (body j)) s.phase))
  turn-result_of s j (closed r) at h = (r, ap result_of (assign_phase_same j (returned r) s.phase))
  turn-result_of s j (waiting k) at h = cc
  turn-result_of s j (returned r) at h = (r, ap result_of at)

  turn_others :
      (s : Cache R) (j k : ℕ) (p : Phase R)
      → k ≢ j
      → past p ≡ true
      → (turn_at keys body s j p).phase k ≡ s.phase k
  turn_others s j k calling n h = cc
  turn_others s j k running n h = assign_phase_other j k (closed (body j)) s.phase n
  turn_others s j k (closed r) n h = assign_phase_other j k (returned r) s.phase n
  turn_others s j k (waiting l) n h = cc
  turn_others s j k (returned r) n h = refl

  -- More turns, behind which the caller has returned
  Returns : Cache R → ℕ → Type 0
  Returns s i = (more : List ℕ) × (r : R) × ((run keys body s more).phase i ≡ returned r)

  waiter-Returns :
      (s : Cache R) (i j : ℕ) → IsAwake keys body s → s.phase i ≡ waiting j → Returns s i
  unfolding Returns run turn
  waiter-Returns s i j v at =
      let past_j = v.waits i j (ap waits_for at) in
      let apart : i ≢ j = λ e. cc (past_j, at, ap s.phase e) in
      let (r, e) = turn-result_of s j (s.phase j) refl past_j in
      let s1 = turn_at keys body s j (s.phase j) in
      let at1 : s1.phase i ≡ waiting j = turn_others s j i (s.phase j) apart past_j ∙ at in
      (
        j ∷ i ∷ [],
        r,
        ap (λ p. (turn_at keys body s1 i p).phase i) at1
            ∙ ap (λ o. (wake keys body s1 i o).phase i) e
            ∙ assign_phase_same i (returned r) s1.phase,
      )

  closed-Returns : (s : Cache R) (i : ℕ) (r : R) → s.phase i ≡ closed r → Returns s i
  unfolding Returns run turn
  closed-Returns s i r at = (
    i ∷ [],
    r,
    ap (λ p. (turn_at keys body s i p).phase i) at ∙ assign_phase_same i (returned r) s.phase,
  )

  -- A turn of the caller itself is one turn more.
  later-Returns : (s t : Cache R) (i : ℕ) → turn keys body s i ≡ t → Returns t i → Returns s i
  unfolding Returns run
  later-Returns s t i e (more, r, h) = (i ∷ more, r, ap (λ c. (run keys body c more).phase i) e ∙ h)

  runner-Returns : (s : Cache R) (i : ℕ) → s.phase i ≡ running → Returns s i
  unfolding turn
  runner-Returns s i at =
      later-Returns s (turn_at keys body s i running) i (ap (turn_at keys body s i) at) (
        closed-Returns (turn_at keys body s i running) i (body i)
          (assign_phase_same i (closed (body i)) s.phase))

  caller-Returns : (s : Cache R) (i : ℕ) → IsAwake keys body s → s.phase i ≡ calling → Returns s i
  unfolding turn
  caller-Returns s i v at =
      later-Returns s (turn_at keys body s i calling) i (ap (turn_at keys body s i) at)
        (entered (s.in_flight (keys i)) (turn_at-IsAwake keys body s i calling v at))
    where
      entered :
          (c : Option ℕ)
          → IsAwake keys body (enter keys body s i c)
          → Returns (enter keys body s i c) i
      entered none w =
          runner-Returns (enter keys body s i none) i (assign_phase_same i running s.phase)
      entered (some j) w =
          waiter-Returns (enter keys body s i (some j)) i j w
            (assign_phase_same i (waiting j) s.phase)

  from_phase :
      (s : Cache R) (i : ℕ) (p : Phase R) → IsAwake keys body s → s.phase i ≡ p → Returns s i
  from_phase s i calling v at = caller-Returns s i v at
  from_phase s i running v at = runner-Returns s i at
  from_phase s i (closed r) v at = closed-Returns s i r at
  from_phase s i (waiting j) v at = waiter-Returns s i j v at
  from_phase s i (returned r) v at = unfold Returns run in ([], r, at)

  new_cache-IsAwake : IsAwake keys body new_cache
  new_cache-IsAwake = record { waits = λ k j h. cc; present = λ key j h. cc }

  -- Whatever turns the callers have taken, and whoever waits for whom: there are turns that they may
  -- go on with behind which the caller has returned.
  pub run-Returns :
      (order : List ℕ) (i : ℕ)
      → (more : List ℕ) × (r : R) × ((run keys body (run keys body new_cache order) more).phase i
          ≡ returned r)
  run-Returns order i =
      let s = run keys body new_cache order in
      unfold Returns in
      from_phase s i (s.phase i) (run-IsAwake keys body new_cache order new_cache-IsAwake) refl
