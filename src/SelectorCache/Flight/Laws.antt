-- ===== src/SelectorCache/Flight/Laws.antt =====
-- One body at a time runs for a key, and whoever waits gets the result of a body for the same key.
use mathlib.Core.Path.{subst}
use c2j.Prelude.{
  ℕ, String, Bool, true, false, Option, none, some, List, [], ◌∷◌, ◌≡◌, ◌≢◌, refl, sym, ap, ◌∙◌,
  arith,
}
use c2j.Prelude.{nat_beq, nat_beq_iff, string_eq, ◌==◌, if◌then◌else◌}
use c2j.SelectorCache.Flight.{
  Phase, calling, running, closed, waiting, returned, Cache, result_of, assign_phase, assign_call,
  new_cache, go_to, enter, wake, turn_at, turn, run,
}

-- A caller that made the call in flight
abbrev pub leads : {R : Type 0} → Phase R → Bool
leads calling = false
leads running = true
leads (closed r) = true
leads (waiting j) = false
leads (returned r) = false

abbrev pub waits_for : {R : Type 0} → Phase R → Option ℕ
waits_for (waiting j) = some j
waits_for _ = none

pub some_same : (a b : ℕ) → ◌≡◌ {A = Option ℕ} (some a) (some b) → a ≡ b
some_same a b h = ground arith

not_itself : (k i : ℕ) → nat_beq k i ≡ false → k ≢ i
not_itself k i o e = ground arith

-- A map after an assignment: the new value at the key, the old ones elsewhere
pub assigned_call :
    (key k : String) (c : Option ℕ) (calls : String → Option ℕ) (P : Option ℕ → Type 0)
    → (k ≡ key → P c)
    → P (calls k)
    → P (assign_call key c calls k)
assigned_call key k c calls P new old = by_key (k == key) refl
  where
    by_key : (b : Bool) → (k == key) ≡ b → P (if b then c else calls k)
    by_key true e = new ((string_eq.beq_iff k key).0 e)
    by_key false e = old

assign_call_same :
    (key : String) (c : Option ℕ) (calls : String → Option ℕ) → assign_call key c calls key ≡ c
assign_call_same key c calls = ground (arith, (string_eq.beq_iff key key).1 refl)

assign_call_other :
    (key k : String) (c : Option ℕ) (calls : String → Option ℕ)
    → k ≢ key
    → assign_call key c calls k ≡ calls k
assign_call_other key k c calls n =
    assigned_call key k c calls (λ d. d ≡ calls k) (λ e. absurd (n e)) refl

pub assigned :
    {R : Type 0} (P : ℕ → Phase R → Type 0) (i : ℕ) (p : Phase R) (phases : ℕ → Phase R)
    → P i p
    → ((k : ℕ) → nat_beq k i ≡ false → P k (phases k))
    → (k : ℕ) → P k (assign_phase i p phases k)
assigned P i p phases new old k = by_caller (nat_beq k i) refl
  where
    by_caller : (b : Bool) → nat_beq k i ≡ b → P k (if b then p else phases k)
    by_caller true e = subst (λ n. P n p) (sym ((nat_beq_iff k i).0 e)) new
    by_caller false e = old k e

module _ {R : Type 0} (keys : ℕ → String) (body : ℕ → R) where
  -- The result of some body for the key of the caller
  abbrev pub Earned : ℕ → R → Type 0
  Earned i r = (j : ℕ) × (keys j ≡ keys i) × (r ≡ body j)

  -- The map has exactly the callers that lead; who waits, waits for its own key.
  pub record IsTracked (s : Cache R) : Type 0 where
    pub leader : (i : ℕ) → leads (s.phase i) ≡ true → s.in_flight (keys i) ≡ some i
    pub in_map : (key : String) (i : ℕ) → s.in_flight key ≡ some i → keys i ≡ key
    pub same_key : (i j : ℕ) → waits_for (s.phase i) ≡ some j → keys j ≡ keys i
    pub earned : (i : ℕ) (r : R) → result_of (s.phase i) ≡ some r → Earned i r

  -- Two leaders of a key are one.
  exclusive :
      (s : Cache R)
      → IsTracked s
      → (i j : ℕ) → leads (s.phase i) ≡ true
      → leads (s.phase j) ≡ true
      → keys i ≡ keys j
      → i ≡ j
  exclusive s v i j p q e = some_same i j (sym (v.leader i p) ∙ ap s.in_flight e ∙ v.leader j q)

  go_to-IsTracked :
      (s : Cache R) (i : ℕ) (p : Phase R)
      → IsTracked s
      → (leads p ≡ true → leads (s.phase i) ≡ true)
      → ((j : ℕ) → waits_for p ≡ some j → keys j ≡ keys i)
      → ((r : R) → result_of p ≡ some r → Earned i r)
      → IsTracked (go_to keys body s i p)
  go_to-IsTracked s i p v l w e = record {
    leader =
        assigned (λ k q. leads q ≡ true → s.in_flight (keys k) ≡ some k) i p s.phase
          (λ h. v.leader i (l h)) (λ k o. v.leader k);
    in_map = v.in_map;
    same_key =
        assigned (λ k q. (j : ℕ) → waits_for q ≡ some j → keys j ≡ keys k) i p s.phase w
          (λ k o. v.same_key k);
    earned =
        assigned (λ k q. (r : R) → result_of q ≡ some r → Earned k r) i p s.phase e
          (λ k o. v.earned k);
  }

  -- A new call
  start-IsTracked :
      (s : Cache R) (i : ℕ)
      → IsTracked s
      → s.in_flight (keys i) ≡ none
      → IsTracked (enter keys body s i none)
  start-IsTracked s i v free = record {
    leader =
        assigned
          (λ k q. leads q ≡ true → assign_call (keys i) (some i) s.in_flight (keys k) ≡ some k) i
          running s.phase (λ h. assign_call_same (keys i) (some i) s.in_flight)
          (λ k o h.
            assign_call_other (keys i) (keys k) (some i) s.in_flight
              (λ e. cc (v.leader k h, free, ap s.in_flight e))
            ∙ v.leader k h);
    in_map = λ key k h.
        assigned_call (keys i) key (some i) s.in_flight (λ c. c ≡ some k → keys k ≡ key)
          (λ e g. ap keys (sym (some_same i k g)) ∙ sym e) (v.in_map key k) h;
    same_key =
        assigned (λ k q. (j : ℕ) → waits_for q ≡ some j → keys j ≡ keys k) i running s.phase
          (λ j h. cc) (λ k o. v.same_key k);
    earned =
        assigned (λ k q. (r : R) → result_of q ≡ some r → Earned k r) i running s.phase (λ r h. cc)
          (λ k o. v.earned k);
  }

  -- The deletion of a call
  end-IsTracked :
      (s : Cache R) (i : ℕ) (r : R)
      → IsTracked s
      → s.phase i ≡ closed r
      → IsTracked (turn_at keys body s i (closed r))
  end-IsTracked s i r v at = record {
    leader =
        assigned (λ k q. leads q ≡ true → assign_call (keys i) none s.in_flight (keys k) ≡ some k) i
          (returned r) s.phase (λ h. cc)
          (λ k o h.
            assign_call_other (keys i) (keys k) none s.in_flight
              (λ e. not_itself k i o (exclusive s v k i h (ap leads at) e))
            ∙ v.leader k h);
    in_map = λ key k h.
        assigned_call (keys i) key none s.in_flight (λ c. c ≡ some k → keys k ≡ key) (λ e g. cc)
          (v.in_map key k) h;
    same_key =
        assigned (λ k q. (j : ℕ) → waits_for q ≡ some j → keys j ≡ keys k) i (returned r) s.phase
          (λ j h. cc) (λ k o. v.same_key k);
    earned =
        assigned (λ k q. (r : R) → result_of q ≡ some r → Earned k r) i (returned r) s.phase
          (λ r' h. v.earned i r' (ap result_of at ∙ h)) (λ k o. v.earned k);
  }

  turn_at-IsTracked :
      (s : Cache R) (i : ℕ) (p : Phase R)
      → IsTracked s
      → s.phase i ≡ p
      → IsTracked (turn_at keys body s i p)
  turn_at-IsTracked s i calling v at = entered (s.in_flight (keys i)) refl
    where
      entered : (c : Option ℕ) → s.in_flight (keys i) ≡ c → IsTracked (enter keys body s i c)
      entered none e = start-IsTracked s i v e
      entered (some j) e =
          go_to-IsTracked s i (waiting j) v (λ h. cc)
            (λ k h. ap keys (sym (some_same j k h)) ∙ v.in_map (keys i) j e) (λ r h. cc)
  turn_at-IsTracked s i running v at =
      go_to-IsTracked s i (closed (body i)) v (λ h. ap leads at) (λ j h. cc)
        (λ r h. (i, refl, sym (same_result (body i) r h)))
    where
      same_result : (a b : R) → ◌≡◌ {A = Option R} (some a) (some b) → a ≡ b
      same_result a b h = ground arith
  turn_at-IsTracked s i (closed r) v at = end-IsTracked s i r v at
  turn_at-IsTracked s i (waiting j) v at = woken (result_of (s.phase j)) refl
    where
      same_result : (a b : R) → ◌≡◌ {A = Option R} (some a) (some b) → a ≡ b
      same_result a b h = ground arith

      woken : (o : Option R) → result_of (s.phase j) ≡ o → IsTracked (wake keys body s i o)
      woken none e = v
      woken (some r) e =
          let (k, same, made) = v.earned j r e in
          go_to-IsTracked s i (returned r) v (λ h. cc) (λ k h. cc)
            (λ r' h. (k, same ∙ v.same_key i j (ap waits_for at), sym (same_result r r' h) ∙ made))
  turn_at-IsTracked s i (returned r) v at = v

  run-IsTracked : (s : Cache R) (order : List ℕ) → IsTracked s → IsTracked (run keys body s order)
  unfolding run turn
  run-IsTracked s [] v = v
  run-IsTracked s (i ∷ order) v =
      run-IsTracked (turn keys body s i) order (turn_at-IsTracked s i (s.phase i) v refl)

  new_cache-IsTracked : IsTracked new_cache
  new_cache-IsTracked = record {
    leader = λ i h. cc;
    in_map = λ key i h. cc;
    same_key = λ i j h. cc;
    earned = λ i r h. cc;
  }

  -- Whatever turns the callers take: two callers for one key that run their bodies, or have run them
  -- and not yet deleted the call, are one and the same.
  pub run_exclusive :
      (order : List ℕ) (i j : ℕ)
      → leads ((run keys body new_cache order).phase i) ≡ true
      → leads ((run keys body new_cache order).phase j) ≡ true
      → keys i ≡ keys j
      → i ≡ j
  run_exclusive order i j p q e =
      exclusive (run keys body new_cache order) (run-IsTracked new_cache order new_cache-IsTracked)
        i j p q e

  -- Whatever turns the callers take: what a caller returns is the result of the body of a caller for
  -- the same key.
  pub run-Earned :
      (order : List ℕ) (i : ℕ) (r : R)
      → (run keys body new_cache order).phase i ≡ returned r
      → Earned i r
  run-Earned order i r h =
      (run-IsTracked new_cache order new_cache-IsTracked).earned i r (ap result_of h)
