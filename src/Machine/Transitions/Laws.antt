-- ===== src/Machine/Transitions/Laws.antt =====
-- The transition that evaluateTransitionsWithContext takes, described without its loop.
use c2j.Prelude.{ℕ, suc, String, Bool, true, false, List, [], ◌∷◌}
use c2j.Prelude.{◌≡◌, refl, ◌↔◌, ◌⊎◌, inl, inr, arith, Result, ok, err, ◌>>=◌}
use c2j.Machine.Failure.{Map, Transition}
use c2j.Machine.Catch.{wrap}
use c2j.Machine.Transitions.{
  Conditions, TransitionDecision, new_transition_data, no_transition, render_transition_payload,
  take, evaluate_from, evaluate_transitions, condition_failed,
}

-- The loop goes on where the condition is false.
holds_or_goes_on :
    {R E D : Type 0} (wrong : R → E) (m : Result R Bool) (left right : Result E D) (d : D)
    → (wrap wrong m >>= λ b. elim b [ true ↦ left | false ↦ right ]) ≡ ok d
    → ((m ≡ ok true) × (left ≡ ok d)) ⊎ ((m ≡ ok false) × (right ≡ ok d))
holds_or_goes_on wrong (err e) left right d h = cc
holds_or_goes_on wrong (ok true) left right d h = inl (refl, h)
holds_or_goes_on wrong (ok false) left right d h = inr (refl, h)

module _ {W V T R : Type 0} (M : Type 0) (x : Conditions W V T R) where
  -- `Taken w s t d`: the decision to take `t` from `s`, with its rendered payload.
  pub record Taken (w : W) (s : String) (t : Transition T) (d : TransitionDecision V M)
      : Type 0 where
    pub holds : x.holds w s t.to t.when ≡ ok true
    pub payload : Map V
    pub rendered : render_transition_payload M x w t s ≡ ok payload
    pub decided : d ≡ record { to = t.to; transition = new_transition_data s t.to payload }

  -- The first transition whose condition holds, behind those whose condition is false.
  pub data FirstTaken (w : W) (s : String) (d : TransitionDecision V M)
      : List (Transition T) → Type 0 where
    taken :
        {t : Transition T} {ts : List (Transition T)} → Taken w s t d → FirstTaken w s d (t ∷ ts)
    passed :
        {t : Transition T} {ts : List (Transition T)}
        → x.holds w s t.to t.when ≡ ok false
        → FirstTaken w s d ts
        → FirstTaken w s d (t ∷ ts)

  pub data NoneTaken (w : W) (s : String) : List (Transition T) → Type 0 where
    all_passed : NoneTaken w s []
    also_passed :
        {t : Transition T} {ts : List (Transition T)}
        → x.holds w s t.to t.when ≡ ok false
        → NoneTaken w s ts
        → NoneTaken w s (t ∷ ts)

  take-Taken :
      (w : W) (s : String) (i : ℕ) (t : Transition T) (d : TransitionDecision V M)
      → x.holds w s t.to t.when ≡ ok true
      → take M x w s i t ≡ ok d
      → Taken w s t d
  unfolding take
  take-Taken w s i t d e h = ground arith

  Taken-take :
      (w : W) (s : String) (i : ℕ) (t : Transition T) (d : TransitionDecision V M)
      → Taken w s t d
      → take M x w s i t ≡ ok d
  unfolding take
  Taken-take w s i t d k = rw (k.rendered, k.decided) refl

  from_sound :
      (w : W) (s : String) (i : ℕ) (ts : List (Transition T)) (d : TransitionDecision V M)
      → evaluate_from M x w s i ts ≡ ok d
      → ((d ≡ no_transition) × NoneTaken w s ts) ⊎ FirstTaken w s d ts
  unfolding evaluate_from
  from_sound w s i [] d h = inl (cc, all_passed)
  from_sound w s i (t ∷ ts) d h =
      elim (holds_or_goes_on (λ r. condition_failed i r) (x.holds w s t.to t.when) _ _ d h) [
        | inl (e, h') ↦ inr (taken (take-Taken w s i t d e h'))
        | inr (e, h') ↦ elim (from_sound w s (suc i) ts d h') [
          | inl (n, all) ↦ inl (n, also_passed e all)
          | inr found ↦ inr (passed e found)
        ]
      ]

  from_found :
      (w : W) (s : String) (i : ℕ) (ts : List (Transition T)) (d : TransitionDecision V M)
      → FirstTaken w s d ts
      → evaluate_from M x w s i ts ≡ ok d
  unfolding evaluate_from
  from_found w s i [] d k = elim k [ ]
  from_found w s i (t ∷ ts) d (taken k) = rw k.holds (Taken-take w s i t d k)
  from_found w s i (t ∷ ts) d (passed e k) = rw e (from_found w s (suc i) ts d k)

  from_passed :
      (w : W) (s : String) (i : ℕ) (ts : List (Transition T))
      → NoneTaken w s ts
      → evaluate_from M x w s i ts ≡ ok no_transition
  unfolding evaluate_from
  from_passed w s i [] k = refl
  from_passed w s i (t ∷ ts) (also_passed e k) = rw e (from_passed w s (suc i) ts k)

  from_description :
      (w : W) (s : String) (ts : List (Transition T)) (d : TransitionDecision V M)
      → ((d ≡ no_transition) × NoneTaken w s ts) ⊎ FirstTaken w s d ts
      → evaluate_from M x w s 0 ts ≡ ok d
  from_description w s ts d (inl (e, k)) = rw e (from_passed w s 0 ts k)
  from_description w s ts d (inr k) = from_found w s 0 ts d k

  -- evaluateTransitionsWithContext takes the first transition whose condition holds, with its
  -- rendered payload, where the conditions before it are false; it takes none, with an empty target,
  -- exactly if every condition is false.
  pub evaluate_transitions_iff :
      (w : W) (s : String) (ts : List (Transition T)) (d : TransitionDecision V M)
      → (evaluate_transitions M x w s ts ≡ ok d)
        ↔ (((d ≡ no_transition) × NoneTaken w s ts) ⊎ FirstTaken w s d ts)
  unfolding evaluate_transitions
  evaluate_transitions_iff w s ts d = (from_sound w s 0 ts d, from_description w s ts d)
