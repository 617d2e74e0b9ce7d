-- ===== src/Machine/Transitions.antt =====
-- pkg/worker/compiler/statemachine_compiler.go: which transition leaves a state.
-- `holds` is `EvaluateCEL` in the context of `transitionSourceContext` for a source, a target and an
-- expression, and `render` is `ResolveMap` there. The observers of single evaluations are left out.
pub mod Laws
use c2j.Prelude.{ℕ, suc, String, Bool, true, false, Option, none, some, List, [], ◌∷◌}
use c2j.Prelude.{◌≡◌, refl, ◌↔◌, ◌⊎◌, inl, inr, arith}
use c2j.Prelude.{string_eq, ◌==◌, if◌then◌else◌, is_nil, Result, ok, err, ◌>>=◌, ◌>>◌, reject_if}
use c2j.Machine.Failure.{Map, RuntimeFailure, Transition, TransitionData}
use c2j.Machine.Catch.{wrap}

pub data TransitionError (R : Type 0) : Type 0 where
  condition_failed : ℕ → R → TransitionError R
  payload_failed : ℕ → R → TransitionError R
  initial_required : TransitionError R
  initial_failed : TransitionError R → TransitionError R
  initial_unmatched : TransitionError R

pub record Conditions (W V T R : Type 0) : Type 0 where
  pub holds : W → String → String → String → Result R Bool
  pub render : W → String → String → Map T → Result R (Map V)

-- `transitionDecision`: the target is "" if no transition was taken.
pub record TransitionDecision (V M : Type 0) : Type 0 where
  pub to : String
  pub transition : TransitionData V M

module _ {V M : Type 0} where
  -- `NewTransitionData`
  abbrev pub new_transition_data : String → String → Map V → TransitionData V M
  new_transition_data source to payload = record {
    source = source;
    to = to;
    payload = payload;
    failure = none;
  }

  abbrev pub no_transition : TransitionDecision V M
  no_transition = record { to = ""; transition = new_transition_data "" "" [] }

module _ {W V T R : Type 0} (M : Type 0) (x : Conditions W V T R) where
  -- `renderTransitionPayload`
  unfoldable pub render_transition_payload : W → Transition T → String → Result R (Map V)
  render_transition_payload w t state =
      if is_nil t.payload then ok [] else x.render w state t.to t.payload

  -- The body of the loop behind a condition that holds.
  unfoldable pub take :
      W → String → ℕ → Transition T → Result (TransitionError R) (TransitionDecision V M)
  take w state i t =
      wrap (λ r. payload_failed i r) (render_transition_payload w t state) >>= λ payload.
      ok (record { to = t.to; transition = new_transition_data state t.to payload })

  unfoldable pub evaluate_from :
      W → String → ℕ → List (Transition T) → Result (TransitionError R) (TransitionDecision V M)
  evaluate_from w state i [] = ok no_transition
  evaluate_from w state i (t ∷ ts) =
      wrap (λ r. condition_failed i r) (x.holds w state t.to t.when) >>= λ should_transition.
      elim should_transition [ true ↦ take w state i t | false ↦ evaluate_from w state (suc i) ts ]

  -- `evaluateTransitionsWithContext`
  unfoldable pub evaluate_transitions :
      W → String → List (Transition T) → Result (TransitionError R) (TransitionDecision V M)
  evaluate_transitions w state ts = evaluate_from w state 0 ts

  -- `evaluateInitialState`
  unfoldable pub evaluate_initial_state :
      W → List (Transition T) → Result (TransitionError R) (TransitionDecision V M)
  evaluate_initial_state w initial = do
    reject_if (is_nil initial) initial_required
    d ← wrap (λ e. initial_failed e) (evaluate_transitions w "" initial)
    reject_if (d.to == "") initial_unmatched
    ok d
