-- ===== src/Machine/Catch.antt =====
-- pkg/worker/compiler/failure.go: which catch clause handles a failure, and how.
-- CEL and templates are the parameter `Renderer`; a clone is the value itself. The logger is left
-- out. `newRecipeFailureError` of a decision to fail is given by the decision's failure.
pub mod Laws
pub mod First
pub mod Validation
use c2j.Prelude.{ℕ, suc, String, Bool, true, false, not, ◌||◌, Option, none, some, List, [], ◌∷◌}
use c2j.Prelude.{string_eq, ◌==◌, if◌then◌else◌, is_nil, Result, ok, err, ◌>>=◌, ◌>>◌, reject_if}
use c2j.Machine.Failure.{Map, RuntimeFailure, Report, caused, CatchClause, CatchFail, report}

-- `catchClauseLabel`
pub data Label : Type 0 where
  named : String → Label
  numbered : ℕ → Label

pub data CatchError (R : Type 0) : Type 0 where
  when_failed : Label → R → CatchError R
  route_outside_machine : Label → CatchError R
  payload_failed : Label → R → CatchError R
  outputs_failed : Label → R → CatchError R
  fail_failed : Label → R → CatchError R

-- A resolution context `C`: `with_failure` is `WithFailure`, `evaluate` is `EvaluateCEL`,
-- `resolve_map` is `ResolveMap`, `interpolate` and `interpolate_text` are `ResolveValueWithMode` of a
-- value and of a string, and `text` is the string of a value, or "" where it is no string.
pub record Renderer (C V M T R : Type 0) : Type 0 where
  pub with_failure : C → RuntimeFailure V M → C
  pub evaluate : C → String → Result R Bool
  pub resolve_map : C → Map T → Result R (Map V)
  pub interpolate : C → T → Result R V
  pub interpolate_text : C → String → Result R V
  pub text : V → String

pub data CatchDecision (V M : Type 0) : Type 0 where
  no_decision : CatchDecision V M
  route_to : String → String → Map V → RuntimeFailure V M → CatchDecision V M
  continue_with : String → Map V → RuntimeFailure V M → CatchDecision V M
  fail_with : String → RuntimeFailure V M → CatchDecision V M

unfoldable pub clause_label : {T : Type 0} → ℕ → CatchClause T → Label
clause_label i c = if c.id == "" then numbered i else named c.id

-- `if err != nil { return ..., fmt.Errorf("...: %w", err) }`
abbrev pub wrap : {R E A : Type 0} → (R → E) → Result R A → Result E A
wrap f (ok a) = ok a
wrap f (err e) = err (f e)

module _ {C V M T R : Type 0} (x : Renderer C V M T R) where
  -- A field of `fail`, or the field of the original failure.
  unfoldable pub render_field : C → String → String → Result R String
  render_field c field old =
      if field == "" then ok old else (x.interpolate_text c field >>= λ v. ok (x.text v))

  unfoldable pub render_cause : C → Option T → Result R (Option (Map V))
  render_cause c none = ok none
  render_cause c (some t) = x.interpolate c t >>= λ v. ok (some (("catch_cause", v) ∷ []))

  -- `renderCatchFailure`
  unfoldable pub render_catch_failure :
      CatchFail T → C → RuntimeFailure V M → Result R (RuntimeFailure V M)
  render_catch_failure fail c original = do
    kind ← render_field c fail.kind (report original).kind
    code ← render_field c fail.code (report original).code
    message ← render_field c fail.message (report original).message
    attrs ← render_cause c fail.cause
    ok (
        caused
          (record {
            kind = kind;
            code = code;
            message = message;
            retryable = (report original).retryable;
            node = (report original).node;
            timing = none;
            material = none;
            attrs = attrs;
          })
          original)

  -- The body of the loop behind the test of `to`: continue, fail, or look at the next clause.
  unfoldable pub handle_here :
      C
      → RuntimeFailure V M
      → Label
      → CatchClause T
      → Result (CatchError R) (Option (CatchDecision V M))
  handle_here c f label clause = elim clause.continue_outputs [
    | some outputs ↦ wrap (outputs_failed label) (x.resolve_map c outputs) >>= λ rendered.
        ok (some (continue_with clause.id rendered f))
    | none ↦ elim clause.fail [
      | some fail ↦ wrap (fail_failed label) (render_catch_failure fail c f) >>= λ rewritten.
          ok (some (fail_with clause.id rewritten))
      | none ↦ ok none
    ]
  ]

  unfoldable pub handle :
      Bool
      → C
      → RuntimeFailure V M
      → Label
      → CatchClause T
      → Result (CatchError R) (Option (CatchDecision V M))
  handle allow_route c f label clause =
      if clause.to == ""
      then handle_here c f label clause
      else (reject_if (not allow_route) (route_outside_machine label)
          >> (wrap (payload_failed label) (x.resolve_map c clause.payload) >>= λ payload.
              ok (some (route_to clause.id clause.to payload f))))

  -- The body of the loop: `none` goes on to the next clause.
  unfoldable pub try_clause :
      Bool
      → C
      → RuntimeFailure V M
      → ℕ
      → CatchClause T
      → Result (CatchError R) (Option (CatchDecision V M))
  try_clause allow_route c f i clause =
      wrap (when_failed (clause_label i clause)) (x.evaluate c clause.when) >>= λ matches.
      if matches then handle allow_route c f (clause_label i clause) clause else ok none

  unfoldable pub try_clauses :
      Bool
      → C
      → RuntimeFailure V M
      → ℕ
      → List (CatchClause T)
      → Result (CatchError R) (CatchDecision V M)
  try_clauses allow_route c f i [] = ok no_decision
  try_clauses allow_route c f i (clause ∷ clauses) =
      try_clause allow_route c f i clause >>= λ decision. elim decision [
        | some d ↦ ok d
        | none ↦ try_clauses allow_route c f (suc i) clauses
      ]

  -- `evaluateCatchClauses`
  unfoldable pub evaluate_catch_clauses :
      List (CatchClause T)
      → Option (RuntimeFailure V M)
      → C
      → Bool
      → Result (CatchError R) (CatchDecision V M)
  evaluate_catch_clauses clauses none c allow_route = ok no_decision
  evaluate_catch_clauses clauses (some f) c allow_route =
      try_clauses allow_route (x.with_failure c f) f 0 clauses
