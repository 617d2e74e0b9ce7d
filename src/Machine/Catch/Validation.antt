-- ===== src/Machine/Catch/Validation.antt =====
-- pkg/worker/compiler/catch_validation.go: `validateCatchClauses`, and `CatchClause.Validate` of
-- pkg/recipe/catch.go. `trim` is `strings.TrimSpace`. The set of the states' names is their list, and
-- `none` outside a state machine.
pub mod Laws
pub mod Outcomes
mod Tests
use c2j.Prelude.{
  ℕ, suc, String, Bool, true, false, not, ◌&&◌, ◌||◌, Option, none, some, List, [], ◌∷◌,
}
use c2j.Prelude.{
  string_eq, ◌==◌, contains, if◌then◌else◌, is_nil, Result, ok, err, ◌>>=◌, ◌>>◌, reject_if,
}
use c2j.Machine.Failure.{Map, RuntimeFailure, first, CatchClause, CatchFail}
use c2j.Machine.Catch.{Label, Renderer, clause_label, wrap, render_catch_failure}

pub data ValidationError (R : Type 0) : Type 0 where
  invalid_shape route_without_machine : Label → ValidationError R
  route_to_unknown unknown_kind : Label → String → ValidationError R
  when_invalid payload_invalid outputs_invalid kind_invalid fail_invalid :
      Label → R → ValidationError R

abbrev has_one : Bool → Bool → Bool → Bool
has_one true b c = not (b || c)
has_one false true c = not c
has_one false false c = c

abbrev pub present : {A : Type 0} → Option A → Bool
present none = false
present (some a) = true

-- `Validate`
unfoldable pub valid_shape : {T : Type 0} → (String → String) → CatchClause T → Bool
valid_shape trim c =
    has_one (not (trim c.to == "")) (present c.continue_outputs) (present c.fail)
    && not (not (is_nil c.payload) && trim c.to == "")

-- `validationFailure`
abbrev pub validation_failure : {V M : Type 0} → RuntimeFailure V M
validation_failure = first (record {
  kind = "unknown";
  code = "";
  message = "validation placeholder failure";
  retryable = false;
  node = record { id = "validation-node"; path = "validation/node"; node_type = "state"; op = "" };
  timing = none;
  material = none;
  attrs = none;
})

-- `validFailureKind`
unfoldable pub valid_failure_kind : String → Bool
valid_failure_kind kind =
    contains ("timeout" ∷ "task_error" ∷ "system_error" ∷ "cancellation" ∷ "unknown" ∷ []) kind

-- `stateNameSet`
unfoldable pub state_names : {S : Type 0} → List (String × S) → List String
state_names [] = []
state_names ((name, s) ∷ states) = name ∷ state_names states

-- `if _, err := e; err != nil`
abbrev pub no_error : {E A : Type 0} → Result E A → Result E (Unit {0})
no_error (ok a) = ok tt
no_error (err e) = err e

-- The tests on the target of a route
abbrev pub check_target :
    {R : Type 0} → Option (List String) → Label → String → Result (ValidationError R) (Unit {0})
check_target none label to = err (route_without_machine label)
check_target (some names) label to = reject_if (not (contains names to)) (route_to_unknown label to)

module _ {C V M T R : Type 0} (x : Renderer C V M T R) where
  -- The block on `clause.To`
  unfoldable pub check_route :
      Option (List String) → C → Label → CatchClause T → Result (ValidationError R) (Unit {0})
  check_route names c label clause =
      if clause.to == ""
      then ok tt
      else check_target names label clause.to
        >> no_error (wrap (payload_invalid label) (x.resolve_map c clause.payload))

  unfoldable pub check_outputs : C → Label → Option (Map T) → Result (ValidationError R) (Unit {0})
  check_outputs c label none = ok tt
  check_outputs c label (some outputs) =
      no_error (wrap (outputs_invalid label) (x.resolve_map c outputs))

  unfoldable pub check_kind : C → Label → String → Result (ValidationError R) (Unit {0})
  check_kind c label kind =
      if kind == ""
      then ok tt
      else wrap (kind_invalid label) (x.interpolate_text c kind) >>= λ v.
          reject_if (not (valid_failure_kind (x.text v))) (unknown_kind label (x.text v))

  unfoldable pub check_fail :
      C → Label → Option (CatchFail T) → Result (ValidationError R) (Unit {0})
  check_fail c label none = ok tt
  check_fail c label (some fail) =
      check_kind c label fail.kind
      >> no_error (wrap (fail_invalid label) (render_catch_failure x fail c validation_failure))

  module _ (trim : String → String) where
    -- The body of the loop
    unfoldable pub validate_clause :
        Option (List String) → C → ℕ → CatchClause T → Result (ValidationError R) (Unit {0})
    validate_clause names c i clause = do
      let label = clause_label i clause
      reject_if (not (valid_shape trim clause)) (invalid_shape label)
      no_error (wrap (when_invalid label) (x.evaluate c clause.when))
      check_route names c label clause
      check_outputs c label clause.continue_outputs
      check_fail c label clause.fail

    unfoldable pub validate_from :
        Option (List String) → C → ℕ → List (CatchClause T) → Result (ValidationError R) (Unit {0})
    validate_from names c i [] = ok tt
    validate_from names c i (clause ∷ clauses) =
        validate_clause names c i clause >> validate_from names c (suc i) clauses

    -- `validateCatchClauses`
    unfoldable pub validate_catch_clauses :
        List (CatchClause T) → C → Option (List String) → Result (ValidationError R) (Unit {0})
    validate_catch_clauses clauses c names =
        validate_from names (x.with_failure c validation_failure) 0 clauses
