-- ===== src/Machine/Catch/Validation/Tests.antt =====
-- The theorems on validated catch clauses at the clauses of a small machine.
use c2j.Prelude.{ℕ, suc, String, true, none, some, List, [], ◌∷◌, ◌≡◌, ◌≢◌, refl}
use c2j.Prelude.{string_eq, contains, lookup, ok, err}
use c2j.Machine.Failure.{CatchClause}
use c2j.Machine.Catch.{
  named, Renderer, no_decision, route_to, clause_label, handle, try_clause, try_clauses,
  evaluate_catch_clauses,
}
use c2j.Machine.Catch.Validation.{
  unknown_kind, validation_failure, valid_shape, valid_failure_kind, state_names, check_route,
  check_outputs, check_kind, check_fail, validate_clause, validate_from, validate_catch_clauses,
}
use c2j.Machine.Catch.Validation.Laws.{validated_route}
use c2j.Machine.Catch.Validation.Outcomes.{NoneHolds, validated_none}

-- A context counts the failures that it was given; a text is itself.
abbrev texts : Renderer ℕ String String String String
texts = record {
  with_failure = λ c f. suc c;
  evaluate = λ c when. ok (string_eq.beq when "true");
  resolve_map = λ c entries. ok entries;
  interpolate = λ c t. ok t;
  interpolate_text = λ c t. ok t;
  text = λ v. v;
}

abbrev trim : String → String
trim s = s

abbrev routes : List (CatchClause String)
routes =
    record {
      id = "a";
      when = "false";
      to = "";
      payload = [];
      continue_outputs = some [];
      fail = none;
    }
    ∷ record {
      id = "b";
      when = "true";
      to = "fix";
      payload = [];
      continue_outputs = none;
      fail = none;
    }
    ∷ []

abbrev states : List (String × ℕ)
states = ("build", 0) ∷ ("fix", 1) ∷ []

routes_are_valid : validate_catch_clauses texts trim routes 0 (some (state_names states)) ≡ ok tt
unfolding validate_catch_clauses validate_from validate_clause valid_shape check_route check_outputs
    check_fail state_names contains clause_label
routes_are_valid = refl

routed :
    evaluate_catch_clauses texts routes (some validation_failure) 0 true
    ≡ ok (route_to "b" "fix" [] validation_failure)
unfolding evaluate_catch_clauses try_clauses try_clause handle clause_label
routed = refl

validated_route_example : lookup "fix" states ≢ none
validated_route_example =
    validated_route texts trim states routes 0 0 (some validation_failure) true validation_failure
      "b" "fix" [] routes_are_valid routed

abbrev quiet : List (CatchClause String)
quiet =
    record {
      id = "a";
      when = "false";
      to = "";
      payload = [];
      continue_outputs = some [];
      fail = none;
    }
    ∷ []

quiet_is_valid : validate_catch_clauses texts trim quiet 0 none ≡ ok tt
unfolding validate_catch_clauses validate_from validate_clause valid_shape check_route check_outputs
    check_fail clause_label
quiet_is_valid = refl

passed_over : evaluate_catch_clauses texts quiet (some validation_failure) 0 true ≡ ok no_decision
unfolding evaluate_catch_clauses try_clauses try_clause clause_label
passed_over = refl

validated_none_example : NoneHolds texts trim 1 quiet
validated_none_example =
    validated_none texts trim none quiet 0 0 validation_failure true refl quiet_is_valid passed_over

abbrev misnamed : List (CatchClause String)
misnamed =
    record {
      id = "c";
      when = "true";
      to = "";
      payload = [];
      continue_outputs = none;
      fail = some (record { kind = "typo"; code = ""; message = ""; cause = none });
    }
    ∷ []

misnamed_is_refused :
    validate_catch_clauses texts trim misnamed 0 none ≡ err (unknown_kind (named "c") "typo")
unfolding validate_catch_clauses validate_from validate_clause valid_shape check_route check_outputs
    check_fail check_kind valid_failure_kind contains clause_label
misnamed_is_refused = refl
