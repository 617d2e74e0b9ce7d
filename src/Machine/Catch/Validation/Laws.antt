-- ===== src/Machine/Catch/Validation/Laws.antt =====
-- What the validation of catch clauses promises to their evaluation.
use c2j.Prelude.{
  ℕ, suc, String, Bool, true, false, Option, none, some, List, [], ◌∷◌, ◌≡◌, ◌≢◌, ap, ◌∙◌, arith,
  inl, inr,
}
use c2j.Prelude.{string_eq, ◌==◌, contains, lookup, ok, Option-cases}
use c2j.Machine.Failure.{Map, RuntimeFailure, CatchClause}
use c2j.Machine.Catch.{
  Label, Renderer, route_to, clause_label, handle_here, handle, try_clause, try_clauses,
  evaluate_catch_clauses,
}
use c2j.Machine.Catch.Laws.{stops_or_goes_on}
use c2j.Machine.Catch.Validation.{
  valid_shape, state_names, check_target, check_route, validate_clause, validate_from,
  validate_catch_clauses,
}

-- A name of a state is found in the map.
lookup-state_names :
    {S : Type 0} (states : List (String × S)) (name : String)
    → contains (state_names states) name ≡ true
    → lookup name states ≢ none
unfolding state_names contains lookup
lookup-state_names [] name m h = cc
lookup-state_names ((k, s) ∷ states) name m h = ground (arith, lookup-state_names states name)

-- Where a route of a clause may lead
abbrev pub Allowed : Option (List String) → String → Type 0
Allowed none to = to ≡ ""
Allowed (some names) to = (to == "") ≡ false → contains names to ≡ true

module _ {C V M T R : Type 0} (x : Renderer C V M T R) (trim : String → String) where
  check_target_known :
      (names : List String) (l : Label) (to : String)
      → check_target {R = R} (some names) l to ≡ ok tt
      → contains names to ≡ true
  check_target_known names l to h = ground arith

  check_route_known :
      (names : List String) (c : C) (l : Label) (clause : CatchClause T)
      → check_route x (some names) c l clause ≡ ok tt
      → (clause.to == "") ≡ false
      → contains names clause.to ≡ true
  unfolding check_route
  check_route_known names c l clause h other = ground arith

  pub check_route_outside :
      (c : C) (l : Label) (clause : CatchClause T)
      → check_route x none c l clause ≡ ok tt
      → (clause.to == "") ≡ true
  unfolding check_route
  check_route_outside c l clause h = ground arith

  pub validate_clause-parts :
      (names : Option (List String)) (c : C) (i : ℕ) (clause : CatchClause T)
      → validate_clause x trim names c i clause ≡ ok tt
      → (valid_shape trim clause ≡ true)
        × (check_route x names c (clause_label i clause) clause ≡ ok tt)
  unfolding validate_clause
  validate_clause-parts names c i clause h = ground arith

  handle_here-route :
      (c : C) (f g : RuntimeFailure V M) (l : Label) (clause : CatchClause T) (id to : String)
      (payload : Map V)
      → handle_here x c f l clause ≢ ok (some (route_to id to payload g))
  unfolding handle_here
  handle_here-route c f g l clause id to payload h =
      ground (arith, Option-cases clause.continue_outputs, Option-cases clause.fail)

  handle-route :
      (allow : Bool) (c : C) (f g : RuntimeFailure V M) (l : Label) (clause : CatchClause T)
      (id to : String) (payload : Map V)
      → handle x allow c f l clause ≡ ok (some (route_to id to payload g))
      → ((clause.to == "") ≡ false) × (to ≡ clause.to)
  unfolding handle
  handle-route allow c f g l clause id to payload h =
      ground (arith, handle_here-route c f g l clause id to payload)

  try_clause-route :
      (allow : Bool) (c : C) (f g : RuntimeFailure V M) (i : ℕ) (clause : CatchClause T)
      (id to : String) (payload : Map V)
      → try_clause x allow c f i clause ≡ ok (some (route_to id to payload g))
      → ((clause.to == "") ≡ false) × (to ≡ clause.to)
  unfolding try_clause
  try_clause-route allow c f g i clause id to payload h =
      ground (arith, handle-route allow c f g (clause_label i clause) clause id to payload)

  pub validate_from-cons :
      (names : Option (List String)) (c : C) (i : ℕ) (clause : CatchClause T)
      (clauses : List (CatchClause T))
      → validate_from x trim names c i (clause ∷ clauses) ≡ ok tt
      → (validate_clause x trim names c i clause ≡ ok tt)
        × (validate_from x trim names c (suc i) clauses ≡ ok tt)
  unfolding validate_from
  validate_from-cons names c i clause clauses h = ground arith

  try_clauses-route :
      (names : List String) (c0 c : C) (allow : Bool) (f g : RuntimeFailure V M) (i : ℕ)
      (clauses : List (CatchClause T)) (id to : String) (payload : Map V)
      → validate_from x trim (some names) c0 i clauses ≡ ok tt
      → try_clauses x allow c f i clauses ≡ ok (route_to id to payload g)
      → contains names to ≡ true
  unfolding try_clauses
  try_clauses-route names c0 c allow f g i [] id to payload v h = cc
  try_clauses-route names c0 c allow f g i (clause ∷ clauses) id to payload v h =
      let (valid, rest) = validate_from-cons (some names) c0 i clause clauses v in
      elim (stops_or_goes_on (try_clause x allow c f i clause)
        (try_clauses x allow c f (suc i) clauses) (route_to id to payload g) h) [
          | inl here ↦
              let (known, same) = try_clause-route allow c f g i clause id to payload here in
              let (_, checked) = validate_clause-parts (some names) c0 i clause valid in
              ap (contains names) same
              ∙ check_route_known names c0 (clause_label i clause) clause checked known
          | inr (_, further) ↦
              try_clauses-route names c0 c allow f g (suc i) clauses id to payload rest further
        ]

  -- Where the clauses were validated for the states of a machine, the state that a clause routes to
  -- is in the map of the states, whatever the failure and the context of the evaluation are.
  pub validated_route :
      {S : Type 0} (states : List (String × S)) (clauses : List (CatchClause T)) (c0 c : C)
      (failure : Option (RuntimeFailure V M)) (allow : Bool) (g : RuntimeFailure V M)
      (id to : String) (payload : Map V)
      → validate_catch_clauses x trim clauses c0 (some (state_names states)) ≡ ok tt
      → evaluate_catch_clauses x clauses failure c allow ≡ ok (route_to id to payload g)
      → lookup to states ≢ none
  unfolding evaluate_catch_clauses validate_catch_clauses
  validated_route states clauses c0 c none allow g id to payload v h = cc
  validated_route states clauses c0 c (some f) allow g id to payload v h =
      lookup-state_names states to (
        try_clauses-route (state_names states) _ (x.with_failure c f) allow f g 0 clauses id to
          payload v h)
