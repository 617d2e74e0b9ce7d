-- ===== src/Machine/Catch/Validation/Outcomes.antt =====
-- Validated clauses pass over no failure that they match, and route nowhere outside a machine.
use c2j.Prelude.{
  ℕ, suc, String, Bool, true, false, Option, none, some, List, [], ◌∷◌, ◌≡◌, ◌≢◌, ap, ◌∙◌, arith,
  ◌⊎◌, inl, inr,
}
use c2j.Prelude.{string_eq, ◌==◌, Result, ok, err, ◌>>=◌, Option-cases}
use c2j.Machine.Failure.{RuntimeFailure, CatchClause}
use c2j.Machine.Catch.{
  Label, route_outside_machine, Renderer, no_decision, clause_label, handle_here, handle,
  try_clause, try_clauses, evaluate_catch_clauses,
}
use c2j.Machine.Catch.Laws.{stops_or_goes_on}
use c2j.Machine.Catch.Validation.{valid_shape, validate_from, validate_catch_clauses}
use c2j.Machine.Catch.Validation.Laws.{
  validate_clause-parts, validate_from-cons, check_route_outside,
}

module _ {C V M T R : Type 0} (x : Renderer C V M T R) (trim : String → String) where
  -- A clause that has its one action handles a failure
  handle_here-none :
      (c : C) (f : RuntimeFailure V M) (l : Label) (clause : CatchClause T)
      → trim "" ≡ ""
      → valid_shape trim clause ≡ true
      → (clause.to == "") ≡ true
      → handle_here x c f l clause ≢ ok none
  unfolding handle_here valid_shape
  handle_here-none c f l clause t v e h =
      let empty : trim clause.to ≡ "" = ap trim ((string_eq.beq_iff clause.to "").0 e) ∙ t in
      ground (
        arith,
        (string_eq.beq_iff (trim clause.to) "").1 empty,
        Option-cases clause.continue_outputs,
        Option-cases clause.fail,
      )

  try_clause-none :
      (allow : Bool) (c : C) (f : RuntimeFailure V M) (i : ℕ) (clause : CatchClause T)
      → trim "" ≡ ""
      → valid_shape trim clause ≡ true
      → try_clause x allow c f i clause ≡ ok none
      → x.evaluate c clause.when ≡ ok false
  unfolding try_clause handle
  try_clause-none allow c f i clause t v h =
      ground (arith, handle_here-none c f (clause_label i clause) clause t v)

  handle_here-decides :
      (c : C) (f : RuntimeFailure V M) (l : Label) (clause : CatchClause T)
      → handle_here x c f l clause ≢ ok (some no_decision)
  unfolding handle_here
  handle_here-decides c f l clause h =
      ground (arith, Option-cases clause.continue_outputs, Option-cases clause.fail)

  try_clause-decides :
      (allow : Bool) (c : C) (f : RuntimeFailure V M) (i : ℕ) (clause : CatchClause T)
      → try_clause x allow c f i clause ≢ ok (some no_decision)
  unfolding try_clause handle
  try_clause-decides allow c f i clause h =
      ground (arith, handle_here-decides c f (clause_label i clause) clause)

  -- The condition of each clause is false.
  pub data NoneHolds (c : C) : List (CatchClause T) → Type 0 where
    no_clause : NoneHolds c []
    fails :
        {clause : CatchClause T} {clauses : List (CatchClause T)}
        → x.evaluate c clause.when ≡ ok false
        → NoneHolds c clauses
        → NoneHolds c (clause ∷ clauses)

  try_clauses-none :
      (names : Option (List String)) (c0 c : C) (allow : Bool) (f : RuntimeFailure V M) (i : ℕ)
      (clauses : List (CatchClause T))
      → trim "" ≡ ""
      → validate_from x trim names c0 i clauses ≡ ok tt
      → try_clauses x allow c f i clauses ≡ ok no_decision
      → NoneHolds c clauses
  unfolding try_clauses
  try_clauses-none names c0 c allow f i [] t v h = no_clause
  try_clauses-none names c0 c allow f i (clause ∷ clauses) t v h =
      let (valid, rest) = validate_from-cons x trim names c0 i clause clauses v in
      let (shape, _) = validate_clause-parts x trim names c0 i clause valid in
      elim (stops_or_goes_on (try_clause x allow c f i clause)
        (try_clauses x allow c f (suc i) clauses) no_decision h) [
          | inl here ↦ absurd (try_clause-decides allow c f i clause here)
          | inr (skipped, further) ↦
              fails (try_clause-none allow c f i clause t shape skipped)
                (try_clauses-none names c0 c allow f (suc i) clauses t rest further)
        ]

  -- Where strings.TrimSpace leaves the empty string as it is, validated clauses pass over a failure,
  -- making no decision on it, only if the condition of each of them is false.
  pub validated_none :
      (names : Option (List String)) (clauses : List (CatchClause T)) (c0 c : C)
      (f : RuntimeFailure V M) (allow : Bool)
      → trim "" ≡ ""
      → validate_catch_clauses x trim clauses c0 names ≡ ok tt
      → evaluate_catch_clauses x clauses (some f) c allow ≡ ok no_decision
      → NoneHolds (x.with_failure c f) clauses
  unfolding evaluate_catch_clauses validate_catch_clauses
  validated_none names clauses c0 c f allow t v h =
      try_clauses-none names _ (x.with_failure c f) allow f 0 clauses t v h

  handle_here-outside :
      (c : C) (f : RuntimeFailure V M) (l k : Label) (clause : CatchClause T)
      → handle_here x c f l clause ≢ err (route_outside_machine k)
  unfolding handle_here
  handle_here-outside c f l k clause h =
      ground (arith, Option-cases clause.continue_outputs, Option-cases clause.fail)

  try_clause-outside :
      (allow : Bool) (c : C) (f : RuntimeFailure V M) (i : ℕ) (k : Label) (clause : CatchClause T)
      → (clause.to == "") ≡ true
      → try_clause x allow c f i clause ≢ err (route_outside_machine k)
  unfolding try_clause handle
  try_clause-outside allow c f i k clause e h =
      ground (arith, handle_here-outside c f (clause_label i clause) k clause)

  fails_or_goes_on :
      {E D : Type 0} (m : Result E (Option D)) (rest : Result E D) (e : E)
      → (m >>= λ o. elim o [ some made ↦ ok made | none ↦ rest ]) ≡ err e
      → (m ≡ err e) ⊎ (rest ≡ err e)
  fails_or_goes_on (err why) rest e h = inl (ground arith)
  fails_or_goes_on (ok none) rest e h = inr h
  fails_or_goes_on (ok (some made)) rest e h = absurd (ground arith)

  try_clauses-outside :
      (c0 c : C) (allow : Bool) (f : RuntimeFailure V M) (i : ℕ) (k : Label)
      (clauses : List (CatchClause T))
      → validate_from x trim none c0 i clauses ≡ ok tt
      → try_clauses x allow c f i clauses ≢ err (route_outside_machine k)
  unfolding try_clauses
  try_clauses-outside c0 c allow f i k [] v h = ground arith
  try_clauses-outside c0 c allow f i k (clause ∷ clauses) v h =
      let (valid, rest) = validate_from-cons x trim none c0 i clause clauses v in
      let (_, checked) = validate_clause-parts x trim none c0 i clause valid in
      elim (fails_or_goes_on (try_clause x allow c f i clause)
        (try_clauses x allow c f (suc i) clauses) (route_outside_machine k) h) [
          | inl here ↦
              try_clause-outside allow c f i k clause
                (check_route_outside x trim c0 (clause_label i clause) clause checked) here
          | inr further ↦ try_clauses-outside c0 c allow f (suc i) k clauses rest further
        ]

  -- Clauses that were validated outside a state machine never fail because they route there, whether
  -- the evaluation allows routes or not.
  pub validated_outside :
      (clauses : List (CatchClause T)) (c0 c : C) (f : RuntimeFailure V M) (allow : Bool)
      (k : Label)
      → validate_catch_clauses x trim clauses c0 none ≡ ok tt
      → evaluate_catch_clauses x clauses (some f) c allow ≢ err (route_outside_machine k)
  unfolding evaluate_catch_clauses validate_catch_clauses
  validated_outside clauses c0 c f allow k v h =
      try_clauses-outside _ (x.with_failure c f) allow f 0 k clauses v h
