-- ===== src/Machine/Catch/First.antt =====
-- Which catch clause decides, described without the loop of evaluateCatchClauses
-- (pkg/worker/compiler/failure.go).
use mathlib.Core.Path.{subst}
use c2j.Prelude.{ℕ, suc, Bool, true, false, not, ◌⊎◌, Option, none, some, List, [], ◌∷◌}
use c2j.Prelude.{
  ◌≡◌, refl, ◌↔◌, arith, Result, ok, err, ◌>>=◌, ◌>>◌, >>=-eq-ok, inl, inr, string_eq,
  if◌then◌else◌, reject_if,
}
use c2j.Machine.Failure.{RuntimeFailure, CatchClause, CatchFail, Map}
use c2j.Machine.Catch.{
  Renderer, CatchDecision, when_failed, route_outside_machine, payload_failed, outputs_failed,
  fail_failed, clause_label, wrap, no_decision, route_to, continue_with, fail_with,
  evaluate_catch_clauses, try_clauses, try_clause, handle, handle_here, render_catch_failure, Label,
}
use c2j.Machine.Catch.Laws.{stops_or_goes_on}

wrap_ok : {R E A : Type 0} (f : R → E) (r : Result R A) (a : A) → wrap f r ≡ ok a → r ≡ ok a
wrap_ok f (ok b) a h = ground arith
wrap_ok f (err e) a h = absurd (ground arith)

same_ok : {E A : Type 0} (a b : A) → ◌≡◌ {A = Result E A} (ok a) (ok b) → a ≡ b
same_ok a b h = ground arith

module _ {C V M T R : Type 0} (x : Renderer C V M T R) (allow : Bool) (c : C)
    (f : RuntimeFailure V M) where
  -- The clause does nothing: its condition does not hold, or it says nothing to do.
  pub data Passes (clause : CatchClause T) : Type 0 where
    unmatched : x.evaluate c clause.when ≡ ok false → Passes clause
    inert :
        x.evaluate c clause.when ≡ ok true
        → string_eq.beq clause.to "" ≡ true
        → clause.continue_outputs ≡ none
        → clause.fail ≡ none
        → Passes clause

  -- The condition of the clause holds, and it routes, where that is allowed and it has a target;
  -- else goes on with its outputs, if it has any; else fails with the failure that it renders.
  pub data Acts (clause : CatchClause T) : CatchDecision V M → Type 0 where
    routes_on :
        (payload : Map V)
        → x.evaluate c clause.when ≡ ok true
        → string_eq.beq clause.to "" ≡ false
        → allow ≡ true
        → x.resolve_map c clause.payload ≡ ok payload
        → Acts clause (route_to clause.id clause.to payload f)
    goes_on :
        (outputs : Map T) (rendered : Map V)
        → x.evaluate c clause.when ≡ ok true
        → string_eq.beq clause.to "" ≡ true
        → clause.continue_outputs ≡ some outputs
        → x.resolve_map c outputs ≡ ok rendered
        → Acts clause (continue_with clause.id rendered f)
    gives_up :
        (fail : CatchFail T) (g : RuntimeFailure V M)
        → x.evaluate c clause.when ≡ ok true
        → string_eq.beq clause.to "" ≡ true
        → clause.continue_outputs ≡ none
        → clause.fail ≡ some fail
        → render_catch_failure x fail c f ≡ ok g
        → Acts clause (fail_with clause.id g)

  -- Every clause does nothing.
  pub data AllPass : List (CatchClause T) → Type 0 where
    nobody : AllPass []
    one_more :
        {clause : CatchClause T} {clauses : List (CatchClause T)}
        → Passes clause
        → AllPass clauses
        → AllPass (clause ∷ clauses)

  -- The first clause that acts makes the decision.
  pub data Decides (d : CatchDecision V M) : List (CatchClause T) → Type 0 where
    here :
        {clause : CatchClause T} {clauses : List (CatchClause T)}
        → Acts clause d
        → Decides d (clause ∷ clauses)
    further :
        {clause : CatchClause T} {clauses : List (CatchClause T)}
        → Passes clause
        → Decides d clauses
        → Decides d (clause ∷ clauses)

  abbrev Does : CatchClause T → Option (CatchDecision V M) → Type 0
  Does clause none = Passes clause
  Does clause (some d) = Acts clause d

  passed-try_clause :
      (i : ℕ) (clause : CatchClause T) → Passes clause → try_clause x allow c f i clause ≡ ok none
  unfolding try_clause handle handle_here
  passed-try_clause i clause (unmatched e) = rw e refl
  passed-try_clause i clause (inert e to outputs fail) = rw (e, to, outputs, fail) refl

  acted-try_clause :
      (i : ℕ) (clause : CatchClause T) (d : CatchDecision V M)
      → Acts clause d
      → try_clause x allow c f i clause ≡ ok (some d)
  unfolding try_clause handle handle_here
  acted-try_clause i clause d (routes_on payload e to may made) = rw (e, to, may, made) refl
  acted-try_clause i clause d (goes_on outputs rendered e to given made) =
      rw (e, to, given, made) refl
  acted-try_clause i clause d (gives_up fail g e to outputs given made) =
      rw (e, to, outputs, given, made) refl

  here_by :
      (l : Label) (clause : CatchClause T) (o : Option (CatchDecision V M))
      (outputs : Option (Map T)) (fail : Option (CatchFail T))
      → x.evaluate c clause.when ≡ ok true
      → string_eq.beq clause.to "" ≡ true
      → clause.continue_outputs ≡ outputs
      → clause.fail ≡ fail
      → (elim outputs [
        | some outputs ↦ wrap (outputs_failed l) (x.resolve_map c outputs) >>= λ rendered.
            ok (some (continue_with clause.id rendered f))
        | none ↦ elim fail [
          | some fail ↦ wrap (fail_failed l) (render_catch_failure x fail c f) >>= λ rewritten.
              ok (some (fail_with clause.id rewritten))
          | none ↦ ok none
        ]
      ])
        ≡ ok o
      → Does clause o
  here_by l clause o none none holds to none_out none_fail h =
      subst (Does clause) (same_ok none o h) (inert holds to none_out none_fail)
  here_by l clause o none (some fail) holds to none_out given h =
      let (g, made, h1) =
        >>=-eq-ok (wrap (λ e. fail_failed l e) (render_catch_failure x fail c f)) _ h in
      subst (Does clause) (same_ok (some (fail_with clause.id g)) o h1)
        (gives_up fail g holds to none_out given (wrap_ok _ _ g made))
  here_by l clause o (some outputs) fail holds to given e h =
      let (rendered, made, h1) =
        >>=-eq-ok (wrap (λ e. outputs_failed l e) (x.resolve_map c outputs)) _ h in
      subst (Does clause) (same_ok (some (continue_with clause.id rendered f)) o h1)
        (goes_on outputs rendered holds to given (wrap_ok _ _ rendered made))

  routed_by :
      (l : Label) (clause : CatchClause T) (o : Option (CatchDecision V M)) (may : Bool)
      → allow ≡ may
      → x.evaluate c clause.when ≡ ok true
      → string_eq.beq clause.to "" ≡ false
      → (reject_if (not may) (route_outside_machine l)
          >> (wrap (payload_failed l) (x.resolve_map c clause.payload) >>= λ payload.
              ok (some (route_to clause.id clause.to payload f))))
        ≡ ok o
      → Does clause o
  routed_by l clause o false e holds to h = absurd (ground arith)
  routed_by l clause o true e holds to h =
      let (payload, made, h1) =
        >>=-eq-ok (wrap (λ e. payload_failed l e) (x.resolve_map c clause.payload)) _ h in
      subst (Does clause) (same_ok (some (route_to clause.id clause.to payload f)) o h1)
        (routes_on payload holds to e (wrap_ok _ _ payload made))

  handled_by :
      (l : Label) (clause : CatchClause T) (o : Option (CatchDecision V M)) (stays : Bool)
      → string_eq.beq clause.to "" ≡ stays
      → x.evaluate c clause.when ≡ ok true
      → (if stays
          then handle_here x c f l clause
          else (reject_if (not allow) (route_outside_machine l)
              >> (wrap (payload_failed l) (x.resolve_map c clause.payload) >>= λ payload.
                  ok (some (route_to clause.id clause.to payload f)))))
        ≡ ok o
      → Does clause o
  unfolding handle_here
  handled_by l clause o true to holds h =
      here_by l clause o clause.continue_outputs clause.fail holds to refl refl h
  handled_by l clause o false to holds h = routed_by l clause o allow refl holds to h

  matched_by :
      (l : Label) (clause : CatchClause T) (o : Option (CatchDecision V M)) (matches : Bool)
      → x.evaluate c clause.when ≡ ok matches
      → (if matches then handle x allow c f l clause else ok none) ≡ ok o
      → Does clause o
  unfolding handle
  matched_by l clause o true holds h =
      handled_by l clause o (string_eq.beq clause.to "") refl holds h
  matched_by l clause o false fails h = subst (Does clause) (same_ok none o h) (unmatched fails)

  try_clause-Does :
      (i : ℕ) (clause : CatchClause T) (o : Option (CatchDecision V M))
      → try_clause x allow c f i clause ≡ ok o
      → Does clause o
  unfolding try_clause
  try_clause-Does i clause o h =
      let (matches, e, h1) =
        >>=-eq-ok (wrap (λ e. when_failed (clause_label i clause) e) (x.evaluate c clause.when)) _
          h in
      matched_by (clause_label i clause) clause o matches (wrap_ok _ _ matches e) h1

  try_clauses_sound :
      (i : ℕ) (clauses : List (CatchClause T)) (d : CatchDecision V M)
      → try_clauses x allow c f i clauses ≡ ok d
      → ((d ≡ no_decision) × AllPass clauses) ⊎ Decides d clauses
  unfolding try_clauses
  try_clauses_sound i [] d h = inl (cc, nobody)
  try_clauses_sound i (clause ∷ clauses) d h =
      elim (stops_or_goes_on (try_clause x allow c f i clause) _ d h) [
        | inl e ↦ inr (here (try_clause-Does i clause (some d) e))
        | inr (e, later) ↦ elim (try_clauses_sound (suc i) clauses d later) [
          | inl (none_left, all) ↦ inl (none_left, one_more (try_clause-Does i clause none e) all)
          | inr found ↦ inr (further (try_clause-Does i clause none e) found)
        ]
      ]

  try_clauses_complete :
      (i : ℕ) (clauses : List (CatchClause T)) (d : CatchDecision V M)
      → Decides d clauses
      → try_clauses x allow c f i clauses ≡ ok d
  unfolding try_clauses
  try_clauses_complete i [] d e = elim e [ ]
  try_clauses_complete i (clause ∷ clauses) d (here e) = rw (acted-try_clause i clause d e) refl
  try_clauses_complete i (clause ∷ clauses) d (further e later) =
      rw (passed-try_clause i clause e) (try_clauses_complete (suc i) clauses d later)

  try_clauses-passes :
      (i : ℕ) (clauses : List (CatchClause T))
      → AllPass clauses
      → try_clauses x allow c f i clauses ≡ ok no_decision
  unfolding try_clauses
  try_clauses-passes i [] all = refl
  try_clauses-passes i (clause ∷ clauses) (one_more e all) =
      rw (passed-try_clause i clause e) (try_clauses-passes (suc i) clauses all)

  from_first :
      (clauses : List (CatchClause T)) (d : CatchDecision V M)
      → ((d ≡ no_decision) × AllPass clauses) ⊎ Decides d clauses
      → try_clauses x allow c f 0 clauses ≡ ok d
  from_first clauses d (inl (e, all)) = rw e (try_clauses-passes 0 clauses all)
  from_first clauses d (inr found) = try_clauses_complete 0 clauses d found

module _ {C V M T R : Type 0} (x : Renderer C V M T R) where
  -- evaluateCatchClauses decides as the first clause that acts, and makes no decision exactly if every
  -- clause does nothing. A clause acts if its condition holds and it routes (it has a target, routes
  -- are allowed, and its payload resolves), or else goes on with outputs that resolve, or else fails
  -- with the failure that renderCatchFailure makes; it does nothing if its condition does not hold, or
  -- if it has no target, no outputs and no failure.
  pub catch_first :
      (clauses : List (CatchClause T)) (f : RuntimeFailure V M) (c : C) (allow : Bool)
      (d : CatchDecision V M)
      → (evaluate_catch_clauses x clauses (some f) c allow ≡ ok d) ↔ (
          ((d ≡ no_decision) × AllPass x allow (x.with_failure c f) f clauses)
          ⊎ Decides x allow (x.with_failure c f) f d clauses)
  unfolding evaluate_catch_clauses
  catch_first clauses f c allow d = (
    try_clauses_sound x allow (x.with_failure c f) f 0 clauses d,
    from_first x allow (x.with_failure c f) f clauses d,
  )
