-- ===== src/Machine/Catch/Laws.antt =====
-- What evaluateCatchClauses decides, and what a decision keeps of the failure.
use c2j.Prelude.{
  ℕ, suc, String, Bool, true, false, not, ◌&&◌, ◌⊎◌, Option, none, some, List, [], ◌∷◌,
}
use c2j.Prelude.{◌≡◌, refl, sym, ◌∙◌, arith, Result, ok, err, ◌>>=◌, inl, inr, string_eq}
use c2j.Machine.Failure.{RuntimeFailure, CatchClause, CatchFail, report, origin}
use c2j.Machine.Catch.{
  Renderer, CatchDecision, wrap, fail_failed, no_decision, route_to, continue_with, fail_with,
  evaluate_catch_clauses, try_clauses, try_clause, handle, handle_here, render_catch_failure,
  clause_label, Label,
}

module _ {V M : Type 0} where
  -- The failure that a decision carries, or else the one at hand.
  abbrev pub carried : RuntimeFailure V M → CatchDecision V M → RuntimeFailure V M
  carried f no_decision = f
  carried f (route_to id to payload g) = g
  carried f (continue_with id outputs g) = g
  carried f (fail_with id g) = g

  abbrev pub routes : CatchDecision V M → Bool
  routes no_decision = false
  routes (route_to id to payload f) = true
  routes (continue_with id outputs f) = false
  routes (fail_with id f) = false

  -- The same node and retry class, from the same first failure.
  pub record Continues (f g : RuntimeFailure V M) : Type 0 where
    pub same_node : (report g).node ≡ (report f).node
    pub same_retry : (report g).retryable ≡ (report f).retryable
    pub same_origin : origin g ≡ origin f

module _ {V M : Type 0} (allow : Bool) (f : RuntimeFailure V M) (d : CatchDecision V M) where
  -- A decision that goes on with the failure, and routes only where it may.
  pub record Fits : Type 0 where
    pub continues : Continues f (carried f d)
    pub may_route : (routes d && not allow) ≡ false

pub stops_or_goes_on :
    {E D : Type 0} (m : Result E (Option D)) (rest : Result E D) (d : D)
    → (m >>= λ o. elim o [ some made ↦ ok made | none ↦ rest ]) ≡ ok d
    → (m ≡ ok (some d)) ⊎ ((m ≡ ok none) × (rest ≡ ok d))
stops_or_goes_on (err e) rest d h = cc
stops_or_goes_on (ok none) rest d h = inr (refl, h)
stops_or_goes_on (ok (some made)) rest d h = inl cc

module _ {C V M T R : Type 0} (x : Renderer C V M T R) (allow : Bool) (c : C) where
  render-Continues :
      (f g : RuntimeFailure V M) (fail : _) → render_catch_failure x fail c f ≡ ok g → Continues f g
  unfolding render_catch_failure
  render-Continues f g fail h = ground arith

  Continues-refl : (f : RuntimeFailure V M) → Continues f f
  Continues-refl f = record { same_node = refl; same_retry = refl; same_origin = refl }

  fail_made :
      {E : Type 0} (f : RuntimeFailure V M) (id : String) (wrong : R → E)
      (m : Result R (RuntimeFailure V M)) (d : CatchDecision V M)
      → ((g : RuntimeFailure V M) → m ≡ ok g → Continues f g)
      → (wrap wrong m >>= λ g. ok (some (fail_with id g))) ≡ ok (some d)
      → Fits allow f d
  fail_made f id wrong (err e) d keeps h = cc
  fail_made f id wrong (ok g) d keeps h = ground (arith, keeps g refl)

  handle_fail :
      (f : RuntimeFailure V M) (l : Label) (clause : CatchClause T) (fail : CatchFail T)
      → clause.continue_outputs ≡ none
      → clause.fail ≡ some fail
      → handle_here x c f l clause ≡ (
          wrap (λ r. fail_failed l r) (render_catch_failure x fail c f) >>= λ g.
          ok (some (fail_with clause.id g)))
  unfolding handle_here
  handle_fail f l clause fail e e' = rw (e, e') refl

  handle_here-Fits :
      (f : RuntimeFailure V M) (l : Label) (clause : CatchClause T) (d : CatchDecision V M)
      → handle_here x c f l clause ≡ ok (some d)
      → Fits allow f d
  unfolding handle_here
  handle_here-Fits f l clause d h =
      elim clause.fail as (λ o. clause.fail ≡ o → Fits allow f d) [
        | none ↦ λ e. ground (arith, Continues-refl f)
        | some fail ↦ λ e.
            elim clause.continue_outputs as (λ o. clause.continue_outputs ≡ o → Fits allow f d) [
              | none ↦ λ e'.
                  fail_made f clause.id (λ r. fail_failed l r) (render_catch_failure x fail c f) d
                    (λ g made. render-Continues f g fail made)
                    (sym (handle_fail f l clause fail e' e) ∙ h)
              | some outputs ↦ λ e'. ground (arith, Continues-refl f)
            ]
              refl
      ]
        refl

  handle-Fits :
      (f : RuntimeFailure V M) (l : Label) (clause : CatchClause T) (d : CatchDecision V M)
      → handle x allow c f l clause ≡ ok (some d)
      → Fits allow f d
  unfolding handle
  handle-Fits f l clause d h = ground (arith, Continues-refl f, handle_here-Fits f l clause d)

  try_clause-Fits :
      (f : RuntimeFailure V M) (i : ℕ) (clause : CatchClause T) (d : CatchDecision V M)
      → try_clause x allow c f i clause ≡ ok (some d)
      → Fits allow f d
  unfolding try_clause
  try_clause-Fits f i clause d h = ground (arith, handle-Fits f (clause_label i clause) clause d)

  try_clauses-Fits :
      (f : RuntimeFailure V M) (i : ℕ) (clauses : List (CatchClause T)) (d : CatchDecision V M)
      → try_clauses x allow c f i clauses ≡ ok d
      → Fits allow f d
  unfolding try_clauses
  try_clauses-Fits f i [] d h = ground (arith, Continues-refl f)
  try_clauses-Fits f i (clause ∷ clauses) d h =
      elim (stops_or_goes_on (try_clause x allow c f i clause) _ d h) [
        | inl e ↦ try_clause-Fits f i clause d e
        | inr (e, later) ↦ try_clauses-Fits f (suc i) clauses d later
      ]

module _ {C V M T R : Type 0} (x : Renderer C V M T R) where
  -- A decision of evaluateCatchClauses carries a failure of the same node, retry class and first
  -- cause as the failure at hand, and is no route where routes are not allowed.
  pub catch-Fits :
      (clauses : List (CatchClause T)) (f : RuntimeFailure V M) (c : C) (allow : Bool)
      (d : CatchDecision V M)
      → evaluate_catch_clauses x clauses (some f) c allow ≡ ok d
      → Fits allow f d
  unfolding evaluate_catch_clauses
  catch-Fits clauses f c allow d h = try_clauses-Fits x allow (x.with_failure c f) f 0 clauses d h
