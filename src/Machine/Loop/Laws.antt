-- ===== src/Machine/Loop/Laws.antt =====
-- Where the loop of the state machine may go: its turns as edges, and the paths that they make.
use mathlib.Core.Path.{subst}
use c2j.Prelude.{ℕ, zero, suc, Bool, true, false, Option, none, some, List, ◌≡◌, refl, sym, ap}
use c2j.Prelude.{arith, Result, ok, err, string_eq, if◌then◌else◌}
use c2j.Prelude.{lookup}
use c2j.Machine.Failure.{CatchClause, TransitionData}
use c2j.Machine.Node.{Node}
use c2j.Machine.Transitions.{TransitionDecision, TransitionError, evaluate_transitions}
use c2j.Machine.Run.{State, StateMap, Engine, Step, then_do, is_include, is_terminal_state}
use c2j.Machine.Loop.{
  Position, Next, go_on, break_at, caught, stop_with, Visit, visited, completed, visit, prepared,
  exited, at_world, enter_known, follow_to, follow_decision, leave_state, after_visit, enter_state,
  step, run, finished, broken, completed_by_catch,
}

module _ {V M E W T Meta Body : Type 0} (x : Engine V M E W T Meta Body)
    (clauses : List (CatchClause T)) (m : StateMap T Meta Body) where
  -- The decision that leads to a position.
  abbrev pub decision_of : Position V M W → TransitionDecision V M
  decision_of q = record { to = q.name; transition = q.transition }

  -- The visit of the state `s` that the machine has at `p`, a hook prepared before: it ends with `r`
  -- in the world `w`.
  pub record Stay (p : Position V M W) (s : State T Meta Body) (r : Visit V M) (w : W)
      : Type 0 where
    pub prepared_state : State T Meta Body
    pub prepared_world : W
    pub known : lookup p.name m.states ≡ some s
    pub prepares : prepared x p.world p.name s ≡ (ok prepared_state, prepared_world)
    pub visits : visit x clauses prepared_world p.name prepared_state p.transition ≡ (ok r, w)

  -- A turn from `p` to `q`, in the world that the visit of the state at `p` left: by the route of
  -- that visit to a state of the machine, or, from a state that is not terminal whose visit ended
  -- without a route, by the decision of its transitions.
  pub data Edge (p q : Position V M W) : Type 0 where
    routed :
        (s s' : State T Meta Body)
        → Stay p s (visited (some q.transition)) q.world
        → lookup q.name m.states ≡ some s'
        → q.transition.to ≡ q.name
        → Edge p q
    moved :
        (s : State T Meta Body)
        → Stay p s (visited none) q.world
        → is_terminal_state p.name m.states ≡ false
        → evaluate_transitions M x.conditions q.world p.name s.transitions ≡ ok (decision_of q)
        → string_eq.beq q.name "" ≡ false
        → Edge p q

  route_taken :
      (o : Option (State T Meta Body)) (t : TransitionData V M) (p q : Position V M W)
      → lookup t.to m.states ≡ o
      → follow_to x clauses m o t p ≡ go_on q
      → (s : State T Meta Body) × (lookup q.name m.states ≡ some s)
        × (q.transition.to ≡ q.name)
        × (t ≡ q.transition)
        × (p.world ≡ q.world)
  route_taken none t p q e h = cc
  route_taken (some s) t p q e h = (s, ground arith, ground arith, ground arith, ground arith)

  decision_taken :
      (r : Result (TransitionError E) (TransitionDecision V M)) (p q : Position V M W)
      → follow_decision x clauses m r p ≡ go_on q
      → (r ≡ ok (decision_of q)) × (q.world ≡ p.world) × (string_eq.beq q.name "" ≡ false)
  decision_taken (err e) p q h = cc
  decision_taken (ok d) p q h = ground arith

  goes_on :
      (b : Bool) (n : Next V M E W) (p q : Position V M W)
      → (if b then break_at p else n) ≡ go_on q
      → (b ≡ false) × (n ≡ go_on q)
  goes_on true n p q h = cc
  goes_on false n p q h = (refl, h)

  state_left :
      (s : State T Meta Body) (p q : Position V M W)
      → leave_state x clauses m s p ≡ go_on q
      → (is_terminal_state p.name m.states ≡ false)
        × (q.world ≡ p.world)
        × (evaluate_transitions M x.conditions q.world p.name s.transitions ≡ ok (decision_of q))
        × (string_eq.beq q.name "" ≡ false)
  unfolding leave_state
  state_left s p q h =
      let (inner, decided) = goes_on (is_terminal_state p.name m.states) _ p q h in
      let (e, same, named) = decision_taken _ p q decided in (inner, same, rw same e, named)

  visit_left :
      (s s0 : State T Meta Body) (p q : Position V M W) (v : W) (o : Step V M E W (Visit V M))
      → lookup p.name m.states ≡ some s0
      → prepared x p.world p.name s0 ≡ (ok s, v)
      → s.transitions ≡ s0.transitions
      → visit x clauses v p.name s p.transition ≡ o
      → after_visit x clauses m s (at_world x clauses m p o.1) o.0 ≡ go_on q
      → Edge p q
  visit_left s s0 p q v (err f, w) k made t e h = cc
  visit_left s s0 p q v (ok completed, w) k made t e h = cc
  visit_left s s0 p q v (ok (visited none), w) k made t e h =
      let (inner, same, found, named) = state_left s (exited (at_world x clauses m p w)) q h in
      let stay : Stay p s0 (visited none) w = record {
        prepared_state = s;
        prepared_world = v;
        known = k;
        prepares = made;
        visits = e;
      } in
      moved s0 (subst (Stay p s0 (visited none)) (sym same) stay) inner (rw (sym t) found) named
  visit_left s s0 p q v (ok (visited (some d)), w) k made t e h =
      let (s', known, named, same, same_world) =
        route_taken (lookup d.to m.states) d (exited (at_world x clauses m p w)) q refl h in
      let stay : Stay p s0 (visited (some d)) w = record {
        prepared_state = s;
        prepared_world = v;
        known = k;
        prepares = made;
        visits = e;
      } in
      routed s0 s'
        (subst (λ u. Stay p s0 (visited (some u)) q.world) same
          (subst (Stay p s0 (visited (some d))) same_world stay))
        known named

  -- Preparing a hook changes the node of a state only.
  hook_prepared :
      (s : State T Meta Body) (r : Step V M E W (Node T Meta Body)) (s' : State T Meta Body)
      → (then_do r (λ node v. (ok (record s { node = node }), v))).0 ≡ ok s'
      → s'.transitions ≡ s.transitions
  hook_prepared s (ok node, w) s' h = ground arith
  hook_prepared s (err e, w) s' h = cc

  prepared_same :
      (s : State T Meta Body) (b : Bool) (w : W) (r : Step V M E W (Node T Meta Body))
      (s' : State T Meta Body)
      → (if b then then_do r (λ node v. (ok (record s { node = node }), v)) else (ok s, w)).0
        ≡ ok s'
      → s'.transitions ≡ s.transitions
  prepared_same s true w r s' h = hook_prepared s r s' h
  prepared_same s false w r s' h = ground arith

  state_entered-Edge :
      (s : State T Meta Body) (p q : Position V M W) (r : Step V M E W (State T Meta Body))
      → lookup p.name m.states ≡ some s
      → prepared x p.world p.name s ≡ r
      → enter_state x clauses m p r ≡ go_on q
      → Edge p q
  unfolding enter_state
  state_entered-Edge s p q (err e, w) k made h = cc
  state_entered-Edge s p q (ok s', w) k made h =
      visit_left s' s p q w (visit x clauses w p.name s' p.transition) k made
        (prepared_same s (is_include s.node) p.world _ s' (ap (λ r. r.0) made)) refl h

  known-Edge :
      (o : Option (State T Meta Body)) (p q : Position V M W)
      → lookup p.name m.states ≡ o
      → enter_known x clauses m o p ≡ go_on q
      → Edge p q
  known-Edge none p q k h = cc
  known-Edge (some s) p q k h = state_entered-Edge s p q (prepared x p.world p.name s) k refl h

  -- A turn of the loop that goes on has visited a state of the machine, a hook prepared before, and
  -- goes on in the world which that visit left: by the route of the visit, whose target is a state of
  -- the machine, or, where the visit ended without a route and the state is not terminal, by the
  -- decision of the transitions of the state.
  pub step-Edge : (p q : Position V M W) → step x clauses m p ≡ go_on q → Edge p q
  unfolding step
  step-Edge p q h = known-Edge (lookup p.name m.states) p q refl h

  -- A sequence of turns.
  pub data Trail : Position V M W → Position V M W → Type 0 where
    at_start : {p : Position V M W} → Trail p p
    after : {p q r : Position V M W} → Edge p q → Trail q r → Trail p r

  pub record Ends (p q : Position V M W) : Type 0 where
    pub last : Position V M W
    pub trail : Trail p last
    pub breaks : step x clauses m last ≡ break_at q

  turned :
      (n : ℕ) (p q : Position V M W) (s : Next V M E W)
      → ((r : Position V M W) → run x clauses m n r ≡ finished q → Ends r q)
      → step x clauses m p ≡ s
      → (elim s [
        | go_on r ↦ run x clauses m n r
        | break_at r ↦ finished r
        | caught r ↦ completed_by_catch r
        | stop_with e w ↦ broken e w
      ])
        ≡ finished q
      → Ends p q
  turned n p q (go_on r) rest e h =
      let k = rest r h in
      record { last = k.last; trail = after (step-Edge p r e) k.trail; breaks = k.breaks }
  turned n p q (break_at r) rest e h = record { last = p; trail = at_start; breaks = ground arith }
  turned n p q (caught r) rest e h = cc
  turned n p q (stop_with f w) rest e h = cc

  -- A run that finishes has gone along turns of the machine to a state where the loop breaks.
  pub run-Ends : (n : ℕ) (p q : Position V M W) → run x clauses m n p ≡ finished q → Ends p q
  unfolding run
  run-Ends zero p q h = cc
  run-Ends (suc n) p q h = turned n p q (step x clauses m p) (λ r k. run-Ends n r q k) refl h
