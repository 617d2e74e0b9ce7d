-- ===== src/Machine/Loop.antt =====
-- pkg/worker/compiler/statemachine_compiler.go: `executeStateMachineBody` in its execution mode. The
-- body of its loop is `step`. The loop may run for ever: `run` is given how many states it may visit.
-- Placeholders, inputs and variables of the machine are resolved before, in the world it starts in.
pub mod Laws
pub mod Halting
use Prim.Native.String.{◌++◌ as text_append}
use c2j.Prelude.{
  ℕ, zero, suc, String, Bool, true, false, not, Option, none, some, List, [], ◌∷◌, ◌++◌,
}
use c2j.Prelude.{string_eq, ◌==◌, if◌then◌else◌, is_nil, Result, ok, err}
use c2j.Prelude.{lookup}
use c2j.Machine.Failure.{CatchClause, TransitionData}
use c2j.Machine.Node.{NodeMetadata, metadata, node_without_retry}
use c2j.Machine.Transitions.{
  TransitionError, TransitionDecision, evaluate_transitions, evaluate_initial_state,
}
use c2j.Machine.Run.{
  State, StateMap, Fault, Step, scope_state_machine, Engine, then_do, route_as_error, is_include,
  is_terminal_state, run_state,
}

-- What the machine itself reports.
pub data MachineError (V M E : Type 0) : Type 0 where
  state_not_found : String → MachineError V M E
  catch_target_not_found : String → MachineError V M E
  transitions_failed : TransitionError E → MachineError V M E
  failed : Fault V M E → MachineError V M E

-- What the observers are told of the course of the machine.
pub data Event (V M : Type 0) : Type 0 where
  state_entered state_exited : String → Event V M
  route_selected transition_selected : TransitionData V M → Event V M

-- The loop's variables: the current state, how it was entered, the world, what observers were told.
pub record Position (V M W : Type 0) : Type 0 where
  pub name : String
  pub transition : TransitionData V M
  pub world : W
  pub events : List (Event V M)

-- A visit ended, with a route or without; or a catch of the machine has completed it.
pub data Visit (V M : Type 0) : Type 0 where
  visited : Option (TransitionData V M) → Visit V M
  completed : Visit V M

-- The next turn of the loop, `break`, `return nil`, or `return err`.
pub data Next (V M E W : Type 0) : Type 0 where
  go_on : Position V M W → Next V M E W
  break_at : Position V M W → Next V M E W
  caught : Position V M W → Next V M E W
  stop_with : MachineError V M E → W → Next V M E W

abbrev pub exited : {V M W : Type 0} → Position V M W → Position V M W
exited p = record p { events = p.events ++ state_exited p.name ∷ [] }

-- How a run ends; `unfinished` where it may visit no further state.
pub data Outcome (V M E W : Type 0) : Type 0 where
  finished : Position V M W → Outcome V M E W
  completed_by_catch : Position V M W → Outcome V M E W
  broken : MachineError V M E → W → Outcome V M E W
  unfinished : Position V M W → Outcome V M E W

module _ {V M E W : Type 0} where
  -- What becomes of the scope of the machine's own catch clauses.
  abbrev pub caught_outcome : Step V M E W (Unit {0}) → Step V M E W (Visit V M)
  caught_outcome (ok u, w) = (ok (visited none), w)
  caught_outcome (err e, w) =
      if e.handled
      then (ok completed, w)
      else elim e.route [ some t ↦ (ok (visited (some t)), w) | none ↦ (err e, w) ]

  abbrev pub as_visit : Step V M E W (Option (TransitionData V M)) → Step V M E W (Visit V M)
  as_visit (ok route, w) = (ok (visited route), w)
  as_visit (err e, w) = (err e, w)

module _ {V M E W T Meta Body : Type 0} (x : Engine V M E W T Meta Body) where
  -- The machine's catch clauses guard each state; its retries are theirs.
  abbrev pub state_policy :
      String → List (CatchClause T) → NodeMetadata T Meta → NodeMetadata T Meta
  state_policy name clauses m = record m {
    id = text_append "state-policy:" name;
    catch_clauses = clauses;
    timeout = 0;
  }

  unfoldable pub visit :
      List (CatchClause T)
      → W
      → String
      → State T Meta Body
      → TransitionData V M
      → Step V M E W (Visit V M)
  visit [] w name s transition = as_visit (run_state x w name s transition)
  visit (c ∷ cs) w name s transition = caught_outcome (
      x.scope w (state_policy name (c ∷ cs) (metadata s.node)) scope_state_machine name λ v.
        route_as_error
          (run_state x v name (record s { node = node_without_retry s.node }) transition))

  -- `prepareHook`, for a state that is a hook
  abbrev pub prepared : W → String → State T Meta Body → Step V M E W (State T Meta Body)
  prepared w name s =
      if is_include s.node
      then then_do (x.prepare_hook w name s.node) (λ node v. (ok (record s { node = node }), v))
      else (ok s, w)

  module _ (clauses : List (CatchClause T)) (m : StateMap T Meta Body) where
    -- A route that a catch clause chose, to the state that the map has under its name.
    abbrev pub follow_to :
        Option (State T Meta Body) → TransitionData V M → Position V M W → Next V M E W
    follow_to none t p = stop_with (catch_target_not_found t.to) p.world
    follow_to (some s) t p = go_on (record {
      name = t.to;
      transition = t;
      world = p.world;
      events = p.events ++ route_selected t ∷ [];
    })

    -- The decision of the transitions; the empty target ends the machine.
    abbrev pub follow_decision :
        Result (TransitionError E) (TransitionDecision V M) → Position V M W → Next V M E W
    follow_decision (err e) p = stop_with (transitions_failed e) p.world
    follow_decision (ok d) p =
        if d.to == ""
        then break_at p
        else go_on (record {
          name = d.to;
          transition = d.transition;
          world = p.world;
          events = p.events ++ transition_selected d.transition ∷ [];
        })

    unfoldable pub leave_state : State T Meta Body → Position V M W → Next V M E W
    leave_state s p =
        if is_terminal_state p.name m.states
        then break_at p
        else follow_decision (evaluate_transitions M x.conditions p.world p.name s.transitions) p

    abbrev pub after_visit :
        State T Meta Body → Position V M W → Result (Fault V M E) (Visit V M) → Next V M E W
    after_visit s p (err e) = stop_with (failed e) p.world
    after_visit s p (ok completed) = caught p
    after_visit s p (ok (visited (some t))) = follow_to (lookup t.to m.states) t (exited p)
    after_visit s p (ok (visited none)) = leave_state s (exited p)

    abbrev pub at_world : Position V M W → W → Position V M W
    at_world p w = record {
      name = p.name;
      transition = p.transition;
      world = w;
      events = p.events ++ state_entered p.name ∷ [];
    }

    -- From `StateEntered` on
    unfoldable pub enter_state : Position V M W → Step V M E W (State T Meta Body) → Next V M E W
    enter_state p (err e, w) = stop_with (failed e) w
    enter_state p (ok s, w) =
        after_visit s (at_world p (visit clauses w p.name s p.transition).1)
          (visit clauses w p.name s p.transition).0

    abbrev pub enter_known : Option (State T Meta Body) → Position V M W → Next V M E W
    enter_known none p = stop_with (state_not_found p.name) p.world
    enter_known (some s) p = enter_state p (prepared p.world p.name s)

    -- The body of the loop
    unfoldable pub step : Position V M W → Next V M E W
    step p = enter_known (lookup p.name m.states) p

    -- The loop, over at most as many states as the first argument says.
    unfoldable pub run : ℕ → Position V M W → Outcome V M E W
    run zero p = unfinished p
    run (suc n) p = elim (step p) [
      | go_on q ↦ run n q
      | break_at q ↦ finished q
      | caught q ↦ completed_by_catch q
      | stop_with e w ↦ broken e w
    ]

    abbrev pub initial_position : W → TransitionDecision V M → Position V M W
    initial_position w d = record { name = d.to; transition = d.transition; world = w; events = [] }

    abbrev pub complete_at : Position V M W → Outcome V M E W
    complete_at p =
        let (r, w) = x.complete p.world p.name in
        elim r [ ok u ↦ finished (record p { world = w }) | err e ↦ broken (failed e) w ]

    -- The outputs are resolved behind the loop, and not where a catch completed the machine.
    abbrev pub complete_run : Outcome V M E W → Outcome V M E W
    complete_run (finished p) = elim (lookup p.name m.states) [
      | none ↦ if p.name == "" then complete_at p else broken (state_not_found p.name) p.world
      | some s ↦ complete_at p
    ]
    complete_run (completed_by_catch p) = completed_by_catch p
    complete_run (broken e w) = broken e w
    complete_run (unfinished p) = unfinished p

    unfoldable pub start_run : ℕ → W → TransitionDecision V M → Outcome V M E W
    start_run n w d = elim (lookup d.to m.states) [
      | none ↦ broken (state_not_found d.to) w
      | some s ↦ complete_run (run n (initial_position w d))
    ]

    -- `executeStateMachineBody`, from the choice of the first state on
    unfoldable pub execute_state_machine : ℕ → W → Outcome V M E W
    execute_state_machine n w = elim (evaluate_initial_state M x.conditions w m.initial) [
      | err e ↦ broken (transitions_failed e) w
      | ok d ↦ start_run n w d
    ]
