-- ===== src/Machine/Run.antt =====
-- pkg/worker/compiler/statemachine_compiler.go: `runState`, one visit of a state.
-- A world `W` stands for the contexts and for all that running a node changes. `executeNodeScope`,
-- `withNodeWorkspace`, `ExecuteNode`, `prepareHook` and the resolution of templates are the parameter
-- `Engine`.
use c2j.Prelude.{String, Bool, true, false, Option, none, some, List}
use c2j.Prelude.{string_eq, ◌==◌, if◌then◌else◌, is_nil, Result, ok, err}
use c2j.Prelude.{lookup}
use c2j.Machine.Failure.{Transition, TransitionData}
use c2j.Machine.Node.{
  NodeMetadata, Node, metadata, node_include, node_without_vars, node_without_policy,
}
use c2j.Machine.Transitions.{Conditions}

pub record State (T Meta Body : Type 0) : Type 0 where
  pub node : Node T Meta Body
  pub transitions : List (Transition T)

-- A Go map from the names of states.
pub record StateMap (T Meta Body : Type 0) : Type 0 where
  pub initial : List (Transition T)
  pub states : List (String × State T Meta Body)

-- A Go error, by what `errors.As` and `isExecutionControlError` find in its chain: a route that a
-- catch clause chose, a machine that a catch completed, a control error. `cause` is `none` for the
-- error that carries a route.
pub record Fault (V M E : Type 0) : Type 0 where
  pub control : Bool
  pub handled : Bool
  pub route : Option (TransitionData V M)
  pub cause : Option E

-- A call that changes the world and may fail.
abbrev pub Step : Type 0 → Type 0 → Type 0 → Type 0 → Type 0 → Type 0
Step V M E W A = Result (Fault V M E) A × W

pub data ScopeType : Type 0 where
  scope_state_machine scope_state : ScopeType

pub record Engine (V M E W T Meta Body : Type 0) : Type 0 where
  -- `executeNodeScope` and `withNodeWorkspace` run the body that they are given.
  pub scope :
      W
      → NodeMetadata T Meta
      → ScopeType
      → String
      → (W → Step V M E W (Unit {0}))
      → Step V M E W (Unit {0})
  -- What the body left in `result`, beside the error of the workspace.
  pub workspace :
      W
      → NodeMetadata T Meta
      → (W → Step V M E W (Option (TransitionData V M)))
      → Option (TransitionData V M) × Step V M E W (Unit {0})
  -- `NewChildContext`, with the transition that leads to the state
  pub child : W → String → State T Meta Body → TransitionData V M → Step V M E W (Unit {0})
  pub resolve_vars : W → Option Meta → Step V M E W (Unit {0})
  pub execute_node : W → Node T Meta Body → Step V M E W (Unit {0})
  pub prepare_hook : W → String → Node T Meta Body → Step V M E W (Node T Meta Body)
  pub conditions : Conditions W V T E
  -- `ResolveMap` of the outputs and `completeNodeScope`
  pub complete : W → String → Step V M E W (Unit {0})

module _ {V M E W : Type 0} where
  abbrev pub then_do : {A B : Type 0} → Step V M E W A → (A → W → Step V M E W B) → Step V M E W B
  then_do (ok a, w) f = f a w
  then_do (err e, w) f = (err e, w)

  -- A route leaves a scope as `&catchRouteError{Transition: t}`, and is read back behind it.
  abbrev pub route_as_error : Step V M E W (Option (TransitionData V M)) → Step V M E W (Unit {0})
  route_as_error (ok none, w) = (ok tt, w)
  route_as_error (ok (some t), w) =
      (err (record { control = false; handled = false; route = some t; cause = none }), w)
  route_as_error (err e, w) = (err e, w)

  abbrev pub error_as_route : Step V M E W (Unit {0}) → Step V M E W (Option (TransitionData V M))
  error_as_route (ok u, w) = (ok none, w)
  error_as_route (err e, w) = elim e.route [ some t ↦ (ok (some t), w) | none ↦ (err e, w) ]

  -- The route in `result` is read before the error.
  abbrev pub workspace_outcome :
      Option (TransitionData V M) × Step V M E W (Unit {0})
      → Step V M E W (Option (TransitionData V M))
  workspace_outcome (result, (ok u, w)) = (ok result, w)
  workspace_outcome (none, (err e, w)) = error_as_route (err e, w)
  workspace_outcome (some t, (err e, w)) = elim e.route [
    | some t' ↦ (ok (some t'), w)
    | none ↦ (ok (some t), w)
  ]

  -- What `runStateBody` makes of the node's outcome: a control error is never read as a route.
  abbrev pub node_outcome : Step V M E W (Unit {0}) → Step V M E W (Option (TransitionData V M))
  node_outcome (ok u, w) = (ok none, w)
  node_outcome (err e, w) = if e.control then (err e, w) else error_as_route (err e, w)

module _ {T Meta Body : Type 0} where
  -- `isTerminalState`
  unfoldable pub is_terminal_state : String → List (String × State T Meta Body) → Bool
  is_terminal_state name states = elim (lookup name states) [
    | none ↦ true
    | some s ↦ is_nil s.transitions
  ]

  abbrev pub is_include : Node T Meta Body → Bool
  is_include (node_include m b) = true
  is_include _ = false

module _ {V M E W T Meta Body : Type 0} (x : Engine V M E W T Meta Body) where
  -- `runStateBody`
  unfoldable pub run_state_body : W → Node T Meta Body → Step V M E W (Option (TransitionData V M))
  run_state_body w node =
      then_do (x.resolve_vars w (metadata node).vars)
        λ u w'. node_outcome (x.execute_node w' (node_without_vars node))

  -- `runStateAttempt`
  unfoldable pub run_state_attempt :
      W
      → String
      → State T Meta Body
      → TransitionData V M
      → Step V M E W (Option (TransitionData V M))
  run_state_attempt w name state transition = then_do (x.child w name state transition) λ u w'.
      elim (metadata state.node).workspace [
        | none ↦ run_state_body w' state.node
        | some space ↦
            workspace_outcome
              (x.workspace w' (metadata state.node) λ v. run_state_body v state.node)
      ]

  abbrev pub named_metadata : String → NodeMetadata T Meta → NodeMetadata T Meta
  named_metadata name m = if m.id == "" then record m { id = name } else m

  -- `runState`
  unfoldable pub run_state :
      W
      → String
      → State T Meta Body
      → TransitionData V M
      → Step V M E W (Option (TransitionData V M))
  run_state w name state transition = error_as_route (
      x.scope w (named_metadata name (metadata state.node)) scope_state name λ v. route_as_error (
        run_state_attempt v name (record state { node = node_without_policy state.node })
          transition))
