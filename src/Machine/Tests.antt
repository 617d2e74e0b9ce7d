-- ===== src/Machine/Tests.antt =====
-- The theorems on the state machine at concrete machines.
use c2j.Prelude.{
  ℕ, zero, ◌<◌, String, true, false, none, some, List, [], ◌∷◌, ◌≡◌, ◌≢◌, refl, ◌↔◌, ◌⊎◌, inl, inr,
}
use c2j.Prelude.{◌+◌, if◌then◌else◌, arith, Result, ok, err, string_eq, every}
use c2j.Prelude.{lookup}
use c2j.Machine.Failure.{RuntimeFailure, first, CatchClause, Transition, TransitionData}
use c2j.Machine.Catch.{
  Renderer, CatchDecision, no_decision, evaluate_catch_clauses, try_clauses, try_clause, handle,
  handle_here, render_catch_failure, render_field, render_cause,
}
use c2j.Machine.Catch.Laws.{catch-Fits, Fits}
use c2j.Machine.Catch.First.{catch_first, AllPass, Decides}
use c2j.Machine.Node.{
  NodeMetadata, node_op, node_without_vars, node_without_policy, node_without_retry,
}
use c2j.Machine.Transitions.{
  Conditions, TransitionDecision, no_transition, evaluate_transitions, evaluate_from, take,
  render_transition_payload, evaluate_initial_state,
}
use c2j.Machine.Transitions.Laws.{evaluate_transitions_iff, FirstTaken, NoneTaken}
use c2j.Machine.Run.{
  State, StateMap, Engine, Step, is_terminal_state, run_state, run_state_attempt, run_state_body,
}
use c2j.Machine.Node.{Node}
use c2j.Prelude.{picked, sym, ap}
use mathlib.Core.Path.{subst}
use c2j.Machine.Run.{Fault}
use c2j.Machine.Loop.{prepared, Visit}
use c2j.Machine.Loop.{
  Position, Next, Outcome, finished, unfinished, go_on, visit, visited, leave_state, enter_state,
  step, run, execute_state_machine, start_run,
}
use c2j.Machine.Loop.Laws.{Stay, Edge, Ends, step-Edge, run-Ends}
use c2j.Machine.Loop.Halting.{RoutesDown, descends, run_halts}

-- Values are numbers, templates are numbers, and a condition holds if it is "true".
abbrev tests : Conditions ℕ ℕ ℕ String
tests = record {
  holds = λ w s to when. ok (string_eq.beq when "true");
  render = λ w s to payload. ok payload;
}

-- Each node of a state counts one visit.
abbrev counter : Engine ℕ ℕ String ℕ ℕ ℕ ℕ
counter = record {
  scope = λ w m kind name body. body w;
  workspace = λ w m body. (none, (ok tt, w));
  child = λ w name s t. (ok tt, w);
  resolve_vars = λ w vars. (ok tt, w);
  execute_node = λ w node. (ok tt, 1 + w);
  prepare_hook = λ w name node. (ok node, w);
  conditions = tests;
  complete = λ w name. (ok tt, w);
}

abbrev plain : NodeMetadata ℕ ℕ
plain = record {
  id = "";
  workspace = none;
  vars = none;
  catch_clauses = [];
  retry = none;
  timeout = 0;
  rest = 0;
}

abbrev edge_to : String → String → Transition ℕ
edge_to to when = record { to = to; when = when; payload = [] }

abbrev build : State ℕ ℕ ℕ
build = record {
  node = node_op plain 0;
  transitions = edge_to "skip" "false" ∷ edge_to "done" "true" ∷ [];
}

abbrev done : State ℕ ℕ ℕ
done = record { node = node_op plain 1; transitions = [] }

abbrev machine : StateMap ℕ ℕ ℕ
machine = record {
  initial = edge_to "build" "true" ∷ [];
  states = ("build", build) ∷ ("done", done) ∷ [];
}

abbrev entry : TransitionData ℕ ℕ
entry = record { source = ""; to = "build"; payload = []; failure = none }

abbrev at_build : Position ℕ ℕ ℕ
at_build = record { name = "build"; transition = entry; world = 0; events = [] }

abbrev name_of : {V M E W : Type 0} → Outcome V M E W → String
name_of (finished p) = p.name
name_of _ = ""

runs_to_done : name_of (execute_state_machine counter [] machine 5 0) ≡ "done"
unfolding execute_state_machine start_run run step enter_state leave_state visit run_state
    run_state_attempt run_state_body node_without_vars node_without_policy node_without_retry lookup
    is_terminal_state evaluate_transitions evaluate_from take render_transition_payload
    evaluate_initial_state
runs_to_done = refl

abbrev to_done : TransitionData ℕ ℕ
to_done = record { source = "build"; to = "done"; payload = []; failure = none }

abbrev decision : TransitionDecision ℕ ℕ
decision = record { to = "done"; transition = to_done }

evaluate_transitions_iff_example :
    (evaluate_transitions ℕ tests 0 "build" build.transitions ≡ ok decision) ↔ (
      ((decision ≡ no_transition) × NoneTaken ℕ tests 0 "build" build.transitions)
      ⊎ FirstTaken ℕ tests 0 "build" decision build.transitions)
evaluate_transitions_iff_example =
    evaluate_transitions_iff ℕ tests 0 "build" build.transitions decision

next_of : Next ℕ ℕ String ℕ → Position ℕ ℕ ℕ
next_of (go_on q) = q
next_of _ = at_build

abbrev end_of : Outcome ℕ ℕ String ℕ → Position ℕ ℕ ℕ
end_of (finished p) = p
end_of _ = at_build

abbrev second : Position ℕ ℕ ℕ
second = next_of (step counter [] machine at_build)

second-step : step counter [] machine at_build ≡ go_on second
unfolding step enter_state leave_state visit run_state run_state_attempt run_state_body
    node_without_vars node_without_policy node_without_retry lookup is_terminal_state
    evaluate_transitions evaluate_from take render_transition_payload next_of
second-step = refl

step-Edge_example : Edge counter [] machine at_build second
step-Edge_example = step-Edge counter [] machine at_build second second-step

abbrev last : Position ℕ ℕ ℕ
last = end_of (run counter [] machine 2 at_build)

run_last : run counter [] machine 2 at_build ≡ finished last
unfolding run step enter_state leave_state visit run_state run_state_attempt run_state_body
    node_without_vars node_without_policy node_without_retry lookup is_terminal_state
    evaluate_transitions evaluate_from take render_transition_payload
run_last = refl

run-Ends_example : Ends counter [] machine at_build last
run-Ends_example = run-Ends counter [] machine 2 at_build last run_last

abbrev rank : String → ℕ
rank name = if string_eq.beq name "build" then 1 else 0

descends_machine : descends rank machine.states ≡ true
unfolding descends every
descends_machine = refl

-- Of the machine without a way out, the body 0 is left by a route to "done".
abbrev outcome_of : Node ℕ ℕ ℕ → Result (Fault ℕ ℕ String) (Unit {0})
outcome_of (node_op m zero) =
    err (record { control = false; handled = false; route = some to_done; cause = none })
outcome_of _ = ok tt

abbrev jumper : Engine ℕ ℕ String ℕ ℕ ℕ ℕ
jumper = record counter { execute_node = λ w node. (outcome_of node, 1 + w) }

jumps :
    (w : ℕ) (t : TransitionData ℕ ℕ)
    → visit jumper [] w "build" build t ≡ (ok (visited (some to_done)), 1 + w)
unfolding visit run_state run_state_attempt run_state_body node_without_vars node_without_policy
jumps w t = refl

stays :
    (w : ℕ) (t : TransitionData ℕ ℕ) → visit jumper [] w "done" done t ≡ (ok (visited none), 1 + w)
unfolding visit run_state run_state_attempt run_state_body node_without_vars node_without_policy
stays w t = refl

-- A run by the route, from "build" to "done"
jumps_to_done : name_of (execute_state_machine jumper [] machine 2 0) ≡ "done"
unfolding execute_state_machine start_run run step enter_state leave_state visit run_state
    run_state_attempt run_state_body node_without_vars node_without_policy node_without_retry lookup
    is_terminal_state evaluate_transitions evaluate_from take render_transition_payload
    evaluate_initial_state
jumps_to_done = refl

-- A state that is no hook is visited as it is.
visited_as :
    (name : String) (s s' : State ℕ ℕ ℕ) (v v' w : ℕ) (t : TransitionData ℕ ℕ) (r : Visit ℕ ℕ)
    → ◌≡◌ {A = Step ℕ ℕ String ℕ (State ℕ ℕ ℕ)} (ok s, v) (ok s', v')
    → visit jumper [] v' name s' t ≡ (ok r, w)
    → (visit jumper [] v name s t).0 ≡ ok r
visited_as name s s' v v' w t r made h =
    let e : s' ≡ s = cc in
    let e' : v' ≡ v = cc in
    ap (λ o. o.0)
      (subst (λ v. visit jumper [] v name s t ≡ (ok r, w)) e'
        (subst (λ s. visit jumper [] v' name s t ≡ (ok r, w)) e h))

route_of :
    (r : Result (Fault ℕ ℕ String) (Visit ℕ ℕ)) (t u : TransitionData ℕ ℕ)
    → r ≡ ok (visited (some t))
    → r ≡ ok (visited (some u))
    → t ≡ u
route_of r t u h h' = cc

build_down :
    (v v' w : ℕ) (s s' : State ℕ ℕ ℕ) (t u : TransitionData ℕ ℕ)
    → build ≡ s
    → prepared jumper v "build" s ≡ (ok s', v')
    → visit jumper [] v' "build" s' t ≡ (ok (visited (some u)), w)
    → rank u.to < rank "build"
build_down v v' w s s' t u e made h =
    let made' : prepared jumper v "build" build ≡ (ok s', v') =
      subst (λ s. prepared jumper v "build" s ≡ (ok s', v')) (sym e) made in
    let again = visited_as "build" build s' v v' w t (visited (some u)) made' h in
    let low : 0 < 1 = omega arith in
    subst (λ u. rank u.to < rank "build") (route_of _ to_done u (ap (λ o. o.0) (jumps v t)) again)
      low

done_quiet :
    (v v' w : ℕ) (s s' : State ℕ ℕ ℕ) (t u : TransitionData ℕ ℕ)
    → done ≡ s
    → prepared jumper v "done" s ≡ (ok s', v')
    → visit jumper [] v' "done" s' t ≢ (ok (visited (some u)), w)
done_quiet v v' w s s' t u e made h =
    let made' : prepared jumper v "done" done ≡ (ok s', v') =
      subst (λ s. prepared jumper v "done" s ≡ (ok s', v')) (sym e) made in
    let again = visited_as "done" done s' v v' w t (visited (some u)) made' h in
    let quiet : (visit jumper [] v "done" done t).0 ≡ ok (visited none) =
      ap (λ o. o.0) (stays v t) in
    cc

-- The states are named by literals.
renamed :
    (key : String) (r : Position ℕ ℕ ℕ) (s : State ℕ ℕ ℕ) (u : TransitionData ℕ ℕ) (w : ℕ)
    → string_eq.beq key r.name ≡ true
    → Stay jumper [] machine r s (visited (some u)) w
    → (s' : State ℕ ℕ ℕ) × (v : ℕ) × (prepared jumper r.world key s ≡ (ok s', v))
      × (visit jumper [] v key s' r.transition ≡ (ok (visited (some u)), w))
renamed key r s u w h stay =
    subst
      (λ key.
        (s' : State ℕ ℕ ℕ) × (v : ℕ) × (prepared jumper r.world key s ≡ (ok s', v))
        × (visit jumper [] v key s' r.transition ≡ (ok (visited (some u)), w)))
      (sym ((string_eq.beq_iff key r.name).0 h))
      (stay.prepared_state, stay.prepared_world, stay.prepares, stay.visits)

jumper_down : (r : Position ℕ ℕ ℕ) → RoutesDown jumper [] machine rank r
unfolding lookup
jumper_down r s u w stay = elim (picked (string_eq.beq "build" r.name) _ build s stay.known) [
  | inl (same, e) ↦
      let (s', v, made, h) = renamed "build" r s u w same stay in
      subst (λ name. rank u.to < rank name) ((string_eq.beq_iff "build" r.name).0 same)
        (build_down r.world v w s s' r.transition u e made h)
  | inr later ↦ elim (picked (string_eq.beq "done" r.name) _ done s later) [
    | inl (same, e) ↦
        let (s', v, made, h) = renamed "done" r s u w same stay in
        elim (done_quiet r.world v w s s' r.transition u e made h) [ ]
    | inr never ↦ cc
  ]
]

run_halts_example : run jumper [] machine 2 at_build ≢ unfinished at_build
run_halts_example =
    run_halts jumper [] machine rank 2 at_build at_build descends_machine (λ r t. jumper_down r)
      (omega arith)

abbrev flat : Renderer ℕ ℕ ℕ ℕ String
flat = record {
  with_failure = λ c f. 1 + c;
  evaluate = λ c when. ok (string_eq.beq when "true");
  resolve_map = λ c entries. ok entries;
  interpolate = λ c t. ok t;
  interpolate_text = λ c t. ok 0;
  text = λ v. "text";
}

abbrev crash : RuntimeFailure ℕ ℕ
crash = first (record {
  kind = "timeout";
  code = "late";
  message = "took too long";
  retryable = true;
  node = record { id = "build"; path = "main/build"; node_type = "op"; op = "shell" };
  timing = none;
  material = none;
  attrs = none;
})

abbrev clause_when : String → String → CatchClause ℕ
clause_when when to = record {
  id = "";
  when = when;
  to = to;
  payload = ("limit", 3) ∷ [];
  continue_outputs = none;
  fail = none;
}

abbrev rewriting : CatchClause ℕ
rewriting = record {
  id = "rewrite";
  when = "true";
  to = "";
  payload = [];
  continue_outputs = none;
  fail = some (record { kind = ""; code = ""; message = "gave up"; cause = some 7 });
}

abbrev catches : List (CatchClause ℕ)
catches = clause_when "false" "done" ∷ rewriting ∷ []

-- The decision of a run, or else none.
abbrev decided : {E V M : Type 0} → Result E (CatchDecision V M) → CatchDecision V M
decided (ok d) = d
decided (err e) = no_decision

abbrev chosen : CatchDecision ℕ ℕ
chosen = decided (evaluate_catch_clauses flat catches (some crash) 0 false)

evaluated : evaluate_catch_clauses flat catches (some crash) 0 false ≡ ok chosen
unfolding evaluate_catch_clauses try_clauses try_clause handle handle_here render_catch_failure
    render_field render_cause
evaluated = refl

catch-Fits_example : Fits false crash chosen
catch-Fits_example = catch-Fits flat catches crash 0 false chosen evaluated

catch_first_example : (evaluate_catch_clauses flat catches (some crash) 0 false ≡ ok chosen) ↔ (
    ((chosen ≡ no_decision) × AllPass flat false 1 crash catches)
    ⊎ Decides flat false 1 crash chosen catches)
catch_first_example = catch_first flat catches crash 0 false chosen
