-- ===== src/Machine/Failure.antt =====
-- pkg/recipe/failure.go, catch.go and state.go: a failure, the clauses that catch it, and the
-- transitions of a state. `V` is a rendered value, `T` one that is still to be rendered.
use c2j.Prelude.{String, Bool, Option, List}

-- A Go map with string keys.
abbrev pub Map : Type 0 → Type 0
Map V = List (String × V)

pub record FailureNode : Type 0 where
  pub id : String
  pub path : String
  pub node_type : String
  pub op : String

pub record FailureTiming : Type 0 where
  pub timeout : String
  pub scope : String
  pub after : String

-- The fields of `RuntimeFailure` but the cause. Nothing here reads the task or the artifacts,
-- which `M` stands for.
pub record Report (V M : Type 0) : Type 0 where
  pub kind : String
  pub code : String
  pub message : String
  pub retryable : Bool
  pub node : FailureNode
  pub timing : Option FailureTiming
  pub material : Option M
  pub attrs : Option (Map V)

-- A failure without a cause, or one with it.
pub data RuntimeFailure (V M : Type 0) : Type 0 where
  first : Report V M → RuntimeFailure V M
  caused : Report V M → RuntimeFailure V M → RuntimeFailure V M

pub record CatchFail (T : Type 0) : Type 0 where
  pub kind : String
  pub code : String
  pub message : String
  pub cause : Option T

pub record CatchClause (T : Type 0) : Type 0 where
  pub id : String
  pub when : String
  pub to : String
  pub payload : Map T
  pub continue_outputs : Option (Map T)
  pub fail : Option (CatchFail T)

pub record Transition (T : Type 0) : Type 0 where
  pub to : String
  pub when : String
  pub payload : Map T

-- pkg/template/transition.go
pub record TransitionData (V M : Type 0) : Type 0 where
  pub source : String
  pub to : String
  pub payload : Map V
  pub failure : Option (RuntimeFailure V M)

module _ {V M : Type 0} where
  abbrev pub report : RuntimeFailure V M → Report V M
  report (first r) = r
  report (caused r f) = r

  -- The failure at the end of the chain of causes.
  abbrev pub origin : RuntimeFailure V M → Report V M
  origin (first r) = r
  origin (caused r f) = origin f
