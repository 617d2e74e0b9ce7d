-- ===== src/Machine/Node.antt =====
-- pkg/worker/compiler/statemachine_compiler.go: the nodes of a recipe and the copies that the state
-- machine makes of them, without variables, without policy or without retries. `Meta` stands for
-- the metadata that these functions leave alone, `Body` for what a node holds beside its metadata.
use c2j.Prelude.{ℕ, String, Option, none, List, []}
use c2j.Machine.Failure.{CatchClause}

pub record NodeMetadata (T Meta : Type 0) : Type 0 where
  pub id : String
  pub workspace : Option Meta
  pub vars : Option Meta
  pub catch_clauses : List (CatchClause T)
  pub retry : Option Meta
  pub timeout : ℕ
  pub rest : Meta

-- `NodeImpl`; `no_node` is the nil interface, or an implementation that the switches do not name.
pub data Node (T Meta Body : Type 0) : Type 0 where
  node_op : NodeMetadata T Meta → Body → Node T Meta Body
  node_include : NodeMetadata T Meta → Body → Node T Meta Body
  node_sequence : NodeMetadata T Meta → Body → Node T Meta Body
  node_state : NodeMetadata T Meta → Body → Node T Meta Body
  node_child_group : NodeMetadata T Meta → Body → Node T Meta Body
  no_node : NodeMetadata T Meta → Body → Node T Meta Body

module _ {T Meta Body : Type 0} where
  -- `GetMetadata`
  abbrev pub metadata : Node T Meta Body → NodeMetadata T Meta
  metadata (node_op m b) = m
  metadata (node_include m b) = m
  metadata (node_sequence m b) = m
  metadata (node_state m b) = m
  metadata (node_child_group m b) = m
  metadata (no_node m b) = m

  -- The switch over the five kinds of node that each of the copies makes.
  abbrev pub with_metadata :
      (NodeMetadata T Meta → NodeMetadata T Meta) → Node T Meta Body → Node T Meta Body
  with_metadata f (node_op m b) = node_op (f m) b
  with_metadata f (node_include m b) = node_include (f m) b
  with_metadata f (node_sequence m b) = node_sequence (f m) b
  with_metadata f (node_state m b) = node_state (f m) b
  with_metadata f (node_child_group m b) = node_child_group (f m) b
  with_metadata f (no_node m b) = no_node m b

  unfoldable pub node_without_vars : Node T Meta Body → Node T Meta Body
  node_without_vars =
      with_metadata λ m. record m { workspace = none; vars = none; catch_clauses = [] }

  unfoldable pub node_without_policy : Node T Meta Body → Node T Meta Body
  node_without_policy =
      with_metadata λ m. record m { retry = none; timeout = 0; catch_clauses = [] }

  unfoldable pub node_without_retry : Node T Meta Body → Node T Meta Body
  node_without_retry = with_metadata λ m. record m { retry = none }
