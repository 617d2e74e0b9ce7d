-- ===== src/SelfInfo.antt =====
-- pkg/selfinfo/info.go: `SetCapabilities`, which says of each action of an execution whether policy
-- grants it and whether it can be used now. The statuses that are constants of a string type there
-- are data types here; those of the lease and of the ceiling, which come from outside, are strings.
-- `B` stands for the bounds on submission of the delegation.
pub mod Laws
mod Tests
use Prim.Native.String.{◌++◌ as text_append}
use c2j.Prelude.{
  String, Bool, true, false, not, ◌&&◌, ◌||◌, Option, none, some, List, [], ◌∷◌, ◌++◌,
}
use c2j.Prelude.{string_eq, ◌==◌, nat_beq, if◌then◌else◌, is_nil, keep_if}
use c2j.Prelude.{has_prefix}
use c2j.Permissions.Grant.{JobDb}

pub data Standing : Type 0 where
  permission_unknown denied granted : Standing

pub data Availability : Type 0 where
  availability_unknown unavailable ready : Availability

pub record Capability (B : Type 0) : Type 0 where
  pub submit_scope : Option B
  pub permission : Standing
  pub availability : Availability
  pub route : Option String
  pub command : Option String
  pub reason_code : Option String
  pub submission_kind : String
  pub names : List String
  pub restrictions : List String

-- The fields of `Info` that `SetCapabilities` reads, and the capabilities. `parent_submit` is
-- `ParentBounds.Permissions.Submit`, where there are parent bounds.
pub record Info (B : Type 0) : Type 0 where
  pub lease_status : String
  pub job_db : Option JobDb
  pub parent_submit : Option (Option B)
  pub ceiling_status : String
  pub inherited_denials : List String
  pub capabilities : List (String × Capability B)

-- The arguments `submit`, `workspace`, `secretHelper` and the first of `createCells`, if any.
pub record Routes : Type 0 where
  pub submit : Bool
  pub workspace : Bool
  pub secret_helper : Bool
  pub create_cells : Bool

-- Whether the grant allows the action at all
unfoldable pub allowed : JobDb → String → Bool
allowed g action =
    if action == "cells.create"
    then g.cells.create
    else if action == "secrets.resolve"
    then not (is_nil g.secrets.resolve)
    else g.jobs.submit

abbrev cell_names : Option (List String) → List String
cell_names none = []
cell_names (some names) = names

unfoldable pub granted_names : JobDb → String → List String → List String
granted_names g action old =
    if action == "cells.create"
    then cell_names g.cells.cell_names
    else if action == "secrets.resolve"
    then g.secrets.resolve
    else old

unfoldable pub route_ready : Routes → String → Bool
route_ready r action =
    if action == "jobs.submit_from_workspace" || action == "jobs.submit_from_workspace_now"
    then r.submit && r.workspace
    else if action == "secrets.resolve"
    then r.secret_helper
    else if action == "cells.create"
    then r.create_cells
    else r.submit

abbrev pub is_lost : String → Bool
is_lost status = status == "lost" || status == "expired" || status == "cancelled"

-- The denial that the policy of a node lists for the action
unfoldable pub denial_of : String → String
denial_of action =
    text_append "perms.jobdb." (if has_prefix action "jobs.submit" then "jobs.submit" else action)

abbrev pub is_denied : Standing → Bool
is_denied permission_unknown = false
is_denied denied = true
is_denied granted = false

abbrev pub is_ready : Availability → Bool
is_ready ready = true
is_ready unavailable = false
is_ready availability_unknown = false

module _ {B : Type 0} where
  -- The first part of the loop's body: what policy says.
  unfoldable pub apply_policy : Option JobDb → String → Capability B → Capability B
  apply_policy none action c = record c {
    permission = permission_unknown;
    availability = availability_unknown;
    reason_code = some "permission_unknown";
    restrictions = [];
  }
  apply_policy (some g) action c = record c {
    permission = if allowed g action then granted else denied;
    availability = if allowed g action then ready else unavailable;
    reason_code = if allowed g action then none else some "permission_denied";
    restrictions = [];
    names = granted_names g action c.names;
  }

  unfoldable pub apply_route : Routes → String → Capability B → Capability B
  apply_route r action c =
      let open_route = route_ready r action in
      record c {
        submission_kind =
            if action == "cells.create" || action == "secrets.resolve" then "" else "child";
        route =
            if open_route
            then some (
                if action == "secrets.resolve" then "runtime_secret_helper" else "child_job_broker")
            else none;
        availability = if open_route then c.availability else unavailable;
        reason_code =
            if open_route || is_denied c.permission
            then c.reason_code
            else some "route_unavailable";
      }

  unfoldable pub apply_lease : String → Capability B → Capability B
  apply_lease status c =
      if is_lost status
      then record c {
        availability = unavailable;
        reason_code = some (text_append "execution_" status);
      }
      else if status == "unknown" && is_ready c.availability
      then record c {
        availability = availability_unknown;
        reason_code = some "lease_state_unknown";
      }
      else c

  abbrev pub or_bounds : Option (Option B) → Option B → Option B
  or_bounds none old = old
  or_bounds (some bounds) old = bounds

  unfoldable pub apply_bounds : Info B → String → Capability B → Capability B
  apply_bounds i action c =
      let is_job = not (action == "secrets.resolve") && not (action == "cells.create") in
      record c {
        submit_scope = if is_job then or_bounds i.parent_submit c.submit_scope else c.submit_scope;
        restrictions =
            (if is_job && (i.ceiling_status == "known")
              then "inherited_child_ceiling" ∷ []
              else c.restrictions)
            ++ keep_if (λ field. field == denial_of action) i.inherited_denials;
      }

  -- The body of the loop
  unfoldable pub set_capability : Routes → Info B → String → Capability B → Capability B
  set_capability r i action c =
      if action == "jobs.inspect"
      then c
      else apply_bounds i action
          (apply_lease i.lease_status (apply_route r action (apply_policy i.job_db action c)))

  unfoldable pub set_all :
      Routes → Info B → List (String × Capability B) → List (String × Capability B)
  set_all r i [] = []
  set_all r i ((action, c) ∷ rest) = (action, set_capability r i action c) ∷ set_all r i rest

  -- `SetCapabilities`
  unfoldable pub set_capabilities : Routes → Info B → Info B
  set_capabilities r i = record i { capabilities = set_all r i i.capabilities }
