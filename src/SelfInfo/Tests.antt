-- ===== src/SelfInfo/Tests.antt =====
-- The theorem on capabilities at a concrete report.
use c2j.Prelude.{
  String, true, false, Option, none, some, [], ◌∷◌, ◌≡◌, refl, lookup, keep_if, string_eq,
}
use c2j.SelfInfo.{
  Capability, Info, Routes, permission_unknown, availability_unknown, set_capabilities, set_all,
  set_capability, apply_policy, apply_route, apply_lease, apply_bounds, allowed, granted_names,
  route_ready, denial_of,
}
use c2j.SelfInfo.Laws.{Reported, set_capabilities-Reported}

abbrev blank : Capability String
blank = record {
  submit_scope = none;
  permission = permission_unknown;
  availability = availability_unknown;
  route = none;
  command = some "c2j submit";
  reason_code = none;
  submission_kind = "";
  names = [];
  restrictions = [];
}

abbrev info : Info String
info = record {
  lease_status = "active";
  job_db = some (record {
    secrets = record { resolve = "token" ∷ [] };
    jobs = record { cell_names = none; submit = true };
    cells = record { create = false; cell_names = none };
  });
  parent_submit = none;
  ceiling_status = "known";
  inherited_denials = "perms.jobdb.cells.create" ∷ [];
  capabilities = ("jobs.submit", blank) ∷ ("cells.create", blank) ∷ ("secrets.resolve", blank) ∷ [];
}

abbrev routes : Routes
routes = record { submit = true; workspace = false; secret_helper = true; create_cells = true }

found : Option (Capability String) → Capability String
found none = blank
found (some c) = c

abbrev cells : Capability String
cells = found (lookup "cells.create" (set_capabilities routes info).capabilities)

cells_found : lookup "cells.create" (set_capabilities routes info).capabilities ≡ some cells
unfolding found lookup set_capabilities set_all set_capability apply_policy apply_route apply_lease
    apply_bounds allowed granted_names route_ready denial_of keep_if
cells_found = refl

set_capabilities_example : Reported routes info "cells.create" cells
set_capabilities_example =
    set_capabilities-Reported routes info "cells.create" cells refl cells_found
