-- ===== src/Permissions/Tests.antt =====
-- The theorems on grants at concrete policies.
use c2j.Prelude.{
  String, Bool, true, false, ◌&&◌, Option, none, some, List, [], ◌∷◌, ◌≡◌, ◌≢◌, refl, ◌↔◌, ◌⊎◌, inl,
  ◌+◌,
}
use c2j.Prelude.{string_eq, contains, every, is_nil, not, keep_if, Result, ok, err, ℕ}
use c2j.Prelude.Sorting.{sort, compact}
use c2j.Permissions.Errors.{Error}
use c2j.Permissions.Grant.{
  JobDb, intersect, subset, validate, check_names, check_cell_names, secret_name, common_names,
  within,
}
use c2j.Permissions.Overrides.{JobDbOverrides, apply, empty}
use c2j.Permissions.Overrides
use c2j.Permissions.Scope.{
  State, Spec, resolve, declared, start, apply_all, check_limit, enter, entered, enter_include,
  include_state, validate_include, validate_spec, check_input, check_inputs, last_names,
  inherited_denials,
}
use c2j.Permissions.Authority.{Action, allows, permits, allows-intersect}
use c2j.Permissions.Confinement.{
  Entry, node, include, nest, imposed, ceiling, defaults, nest-confined, resolve_defaults,
}
use c2j.Permissions.Denials.{inherited_denials_sound}
use c2j.Permissions.Inputs.{IsValid, validate_iff, include_no_new_inputs}
use c2j.Permissions.Access.{
  Access, Callback, Secrets, submit, check_secrets, filter_secrets, filtered, resolve_inputs,
}
use c2j.Permissions.Access.{resolve as access_resolve}
use c2j.Permissions.Access.Laws.{resolve_reveals, submit_allowed, resolve_inputs_reveals}

abbrev any : String → Bool
any name = true

abbrev wide : JobDb
wide = record {
  secrets = record { resolve = "a" ∷ "b" ∷ [] };
  jobs = record { cell_names = some ("east" ∷ "west" ∷ []); submit = true };
  cells = record { create = false; cell_names = none };
}

abbrev narrow_grant : JobDb
narrow_grant = record {
  secrets = record { resolve = "b" ∷ [] };
  jobs = record { cell_names = some ("west" ∷ []); submit = true };
  cells = record { create = false; cell_names = none };
}

abbrev root : State
root = record {
  child_grant = none;
  child_policy = [];
  version = 1;
  grant = none;
  limit = some wide;
  inputs = none;
  overrides = [];
}

abbrev grants : JobDb → Option Spec
grants g = some (record { job_db = some g; limit = none; inherit = false; overrides = none })

abbrev limits : JobDb → Option Spec
limits g = some (record {
  job_db = none;
  limit = some (record { job_db = some g });
  inherit = false;
  overrides = none;
})

abbrev state_of : Result Error State → State
state_of (ok s) = s
state_of (err e) = root

-- Every definition that a run of the policy computes with.
run : List Entry → State
unfolding nest enter entered enter_include include_state validate_include validate_spec resolve
    declared start apply_all check_limit check_inputs check_input last_names intersect subset within
    validate check_names check_cell_names secret_name common_names contains keep_if every sort
    compact Overrides.validate apply empty
run es = state_of (nest any root es)

abbrev way_in : List Entry
way_in = node (grants wide) ∷ include (limits narrow_grant) true false ∷ []

abbrev leaf : State
leaf = run way_in

abbrev resolved_leaf : JobDb
resolved_leaf = record {
  secrets = record { resolve = [] };
  jobs = record { cell_names = some ("west" ∷ []); submit = true };
  cells = record { create = false; cell_names = none };
}

nest-confined_example :
    (ceiling root.limit (Action.submit_to "west") ≡ true)
    × (every (λ e. imposed e (Action.submit_to "west")) way_in ≡ true)
unfolding run allows permits
nest-confined_example =
    nest-confined any root way_in leaf [] resolved_leaf (Action.submit_to "west") refl refl refl

allows-intersect_example :
    allows (intersect wide narrow_grant) (Action.submit_to "west")
    ≡ (allows wide (Action.submit_to "west") && allows narrow_grant (Action.submit_to "west"))
allows-intersect_example = allows-intersect wide narrow_grant (Action.submit_to "west")

resolve_defaults_example : allows resolved_leaf (Action.submit_to "west") ≡ (
    allows (defaults []) (Action.submit_to "west") && ceiling leaf.limit (Action.submit_to "west"))
unfolding run
resolve_defaults_example =
    resolve_defaults any leaf [] resolved_leaf (Action.submit_to "west") refl refl refl

abbrev granted : State
granted = run (node (grants narrow_grant) ∷ [])

validate_iff_example : (validate any wide ≡ ok tt) ↔ IsValid any wide
validate_iff_example = validate_iff any wide

-- "a" is in the limit and in the grant of the including node, and the include passes it on.
include_no_new_inputs_example : check_input (run (node (grants wide) ∷ [])) "a" ≡ ok tt
unfolding run
include_no_new_inputs_example =
    include_no_new_inputs any (run (node (grants wide) ∷ [])) (grants wide) true
      (run (node (grants wide) ∷ include (grants wide) true false ∷ [])) "a" refl refl

abbrev no_submit : JobDbOverrides
no_submit = record {
  secrets = record { resolve = none };
  jobs = record { submit = some false; cell_names = none };
  cells = record { create = none; cell_names = none };
}

abbrev muted : State
muted = run (
    node (some (record { job_db = none; limit = none; inherit = true; overrides = some no_submit }))
    ∷ [])

abbrev muted_grant : JobDb
muted_grant = record {
  secrets = record { resolve = [] };
  jobs = record { cell_names = none; submit = false };
  cells = record { create = false; cell_names = none };
}

inherited_denials_example :
    ((contains (inherited_denials muted) "perms.jobdb.jobs.submit" && muted_grant.jobs.submit)
      ≡ false)
    × ((contains (inherited_denials muted) "perms.jobdb.cells.create" && muted_grant.cells.create)
        ≡ false)
    × ((contains (inherited_denials muted) "perms.jobdb.secrets.resolve"
          && not (is_nil muted_grant.secrets.resolve))
        ≡ false)
unfolding run
inherited_denials_example = inherited_denials_sound any muted [] muted_grant refl

denial_is_reported : contains (inherited_denials muted) "perms.jobdb.jobs.submit" ≡ true
unfolding run inherited_denials
denial_is_reported = refl

-- A controller whose world counts calls.
abbrev provide : Callback ℕ (List String) (Secrets ℕ)
provide w names = (ok (λ k. some 7), w + 1)

abbrev access : Access ℕ String ℕ String ℕ ℕ
access = record {
  grant = narrow_grant;
  resolve = some provide;
  submit = some (λ w job. (ok 1, w + 1));
  create_cell = some (λ w name. (ok 1, w + 1));
}

abbrev asked : List String
asked = "b" ∷ []

abbrev asked_input : List String
asked_input = "a" ∷ []

resolve_reveals_example :
    (contains asked "b" ≡ true) × (allows narrow_grant (Action.resolve_secret "b") ≡ true)
unfolding access_resolve check_secrets filtered filter_secrets contains
resolve_reveals_example =
    resolve_reveals access none none none 0 1 asked (filter_secrets (λ k. some 7) asked) "b" 7 refl
      refl

submit_allowed_example : (submit access (λ job. job) none 0 "east").1 ≡ 0
unfolding allows permits contains
submit_allowed_example = submit_allowed access (λ job. job) none 0 "east" (inl refl)

resolve_inputs_reveals_example :
    (contains asked_input "a" ≡ true)
    × ((some provide ≡ none) × (allows narrow_grant (Action.resolve_secret "a") ≡ true)
        ⊎ (some provide ≢ none) × (contains asked_input "a" ≡ true))
unfolding resolve_inputs access_resolve check_secrets filtered filter_secrets contains
resolve_inputs_reveals_example =
    resolve_inputs_reveals access (some provide) none none none 0 1 asked_input asked_input
      (filter_secrets (λ k. some 7) asked_input) "a" 7 refl refl
