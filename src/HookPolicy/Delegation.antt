-- ===== src/HookPolicy/Delegation.antt =====
-- pkg/hookpolicy/policy.go: `Entry.Authority`, the state that a hook runs with.
pub mod Confinement
pub mod Safety
use c2j.Prelude.{String, Bool, true, false, not, ◌&&◌, Option, none, some, List, [], ◌∷◌}
use c2j.Prelude.{◌==◌, string_eq, keep_if, lookup, if◌then◌else◌}
use c2j.Prelude.{Result, ok, err, ◌>>=◌, ◌>>◌, reject_if}
use c2j.Permissions.Grant.{JobDb}
use c2j.Permissions.Scope.{
  Spec, State, if_some, narrow, limit_of, spec_grant, spec_limit, validate_spec, enter,
  current_version,
}
use c2j.HookPolicy.{
  Error, nil_trust, secret_untrusted, submit_untrusted, create_untrusted, lift, Trust, SourceTrust,
  Entry, allows_commit, grant_of, validate_entry,
}

-- `e.Trust.Secrets[name]`, with the zero value for a name that is missing
abbrev pub trust_of : Option Trust → Trust
trust_of none = record { mode = ""; commit = "" }
trust_of (some t) = t

-- The loop over the secrets of the entry.
unfoldable pub check_secrets :
    List (String × Trust) → String → List String → Result Error (Unit {0})
check_secrets trusts commit [] = ok tt
check_secrets trusts commit (name ∷ names) =
    reject_if (not (allows_commit (trust_of (lookup name trusts)) commit))
      (secret_untrusted name commit)
    >> check_secrets trusts commit names

-- `if granted && !trust.Allows(commit)`
abbrev pub check_action : Bool → Option Trust → String → Error → Result Error (Unit {0})
check_action false t commit e = ok tt
check_action true none commit e = err nil_trust
check_action true (some t) commit e = reject_if (not (allows_commit t commit)) e

-- The loop over the limits: a nil limit is skipped.
unfoldable pub narrow_all : JobDb → List (Option JobDb) → JobDb
narrow_all g [] = g
narrow_all g (l ∷ ls) = narrow_all (narrow g l) ls

abbrev pub limits : Entry → State → Option Spec → List (Option JobDb)
limits e parent call =
    parent.limit ∷ limit_of e.perms.limit ∷ spec_grant call ∷ spec_limit call ∷ []

abbrev pub is_candidate : Trust → Bool
is_candidate t = t.mode == "candidate"

-- `granted && trust.Mode == "candidate"`
abbrev pub child_action : Bool → Option Trust → Result Error Bool
child_action false t = ok false
child_action true none = err nil_trust
child_action true (some t) = ok (is_candidate t)

abbrev pub child_names : Bool → Option (List String) → Option (List String)
child_names true names = names
child_names false names = none

-- What a child recipe of the hook is granted.
unfoldable pub child_grant : SourceTrust → JobDb → Result Error JobDb
child_grant trust g = do
  submit ← child_action g.jobs.submit trust.submit
  create ← child_action g.cells.create trust.create_cells
  ok (record {
    secrets = record {
      resolve =
          keep_if (λ name. is_candidate (trust_of (lookup name trust.secrets))) g.secrets.resolve;
    };
    jobs = record { cell_names = child_names submit g.jobs.cell_names; submit = submit };
    cells = record { create = create; cell_names = child_names create g.cells.cell_names };
  })

abbrev pub hook_state : JobDb → JobDb → State
hook_state g child = record {
  child_grant = some child;
  child_policy = [];
  version = current_version;
  grant = some g;
  limit = some g;
  inputs = some (record { root_repository = ""; foreign = true; allowed = g.secrets.resolve });
  overrides = [];
}

module _ (valid_cell : String → Bool) where
  -- The edits of a call that inherits.
  unfoldable pub enter_call : State → Option Spec → Result Error State
  enter_call s none = ok s
  enter_call s (some call) =
      if call.inherit
      then lift (
          enter valid_cell s (
            some
              (record { job_db = none; limit = none; inherit = true; overrides = call.overrides })))
      else ok s

  -- The tests on the entry, the commit and the call.
  unfoldable pub check_hook : Entry → String → Option Spec → Result Error (Unit {0})
  check_hook e commit call = do
    validate_entry valid_cell e
    let g = grant_of e.perms.job_db
    check_secrets e.trust.secrets commit g.secrets.resolve
    check_action g.jobs.submit e.trust.submit commit (submit_untrusted commit)
    check_action g.cells.create e.trust.create_cells commit (create_untrusted commit)
    lift (if_some (validate_spec valid_cell) call)

  -- `Authority`
  unfoldable pub authority : Entry → String → State → Option Spec → Result Error State
  authority e commit parent call = do
    check_hook e commit call
    let g = narrow_all (grant_of e.perms.job_db) (limits e parent call)
    child ← child_grant e.trust g
    enter_call (hook_state g child) call
