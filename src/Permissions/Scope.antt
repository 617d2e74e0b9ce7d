-- ===== src/Permissions/Scope.antt =====
-- pkg/permissions/policy.go and inputs.go: the lexical policy of a node, and how a spec enters it.
-- `clone` copies a value that is immutable here. `Enter` and `EnterInclude` also return the state
-- beside an error, which their callers drop: the model returns the error alone.
use c2j.Prelude.{
  ℕ, String, Bytes, Bool, true, false, not, ◌&&◌, ◌||◌, Option, none, some, List, [], ◌∷◌, ◌++◌,
}
use c2j.Prelude.{◌==◌, nat_eq, string_eq, contains, is_nil, if◌then◌else◌}
use c2j.Prelude.{Result, ok, err, ◌>>=◌, ◌>>◌, reject_if}
use c2j.Prelude.Sorting.{sort, compact}
use c2j.Permissions.Errors.{Error, mixed_spec, unsupported_version, exceeds_limit}
use c2j.Permissions.Errors.{input_exceeds_limit, input_denied, include_needs_ceiling}
use c2j.Permissions.Grant.{JobDb, intersect, subset}
use c2j.Permissions.Grant
use c2j.Permissions.Overrides.{JobDbOverrides, apply, empty, is_none}
use c2j.Permissions.Overrides

pub record Limit : Type 0 where
  pub job_db : Option JobDb

pub record Spec : Type 0 where
  pub job_db : Option JobDb
  pub limit : Option Limit
  pub inherit : Bool
  pub overrides : Option JobDbOverrides

pub record InputPolicy : Type 0 where
  pub root_repository : String
  pub foreign : Bool
  pub allowed : List String

-- The child policy is carried as raw JSON and never read.
pub record State : Type 0 where
  pub child_grant : Option JobDb
  pub child_policy : Bytes
  pub version : ℕ
  pub grant : Option JobDb
  pub limit : Option JobDb
  pub inputs : Option InputPolicy
  pub overrides : List JobDbOverrides

abbrev pub current_version : ℕ
current_version = 1

abbrev pub is_some {ℓ} : {A : Type ℓ} → Option A → Bool
is_some none = false
is_some (some a) = true

-- The nested pointer `spec.Limit.JobDB`.
abbrev pub limit_of : Option Limit → Option JobDb
limit_of none = none
limit_of (some l) = l.job_db

abbrev pub if_some {ℓ} :
    {A : Type ℓ} → (A → Result Error (Unit {0})) → Option A → Result Error (Unit {0})
if_some check none = ok tt
if_some check (some a) = check a

-- A ceiling narrowed by the one that encloses it.
abbrev pub narrow : JobDb → Option JobDb → JobDb
narrow g none = g
narrow g (some l) = intersect g l

abbrev pub tighten : Option JobDb → Option JobDb → Option JobDb
tighten none limit = limit
tighten (some g) limit = some (narrow g limit)

-- An empty override is not recorded.
abbrev pub add_overrides : Option JobDbOverrides → List JobDbOverrides → List JobDbOverrides
add_overrides none old = old
add_overrides (some p) old = if empty p then old else old ++ p ∷ []

-- The changes that `Enter` makes to the state before it resolves.
unfoldable pub entered : Option Spec → State → State
unfolding empty
entered none s = record s { version = current_version }
entered (some spec) s =
    let declares = is_some spec.job_db in
    record s {
      version = current_version;
      limit = tighten (limit_of spec.limit) s.limit;
      grant = if declares then spec.job_db else s.grant;
      overrides = add_overrides spec.overrides (if declares then [] else s.overrides);
    }

abbrev pub override_names : Option (Option (List String)) → List String → List String
override_names none names = names
override_names (some none) names = []
override_names (some (some set)) names = set

abbrev pub granted_names : Option JobDb → List String
granted_names none = []
granted_names (some g) = g.secrets.resolve

abbrev pub outside : Option JobDb → String → Bool
outside none name = false
outside (some l) name = not (contains l.secrets.resolve name)

abbrev pub trusted_input : Option InputPolicy → String → Bool
trusted_input none name = false
trusted_input (some i) name = not i.foreign || contains i.allowed name

-- The names that overrides make explicit: the last list wins.
unfoldable pub last_names : List String → List JobDbOverrides → List String
last_names names [] = names
last_names names (p ∷ ps) = last_names (override_names p.secrets.resolve names) ps

-- `CheckInput`
unfoldable pub check_input : State → String → Result Error (Unit {0})
unfolding last_names
check_input s name =
    if name == ""
    then ok tt
    else if outside s.limit name
    then err (input_exceeds_limit name)
    else if trusted_input s.inputs name
    then ok tt
    else if contains (last_names (granted_names s.grant) s.overrides) name
    then ok tt
    else err (input_denied name)

unfoldable pub check_inputs : State → List String → Result Error (Unit {0})
check_inputs s [] = ok tt
check_inputs s (name ∷ names) = check_input s name >> check_inputs s names

abbrev pub spec_grant : Option Spec → Option JobDb
spec_grant none = none
spec_grant (some spec) = spec.job_db

abbrev pub spec_limit : Option Spec → Option JobDb
spec_limit none = none
spec_limit (some spec) = limit_of spec.limit

-- The secret names of the callsite's grant.
abbrev pub callsite_names : Option Spec → List String
callsite_names spec = granted_names (spec_grant spec)

-- The secret list of the callsite's overrides.
abbrev pub list_of : Option JobDbOverrides → Option (Option (List String))
list_of none = none
list_of (some p) = p.secrets.resolve

abbrev pub spec_overrides : Option Spec → Option (Option (List String))
spec_overrides none = none
spec_overrides (some spec) = list_of spec.overrides

abbrev lacks_ceiling : Option Spec → Bool
lacks_ceiling spec = is_none (spec_grant spec) && is_none (spec_limit spec)

abbrev pub include_edit : Option Spec → Option Spec
include_edit none = none
include_edit (some spec) =
    some
      (record { job_db = none; limit = none; inherit = spec.inherit; overrides = spec.overrides })

-- The inputs that the included recipe may read: the callsite's list, and across a boundary no more.
abbrev pub include_inputs : Option InputPolicy → List String → Bool → Bool → InputPolicy
include_inputs none names boundary trusted = record {
  root_repository = "";
  foreign = not trusted;
  allowed = names;
}
include_inputs (some i) names boundary trusted = record {
  root_repository = i.root_repository;
  foreign = not trusted;
  allowed = if boundary then names else i.allowed ++ names;
}

-- The state that `EnterInclude` hands to `Enter`: the callsite's grant has become a ceiling.
unfoldable pub include_state : State → Option Spec → Bool → Bool → State
include_state s spec boundary trusted =
    let resets = boundary || is_some (spec_grant spec) in
    record s {
      grant = if resets then none else s.grant;
      overrides = if resets then [] else s.overrides;
      limit = tighten (spec_limit spec) (tighten (spec_grant spec) s.limit);
      inputs = some (include_inputs s.inputs (callsite_names spec) boundary trusted);
    }

-- The grant before limit and overrides: the one declared, or the defaults.
unfoldable pub declared : State → List String → JobDb
declared s git = elim s.grant [
  | none ↦ record {
    secrets = record { resolve = compact (sort git) };
    jobs = record { cell_names = none; submit = true };
    cells = record { create = false; cell_names = none };
  }
  | some g ↦ record g { secrets = record { resolve = compact (sort g.secrets.resolve) } }
]

-- The last test of `Resolve`.
unfoldable pub check_limit : Option JobDb → JobDb → Result Error JobDb
check_limit none g = ok g
check_limit (some l) g = if subset g l then ok g else err exceeds_limit

module _ (valid_cell : String → Bool) where
  unfoldable pub validate_spec : Spec → Result Error (Unit {0})
  validate_spec p = do
    reject_if ((p.inherit && is_some p.job_db) || (not p.inherit && is_some p.overrides)) mixed_spec
    if_some (Overrides.validate valid_cell) p.overrides
    if_some (Grant.validate valid_cell) p.job_db
    if_some (Grant.validate valid_cell) (limit_of p.limit)

  -- The loop of `Resolve` over the overrides.
  unfoldable pub apply_all : List JobDbOverrides → JobDb → Result Error JobDb
  apply_all [] g = ok g
  apply_all (p ∷ ps) g = Overrides.validate valid_cell p >> (apply p g >>= apply_all ps)

  -- Defaults start from what the ceiling allows.
  unfoldable pub start : Option JobDb → Option JobDb → JobDb → Result Error JobDb
  start grant none g = ok g
  start grant (some l) g =
      Grant.validate valid_cell l >> ok (if is_some grant then g else intersect g l)

  unfoldable pub resolve : State → List String → Result Error JobDb
  resolve s git = do
    reject_if (not (s.version == current_version)) (unsupported_version s.version)
    let g = declared s git
    Grant.validate valid_cell g
    g1 ← start s.grant s.limit g
    g2 ← apply_all s.overrides g1
    Grant.validate valid_cell g2
    check_limit s.limit g2

  -- `Enter` where `boundary` is false.
  unfoldable pub enter : State → Option Spec → Result Error State
  enter s spec = do if_some validate_spec spec; let s' = entered spec s; g ← resolve s' []; ok s'

  unfoldable pub validate_include : Option Spec → Bool → Result Error (Unit {0})
  validate_include spec boundary = do
    if_some validate_spec spec
    reject_if (boundary && lacks_ceiling spec) include_needs_ceiling

  -- `EnterInclude`
  unfoldable pub enter_include : State → Option Spec → Bool → Bool → Result Error State
  enter_include s spec boundary trusted = do
    validate_include spec boundary
    check_inputs s (callsite_names spec)
    check_inputs s (override_names (spec_overrides spec) [])
    enter (include_state s spec boundary trusted) (include_edit spec)

  -- `Enter`
  unfoldable pub enter_scope : State → Option Spec → Bool → Result Error State
  enter_scope s spec boundary = if boundary then enter_include s spec true false else enter s spec

-- What the fields of the overrides last say, in `InheritedDenials`.
abbrev pub later {ℓ} : {A : Type ℓ} → Option A → Option A → Option A
later none old = old
later (some a) old = some a

unfoldable pub last_of :
    (JobDbOverrides → Option Bool) → Option Bool → List JobDbOverrides → Option Bool
last_of field old [] = old
last_of field old (p ∷ ps) = last_of field (later (field p) old) ps

abbrev pub submit_field : JobDbOverrides → Option Bool
submit_field p = p.jobs.submit

abbrev pub create_field : JobDbOverrides → Option Bool
create_field p = p.cells.create

-- Whether the list of secrets has a name, where the override has a list.
abbrev pub secrets_field : JobDbOverrides → Option Bool
secrets_field p = elim p.secrets.resolve [
  | none ↦ none
  | some none ↦ some false
  | some (some names) ↦ some (not (is_nil names))
]

abbrev pub is_denial : Option Bool → Bool
is_denial (some false) = true
is_denial (some true) = false
is_denial none = false

unfoldable pub inherited_denials : State → List String
unfolding last_of
inherited_denials s =
    (if is_denial (last_of submit_field none s.overrides)
      then "perms.jobdb.jobs.submit" ∷ []
      else [])
    ++ (if is_denial (last_of create_field none s.overrides)
        then "perms.jobdb.cells.create" ∷ []
        else [])
    ++ (if is_denial (last_of secrets_field none s.overrides)
        then "perms.jobdb.secrets.resolve" ∷ []
        else [])
