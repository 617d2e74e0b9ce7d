-- ===== src/Execution/Demand.antt =====
-- pkg/execution/demand.go: the scheduling snapshot, its validation, and the filter over views.
-- The JSON around a demand is not modelled: `inspect` takes what the decoder made of the metadata
-- and of the payload.
pub mod Laws
use c2j.Prelude.{ℕ, Bool, true, false, not, ◌&&◌, ◌||◌, Option, none, some, List, [], ◌∷◌}
use c2j.Prelude.{nat_beq, if◌then◌else◌, is_nil, Result, ok, err, ◌>>=◌, ◌>>◌, reject_if}
use c2j.Execution.Requirements.{
  Error, unsupported_version, legacy_base, bad_resolution, not_loaded, malformed,
}
use c2j.Execution.Requirements.{
  Formats, Requirements, Allocation, no_requirements, overlay, is_none, is_empty,
}
use c2j.Execution.Normalize.{normalize}
use c2j.Execution.Compare.{Mismatch, compare}

-- `RecipeResolution`: the two words, or any other text.
pub data Resolution : Type 0 where
  resolved unresolved other : Resolution

pub record Demand : Type 0 where
  pub overrides : Requirements
  pub schema_version : ℕ
  pub recipe_resolution : Resolution
  pub effective : Requirements

pub record Submission : Type 0 where
  pub demand : Demand
  pub job_requirements : Requirements

abbrev pub demand_schema_version : ℕ
demand_schema_version = 4

abbrev pub legacy_demand_schema_version : ℕ
legacy_demand_schema_version = 3

abbrev is_other : Resolution → Bool
is_other other = true
is_other resolved = false
is_other unresolved = false

abbrev is_legacy : ℕ → Requirements → Bool
is_legacy version r = nat_beq version legacy_demand_schema_version && not (is_none r.base)

module _ (f : Formats) where
  abbrev normalize_base : Option Requirements → Result Error Requirements
  normalize_base none = ok no_requirements
  normalize_base (some base) = normalize f base

  -- `Initial`
  unfoldable pub initial : Option Requirements → Bool → Requirements → Result Error Submission
  initial base is_resolved overrides = do
    job ← normalize f overrides
    b ← normalize_base base
    effective ← normalize f (overlay b job)
    ok (record {
      demand = record {
        overrides = no_requirements;
        schema_version = demand_schema_version;
        recipe_resolution = if is_resolved then resolved else unresolved;
        effective = effective;
      };
      job_requirements = job;
    })

  unfoldable pub validate_demand : Demand → Result Error (Unit {0})
  validate_demand d = do
    reject_if
        (not (nat_beq d.schema_version demand_schema_version)
          && not (nat_beq d.schema_version legacy_demand_schema_version))
        (unsupported_version d.schema_version)
    reject_if (is_legacy d.schema_version d.effective) legacy_base
    reject_if (is_other d.recipe_resolution) bad_resolution
    r ← normalize f d.effective
    ok tt

  unfoldable pub validate_submission : Submission → Result Error (Unit {0})
  validate_submission s = do
    validate_demand s.demand
    reject_if (is_legacy s.demand.schema_version s.job_requirements) legacy_base
    r ← normalize f s.job_requirements
    ok tt

-- `View.Status`; the first four come from other packages.
pub data Status : Type 0 where
  not_loaded_yet in_flight not_waiting unresolved_view specified unspecified unsupported
        malformed_view :
      Status

pub data Source : Type 0 where
  absent submission yield : Source

pub record View : Type 0 where
  pub status : Status
  pub source : Source
  pub published : Bool
  pub demand : Option Demand
  pub initial : Option Submission
  pub diagnostic : Option Error

-- `demandErrorStatus`
abbrev pub error_status : Error → Status
error_status (unsupported_version n) = unsupported
error_status _ = malformed_view

abbrev pub is_resolved : Resolution → Bool
is_resolved resolved = true
is_resolved unresolved = false
is_resolved other = false

abbrev demand_status : Option Demand → Status
demand_status none = unresolved_view
demand_status (some d) =
    if is_resolved d.recipe_resolution
    then (if is_empty d.effective then unspecified else specified)
    else unresolved_view

abbrev pub submitted : Option Submission → Option Demand
submitted none = none
submitted (some s) = some s.demand

abbrev view_of : Option Submission → Option Demand → View
view_of first (some d) = record {
  status = demand_status (some d);
  source = yield;
  published = true;
  demand = some d;
  initial = first;
  diagnostic = none;
}
view_of first none = record {
  status = demand_status (submitted first);
  source = elim first [ none ↦ absent | some s ↦ submission ];
  published = false;
  demand = submitted first;
  initial = first;
  diagnostic = none;
}

abbrev failed : Option Submission → Source → Error → View
failed first source e = record {
  status = error_status e;
  source = source;
  published = false;
  demand = none;
  initial = first;
  diagnostic = some e;
}

-- `Inspect`, behind the decoding
unfoldable pub inspect : Result Error (Option Submission) → Result Error (Option Demand) → View
unfolding is_empty
inspect (err e) payload = failed none absent e
inspect (ok first) (err e) = failed first yield e
inspect (ok first) (ok payload) = view_of first payload

pub record Filter : Type 0 where
  pub allocation : Allocation
  pub include_unresolved : Bool

-- The last lines of `Match`.
unfoldable pub fits : Formats → Filter → Option Demand → Result Error Bool
fits f filter none = ok false
fits f filter (some d) = do m ← compare f d.effective filter.allocation; ok (is_nil m)

-- Behind the diagnostic: an unresolved view wants `IncludeUnresolved`, and is taken where nothing
-- is known of it.
unfoldable pub match_view : Formats → Filter → View → Result Error Bool
unfolding fits
match_view f filter v = elim v.status [
  | unresolved_view ↦
      if not filter.include_unresolved
      then ok false
      else if is_none v.demand
      then ok true
      else fits f filter v.demand
  | _ ↦ fits f filter v.demand
]

-- `Match`
unfoldable pub matches : Formats → Filter → View → Result Error Bool
unfolding match_view
matches f filter v = elim v.status [
  | not_loaded_yet ↦ err not_loaded
  | in_flight ↦ ok false
  | not_waiting ↦ ok false
  | _ ↦ elim v.diagnostic [ none ↦ match_view f filter v | some e ↦ err malformed ]
]
