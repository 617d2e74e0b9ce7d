-- ===== src/Permissions/Inputs.antt =====
-- Input secrets: what validation guarantees of a list of names, and what an include may read.
use c2j.Prelude.{String, Bool, true, false, Option, none, some, List, [], ◌∷◌, ◌≡◌, refl}
use c2j.Prelude.{string_eq, contains, arith, ok, Bool-cases, inl, inr, ◌⊎◌, ◌++◌, contains-append}
use c2j.Prelude.{is_nil, length, ◌≤◌, ◌↔◌}
use c2j.Permissions.Errors.{
  Error, cells_need_create, jobs_need_submit, invalid_cell, invalid_secret,
}
use c2j.Permissions.Grant.{JobDb, check_names, check_cell_names, secret_name, validate}
use c2j.Permissions.Scope.{
  State, Spec, InputPolicy, check_input, check_inputs, trusted_input, outside,
}
use c2j.Permissions.Scope.{entered, include_state, enter, enter_include, last_names, granted_names}
use c2j.Permissions.Scope.{
  callsite_names, spec_overrides, override_names, include_edit, list_of, add_overrides,
  include_inputs,
}
use c2j.Permissions.Authority.{Action, allows}
use c2j.Permissions.Confinement.{ceiling, ceiling-enter_include}
use c2j.Permissions.Overrides.{JobDbOverrides, empty}

-- The names are valid and pairwise different, and none was seen before.
abbrev pub Distinct : (String → Bool) → List String → List String → Type 0
Distinct valid seen [] = Unit {0}
Distinct valid seen (name ∷ names) =
    (valid name ≡ true) × (contains seen name ≡ false) × Distinct valid (name ∷ seen) names

check_names-Distinct :
    (valid : String → Bool) (e : String → Error) (seen names : List String)
    → check_names valid e seen names ≡ ok tt
    → Distinct valid seen names
unfolding check_names
check_names-Distinct valid e seen [] h = tt
check_names-Distinct valid e seen (name ∷ names) h =
    (ground arith, ground arith, check_names-Distinct valid e (name ∷ seen) names (ground arith))

Distinct-check_names :
    (valid : String → Bool) (e : String → Error) (seen names : List String)
    → Distinct valid seen names
    → check_names valid e seen names ≡ ok tt
unfolding check_names
Distinct-check_names valid e seen [] h = refl
Distinct-check_names valid e seen (name ∷ names) (good, fresh, rest) =
    ground (arith, Distinct-check_names valid e (name ∷ seen) names rest)

-- A restriction by cell names, where there is one, is not empty, has its action, and lists valid
-- names without repetition.
abbrev pub IsRestriction : (String → Bool) → Bool → Option (List String) → Type 0
IsRestriction valid action none = Unit {0}
IsRestriction valid action (some names) =
    (action ≡ true) × (is_nil names ≡ false) × Distinct valid [] names

pub record IsValid (valid_cell : String → Bool) (g : JobDb) : Type 0 where
  pub cells : IsRestriction valid_cell g.cells.create g.cells.cell_names
  pub jobs : IsRestriction valid_cell g.jobs.submit g.jobs.cell_names
  pub bounded : length g.secrets.resolve ≤ 256
  pub secrets : Distinct secret_name [] g.secrets.resolve

check_cell_names_iff :
    (valid : String → Bool) (action : Bool) (e : Error) (names : Option (List String))
    → (check_cell_names valid action e names ≡ ok tt) ↔ IsRestriction valid action names
unfolding check_cell_names
check_cell_names_iff valid action e none = (λ h. tt, λ h. refl)
check_cell_names_iff valid action e (some names) = (
  λ h.
      (ground arith, ground arith, check_names-Distinct valid invalid_cell [] names (ground arith)),
  λ h. ground (arith, Distinct-check_names valid invalid_cell [] names h.2),
)

validate-IsValid : (valid : String → Bool) (g : JobDb) → validate valid g ≡ ok tt → IsValid valid g
unfolding validate
validate-IsValid valid g h = record {
  cells =
      (check_cell_names_iff valid g.cells.create cells_need_create g.cells.cell_names).0
        (ground arith);
  jobs =
      (check_cell_names_iff valid g.jobs.submit jobs_need_submit g.jobs.cell_names).0
        (ground arith);
  bounded = ground arith;
  secrets =
      check_names-Distinct secret_name (λ _. invalid_secret) [] g.secrets.resolve (ground arith);
}

IsValid-validate : (valid : String → Bool) (g : JobDb) → IsValid valid g → validate valid g ≡ ok tt
unfolding validate
IsValid-validate valid g v =
    rw
      (
        (check_cell_names_iff valid g.cells.create cells_need_create g.cells.cell_names).1 v.cells,
        (check_cell_names_iff valid g.jobs.submit jobs_need_submit g.jobs.cell_names).1 v.jobs,
        Distinct-check_names secret_name (λ _. invalid_secret) [] g.secrets.resolve v.secrets,
      )
      (ground (arith, v.bounded))

-- `Validate` accepts exactly the grants whose restrictions name an allowed action and at least one
-- cell, whose names are valid and not repeated, and whose secrets are at most 256.
pub validate_iff :
    (valid : String → Bool) (g : JobDb) → (validate valid g ≡ ok tt) ↔ IsValid valid g
validate_iff valid g = (validate-IsValid valid g, IsValid-validate valid g)

check_inputs-check_input :
    (s : State) (names : List String) (k : String)
    → check_inputs s names ≡ ok tt
    → contains names k ≡ true
    → check_input s k ≡ ok tt
unfolding check_inputs contains
check_inputs-check_input s [] k h m = cc
check_inputs-check_input s (name ∷ names) k h m = elim (Bool-cases (string_eq.beq name k)) [
  | inl same ↦ ground (arith, string_eq.beq_iff name k)
  | inr other ↦ ground (arith, check_inputs-check_input s names k)
]

check_input_blank :
    (s : State) (name : String) → string_eq.beq name "" ≡ true → check_input s name ≡ ok tt
unfolding check_input
check_input_blank s name h = ground arith

-- The ways to pass `CheckInput`.
abbrev Readable : State → String → Type 0
Readable s name =
    (outside s.limit name ≡ false)
    × ((trusted_input s.inputs name ≡ true)
        ⊎ (contains (last_names (granted_names s.grant) s.overrides) name ≡ true))

check_input-Readable :
    (s : State) (name : String)
    → check_input s name ≡ ok tt
    → string_eq.beq name "" ≡ false
    → Readable s name
unfolding check_input
check_input-Readable s name h ne = ground arith

Readable-check_input : (s : State) (name : String) → Readable s name → check_input s name ≡ ok tt
unfolding check_input
Readable-check_input s name (inside, why) = ground arith

last_names-append :
    (names : List String) (ps : List JobDbOverrides) (p : JobDbOverrides)
    → last_names names (ps ++ p ∷ []) ≡ override_names p.secrets.resolve (last_names names ps)
unfolding last_names
last_names-append names [] p = refl
last_names-append names (q ∷ ps) p = last_names-append (override_names q.secrets.resolve names) ps p

last_names-add_overrides :
    (names : List String) (o : Option JobDbOverrides) (ps : List JobDbOverrides) (k : String)
    → contains (last_names names (add_overrides o ps)) k ≡ true
    → (contains (override_names (list_of o) []) k ≡ true)
      ⊎ (contains (last_names names ps) k ≡ true)
unfolding empty contains
last_names-add_overrides names none ps k m = inr m
last_names-add_overrides names (some p) ps k m = ground (arith, last_names-append names ps p)

-- What `EnterInclude` checked, and the state that it returns.
include_stages :
    (valid : String → Bool) (s : State) (spec : Option Spec) (boundary trusted : Bool) (t : State)
    → enter_include valid s spec boundary trusted ≡ ok t
    → (check_inputs s (callsite_names spec) ≡ ok tt)
      × (check_inputs s (override_names (spec_overrides spec) []) ≡ ok tt)
      × (entered (include_edit spec) (include_state s spec boundary trusted) ≡ t)
unfolding enter_include enter
include_stages valid s none boundary trusted t e = ground arith
include_stages valid s (some spec) boundary trusted t e = ground arith

ceiling_of_outside :
    (l : Option JobDb) (name : String)
    → outside l name ≡ false
    → ceiling l (Action.resolve_secret name) ≡ true
unfolding allows
ceiling_of_outside l name h = ground arith

outside_of_ceiling :
    (l : Option JobDb) (name : String)
    → ceiling l (Action.resolve_secret name) ≡ true
    → outside l name ≡ false
unfolding allows
outside_of_ceiling l name h = ground arith

outside-include :
    (valid : String → Bool) (s : State) (spec : Option Spec) (boundary trusted : Bool) (t : State)
    (name : String)
    → enter_include valid s spec boundary trusted ≡ ok t
    → outside t.limit name ≡ false
    → outside s.limit name ≡ false
outside-include valid s spec boundary trusted t name e h = outside_of_ceiling s.limit name (
    ground (
      arith,
      ceiling-enter_include valid s spec boundary trusted t (Action.resolve_secret name) e,
      ceiling_of_outside t.limit name h,
    ))

include_explicit :
    (s : State) (spec : Option Spec) (boundary : Bool) (name : String)
    → let t = entered (include_edit spec) (include_state s spec boundary false) in
      contains (last_names (granted_names t.grant) t.overrides) name ≡ true
      → (contains (override_names (spec_overrides spec) []) name ≡ true)
        ⊎ (contains (last_names (granted_names s.grant) s.overrides) name ≡ true)
unfolding entered include_state last_names contains
include_explicit s none true name m = ground arith
include_explicit s none false name m = ground arith
include_explicit s (some spec) boundary name m = ground (
  arith,
  last_names-add_overrides [] spec.overrides [] name,
  last_names-add_overrides (granted_names s.grant) spec.overrides s.overrides name,
)

include_inputs_lem :
    (old : Option InputPolicy) (names : List String) (boundary : Bool) (name : String)
    → trusted_input (some (include_inputs old names boundary false)) name ≡ true
    → (contains names name ≡ true) ⊎ (trusted_input old name ≡ true)
include_inputs_lem none names boundary name m = ground arith
include_inputs_lem (some i) names boundary name m =
    ground (arith, contains-append i.allowed names name)

include_trusted :
    (s : State) (spec : Option Spec) (boundary : Bool) (name : String)
    → let t = entered (include_edit spec) (include_state s spec boundary false) in
      trusted_input t.inputs name ≡ true
      → (contains (callsite_names spec) name ≡ true) ⊎ (trusted_input s.inputs name ≡ true)
unfolding entered include_state
include_trusted s none boundary name m = include_inputs_lem s.inputs [] boundary name m
include_trusted s (some spec) boundary name m =
    include_inputs_lem s.inputs (granted_names spec.job_db) boundary name m

-- A recipe included without trust reads no input secret that the including node could not read.
pub include_no_new_inputs :
    (valid : String → Bool) (s : State) (spec : Option Spec) (boundary : Bool) (t : State)
    (name : String)
    → enter_include valid s spec boundary false ≡ ok t
    → check_input t name ≡ ok tt
    → check_input s name ≡ ok tt
include_no_new_inputs valid s spec boundary t name e h =
    let (grants, lists, same) = include_stages valid s spec boundary false t e in
    elim (Bool-cases (string_eq.beq name "")) [
      | inl blank ↦ check_input_blank s name blank
      | inr named ↦
          let (inside, why) = check_input-Readable t name h named in
          let r : (contains (callsite_names spec) name ≡ true)
              ⊎ (contains (override_names (spec_overrides spec) []) name ≡ true)
              ⊎ Readable s name =
            ground (
              arith,
              outside-include valid s spec boundary false t name e inside,
              include_trusted s spec boundary name,
              include_explicit s spec boundary name,
            ) in
          ground (
            arith,
            check_inputs-check_input s (callsite_names spec) name grants,
            check_inputs-check_input s (override_names (spec_overrides spec) []) name lists,
            Readable-check_input s name,
          )
    ]
