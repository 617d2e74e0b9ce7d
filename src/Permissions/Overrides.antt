-- ===== src/Permissions/Overrides.antt =====
-- pkg/permissions/inheritance.go: `JobDBOverrides`. A pointer to a slice is `none` where it is
-- nil, and `some none` where it points to a nil slice.
use c2j.Prelude.{String, Bool, true, false, ◌&&◌, Option, none, some, List, []}
use c2j.Prelude.{Result, ok, err, ◌>>=◌}
use c2j.Permissions.Errors.{Error, null_list}
use c2j.Permissions.Grant.{JobDb, JobPermissions, CellPermissions}
use c2j.Permissions.Grant

pub record SecretOverrides : Type 0 where
  pub resolve : Option (Option (List String))

pub record JobOverrides : Type 0 where
  pub submit : Option Bool
  pub cell_names : Option (Option (List String))

pub record CellOverrides : Type 0 where
  pub create : Option Bool
  pub cell_names : Option (Option (List String))

pub record JobDbOverrides : Type 0 where
  pub secrets : SecretOverrides
  pub jobs : JobOverrides
  pub cells : CellOverrides

-- An explicit list replaces, nil inherits, and a pointer to nil is refused.
unfoldable pub replace_names {ℓ} :
    {A : Type ℓ} → Option (Option (List String)) → A → (List String → A) → Result Error A
replace_names none inherited set = ok inherited
replace_names (some none) inherited set = err null_list
replace_names (some (some names)) inherited set = ok (set names)

abbrev override_submit : Option Bool → JobPermissions → JobPermissions
override_submit none g = g
override_submit (some true) g = record g { submit = true }
override_submit (some false) g = record g { submit = false; cell_names = none }

abbrev override_create : Option Bool → CellPermissions → CellPermissions
override_create none g = g
override_create (some true) g = record g { create = true }
override_create (some false) g = record g { create = false; cell_names = none }

unfoldable pub apply : JobDbOverrides → JobDb → Result Error JobDb
unfolding replace_names
apply p g = do
  resolve ← replace_names p.secrets.resolve g.secrets.resolve (λ names. names)
  let jobs = override_submit p.jobs.submit g.jobs
  submitted ← replace_names p.jobs.cell_names jobs.cell_names (λ names. some names)
  let cells = override_create p.cells.create g.cells
  created ← replace_names p.cells.cell_names cells.cell_names (λ names. some names)
  ok (record {
    secrets = record { resolve = resolve };
    jobs = record jobs { cell_names = submitted };
    cells = record cells { cell_names = created };
  })

-- The grant that `Validate` merges into: every action allowed.
abbrev permissive : JobDb
permissive = record {
  secrets = record { resolve = [] };
  jobs = record { cell_names = none; submit = true };
  cells = record { create = true; cell_names = none };
}

unfoldable pub validate : (String → Bool) → JobDbOverrides → Result Error (Unit {0})
unfolding apply
validate valid_cell p = apply p permissive >>= Grant.validate valid_cell

abbrev pub is_none {ℓ} : {A : Type ℓ} → Option A → Bool
is_none none = true
is_none (some a) = false

unfoldable pub empty : JobDbOverrides → Bool
empty p =
    is_none p.secrets.resolve
    && is_none p.jobs.submit
    && is_none p.jobs.cell_names
    && is_none p.cells.create
    && is_none p.cells.cell_names
