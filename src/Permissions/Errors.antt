-- ===== src/Permissions/Errors.antt =====
-- The errors of pkg/permissions, one constructor for each place that makes one.
use c2j.Prelude.{String, ℕ}

pub data Error : Type 0 where
  -- `Validate`, policy.go and inheritance.go
  cells_need_create jobs_need_submit too_many_secrets invalid_secret mixed_spec null_list : Error
  invalid_cell : String → Error
  -- `Resolve`, policy.go
  unsupported_version : ℕ → Error
  exceeds_limit : Error
  -- `CheckInput` and `ValidateInclude`, inputs.go
  input_exceeds_limit : String → Error
  input_denied : String → Error
  include_needs_ceiling : Error
  -- Access, access.go
  done : Error
  denied : Error
  secret_denied : String → Error
  unavailable : Error
  no_scope : Error
  provider : String → Error
