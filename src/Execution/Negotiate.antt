-- ===== src/Execution/Negotiate.antt =====
-- pkg/execution/negotiation.go: `Negotiate`, which adds an extension's needs to a demand.
pub mod Laws
use c2j.Prelude.{ℕ, Bool, true, false, not, ◌&&◌, ◌||◌, Option, none, some, List, [], ◌∷◌}
use c2j.Prelude.{
  ltb, Bytes, bytes_eq, ◌==◌, if◌then◌else◌, is_nil, Result, ok, err, ◌>>=◌, ◌>>◌, reject_if,
}
use c2j.Execution.Text.{has_byte}
use c2j.Execution.Selector.{match_base}
use c2j.Execution.Quantity.{Parser}
use c2j.Execution.Requirements.{Error, base_override, resource_override, base_conflict, nil_pointer}
use c2j.Execution.Requirements.{
  Formats, Requirements, Allocation, no_requirements, overlay, schema_version, Resources,
}
use c2j.Execution.Normalize.{normalize}
use c2j.Execution.Compare.{compare, amount_of}
use c2j.Execution.Demand.{Demand}

-- A job-wide base override wins over the overlay; it must meet what is needed.
unfoldable pub override_conflict : Option Bytes → Option Bytes → Bool
override_conflict none base = false
override_conflict (some need) none = false
override_conflict (some need) (some base) =
    not (need == base) && (has_byte base b'*' || not (match_base need base))

-- The narrower of two selectors, where one refines the other.
unfoldable pub combine_base : Option Bytes → Option Bytes → Result Error (Option Bytes)
combine_base none requested = ok requested
combine_base (some current) none = ok none
combine_base (some current) (some requested) =
    if match_base current requested
    then ok (some requested)
    else if match_base requested current
    then ok (some current)
    else err base_conflict

-- The larger of the amounts; a nil `next` would be dereferenced.
unfoldable pub keep_larger :
    Parser → Bool → Option Bytes → Option Bytes → Result Error (Option Bytes)
keep_larger parser cpu none next = ok next
keep_larger parser cpu (some prior) none = err nil_pointer
keep_larger parser cpu (some prior) (some next) =
    ok (some (if ltb (amount_of parser cpu next) (amount_of parser cpu prior) then prior else next))

-- The allocation that stands for the effective resources.
abbrev pub of_resources : Resources → Allocation
of_resources r = record {
  base = [];
  capabilities = [];
  schema_version = schema_version;
  image = record { reference = []; manifest_digest = []; image_id = [] };
  platform = none;
  resources = r;
}

unfoldable pub negotiate : Formats → Demand → Requirements → Result Error Demand
negotiate f d needs = do
  effective ← normalize f (overlay (overlay d.effective needs) d.overrides)
  reject_if (override_conflict needs.base d.overrides.base) base_override
  m ←
      compare f (record no_requirements { resources = needs.resources })
        (of_resources effective.resources)
  reject_if (not (is_nil m)) resource_override
  base ← combine_base d.effective.base effective.base
  cpu ← keep_larger f.quantity true d.effective.resources.cpu effective.resources.cpu
  memory ← keep_larger f.quantity false d.effective.resources.memory effective.resources.memory
  storage ← keep_larger f.quantity false d.effective.resources.storage effective.resources.storage
  ok (record d {
    effective = record effective {
      base = base;
      resources = record { cpu = cpu; memory = memory; storage = storage };
    };
  })
