-- ===== src/Execution/Compare.antt =====
-- pkg/execution/compatibility.go and legacy.go: the mismatches between requirements and an
-- allocation.
pub mod Laws
use c2j.Prelude.{ℕ, Bool, true, false, not, ◌&&◌, ◌||◌, Option, none, some, List, [], ◌∷◌, ◌++◌}
use c2j.Prelude.{Bytes, leb, if◌then◌else◌, is_nil, contains, bytes_eq, ◌==◌}
use c2j.Prelude.{Result, ok, err, ◌>>=◌}
use c2j.Execution.Text.{has_prefix}
use c2j.Execution.Selector.{match_base}
use c2j.Execution.Quantity.{Parser, parse_quantity}
use c2j.Execution.Requirements.{Error, Formats, Requirements, Allocation}
use c2j.Execution.Normalize.{normalize, normalize_allocation}

pub data Field : Type 0 where
  capabilities base manifest_digest image_reference platform cpu memory storage : Field

pub data Reason : Type 0 where
  missing_capability incompatible unknown_allocation : Reason

pub record Mismatch : Type 0 where
  pub field : Field
  pub required : Bytes
  pub allocated : Bytes
  pub reason : Reason

-- `supplied[name]` for each required capability
unfoldable pub missing : List Bytes → List Bytes → List Mismatch
missing supplied [] = []
missing supplied (name ∷ names) =
    let rest = missing supplied names in
    if contains supplied name
    then rest
    else record {
      field = capabilities;
      required = name;
      allocated = [];
      reason = missing_capability;
    }
      ∷ rest

-- The closure `check`
unfoldable pub check : Field → Option Bytes → Bytes → Bool → List Mismatch
check field none actual compatible = []
check field (some required) actual true = []
check field (some required) actual false =
    record {
      field = field;
      required = required;
      allocated = actual;
      reason = if is_nil actual then unknown_allocation else incompatible;
    }
    ∷ []

abbrev pub value_of : Option Bytes → Bytes
value_of none = []
value_of (some v) = v

-- The amount of a quantity, zero where it does not parse.
abbrev pub amount_of : Parser → Bool → Bytes → ℕ
amount_of parser in_cores s = elim (parse_quantity parser s in_cores) [ none ↦ 0 | some (q, n) ↦ n ]

unfoldable pub check_resource : Parser → Field → Bool → Option Bytes → Option Bytes → List Mismatch
check_resource parser field in_cores none actual = []
check_resource parser field in_cores (some required) none = check field (some required) [] false
check_resource parser field in_cores (some required) (some actual) =
    check field (some required) actual
      (leb (amount_of parser in_cores required) (amount_of parser in_cores actual))

abbrev pub base_matches : Option Bytes → Bytes → Bool
base_matches none actual = true
base_matches (some selector) actual = match_base selector actual

-- `actual == required || strings.HasPrefix(actual, required+"/")`
abbrev pub platform_matches : Option Bytes → Option Bytes → Bool
platform_matches none actual = true
platform_matches (some required) actual =
    value_of actual == required || has_prefix (value_of actual) (required ++ b'/' ∷ [])

-- A pinned reference is compared by its digest.
unfoldable pub check_reference : Option Bytes → Bytes → Allocation → List Mismatch
check_reference (some digest) required a =
    check manifest_digest (some required) a.image.manifest_digest
      (digest == a.image.manifest_digest)
check_reference none required a =
    check image_reference (some required) a.image.reference (required == a.image.reference)

module _ (f : Formats) where
  -- `compareLegacy`, the image
  unfoldable pub check_image : Option Bytes → Allocation → List Mismatch
  check_image none a = []
  check_image (some required) a = check_reference (f.pinned required) required a

  -- The mismatches of canonical operands.
  unfoldable pub mismatches : Requirements → Allocation → List Mismatch
  mismatches r a =
      missing a.capabilities r.capabilities
      ++ (check base r.base a.base (base_matches r.base a.base)
          ++ (check_image r.image a
              ++ (check platform r.platform (value_of a.platform)
                    (platform_matches r.platform a.platform)
                  ++ (check_resource f.quantity cpu true r.resources.cpu a.resources.cpu
                      ++ (check_resource f.quantity memory false r.resources.memory
                            a.resources.memory
                          ++ check_resource f.quantity storage false r.resources.storage
                              a.resources.storage)))))

  unfoldable pub compare : Requirements → Allocation → Result Error (List Mismatch)
  compare required allocated = do
    r ← normalize f required
    a ← normalize_allocation f allocated
    ok (mismatches r a)
