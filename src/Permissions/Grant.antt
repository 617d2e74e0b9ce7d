-- ===== src/Permissions/Grant.antt =====
-- pkg/permissions/policy.go: `JobDB`, its validation, its intersection and its order.
-- A `CellNames` slice is `none` where it is nil. `Resolve` is read by range and length alone, so
-- nil and empty are one list there. `jobdb.ValidateCellName` is the parameter `valid_cell`.
use c2j.Prelude.{ℕ, String, Bool, true, false, not, ◌&&◌, ◌||◌, Option, none, some, List, [], ◌∷◌}
use c2j.Prelude.{
  Bytes, codes, ltb, leb, nat_beq, if◌then◌else◌, length, is_nil, every, keep_if, contains,
  string_eq,
}
use c2j.Prelude.{Result, ok, err, ◌>>◌, reject_if}
use c2j.Permissions.Errors.{Error, cells_need_create, jobs_need_submit, too_many_secrets}
use c2j.Permissions.Errors.{invalid_secret, invalid_cell}

pub record SecretPermissions : Type 0 where
  pub resolve : List String

pub record JobPermissions : Type 0 where
  pub cell_names : Option (List String)
  pub submit : Bool

pub record CellPermissions : Type 0 where
  pub create : Bool
  pub cell_names : Option (List String)

pub record JobDb : Type 0 where
  pub secrets : SecretPermissions
  pub jobs : JobPermissions
  pub cells : CellPermissions

-- `^[A-Za-z_][A-Za-z0-9_-]{0,255}$`
abbrev is_letter : ℕ → Bool
is_letter c = (leb b'A' c && leb c b'Z') || (leb b'a' c && leb c b'z') || nat_beq c b'_'

abbrev is_word : ℕ → Bool
is_word c = is_letter c || (leb b'0' c && leb c b'9') || nat_beq c b'-'

secret_bytes : Bytes → Bool
secret_bytes [] = false
secret_bytes (c ∷ cs) = is_letter c && every is_word cs && leb (length cs) 255

unfoldable pub secret_name : String → Bool
unfolding secret_bytes every
secret_name name = secret_bytes (codes name)

-- The loops of `Validate`, which stop at the first name that is invalid or seen before.
unfoldable pub check_names :
    (String → Bool) → (String → Error) → List String → List String → Result Error (Unit {0})
check_names valid e seen [] = ok tt
check_names valid e seen (name ∷ names) =
    if not (valid name) || contains seen name
    then err (e name)
    else check_names valid e (name ∷ seen) names

-- The two blocks on `CellNames`, with the action that such a list needs.
unfoldable pub check_cell_names :
    (String → Bool) → Bool → Error → Option (List String) → Result Error (Unit {0})
check_cell_names valid action e none = ok tt
check_cell_names valid action e (some names) =
    if not action || is_nil names then err e else check_names valid invalid_cell [] names

unfoldable pub validate : (String → Bool) → JobDb → Result Error (Unit {0})
validate valid_cell p = do
  check_cell_names valid_cell p.cells.create cells_need_create p.cells.cell_names
  check_cell_names valid_cell p.jobs.submit jobs_need_submit p.jobs.cell_names
  reject_if (ltb 256 (length p.secrets.resolve)) too_many_secrets
  check_names secret_name (λ _. invalid_secret) [] p.secrets.resolve

-- The names that two restrictions leave, with the action that they restrict.
unfoldable pub common_names :
    Bool → Option (List String) → Option (List String) → Bool × Option (List String)
common_names false a b = (false, none)
common_names true none b = (true, b)
common_names true (some a) none = (true, some a)
common_names true (some a) (some b) =
    let out = keep_if (contains b) a in if is_nil out then (false, none) else (true, some out)

unfoldable pub intersect : JobDb → JobDb → JobDb
unfolding common_names
intersect a b =
    let (create, created) =
      common_names (a.cells.create && b.cells.create) a.cells.cell_names b.cells.cell_names in
    let (submit, submitted) =
      common_names (a.jobs.submit && b.jobs.submit) a.jobs.cell_names b.jobs.cell_names in
    record {
      secrets = record { resolve = keep_if (contains b.secrets.resolve) a.secrets.resolve };
      jobs = record { cell_names = submitted; submit = submit };
      cells = record { create = create; cell_names = created };
    }

-- Whether the names on the left stay within a restriction; nil on the left is every name.
unfoldable pub within : Option (List String) → Option (List String) → Bool
within a none = true
within none (some b) = false
within (some a) (some b) = every (contains b) a

unfoldable pub subset : JobDb → JobDb → Bool
unfolding within
subset a b =
    (if a.cells.create
      then b.cells.create && within a.cells.cell_names b.cells.cell_names
      else true)
    && (if a.jobs.submit then within a.jobs.cell_names b.jobs.cell_names && b.jobs.submit else true)
    && every (contains b.secrets.resolve) a.secrets.resolve
