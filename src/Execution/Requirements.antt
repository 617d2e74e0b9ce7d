-- ===== src/Execution/Requirements.antt =====
-- pkg/execution/requirements.go and packages.go: requirements, allocations and the overlay of
-- requirements. A nil pointer is `none`.
pub mod Laws
use c2j.Prelude.{ℕ, Bool, true, false, not, ◌&&◌, ◌||◌, Option, none, some, List, [], ◌∷◌, ◌++◌}
use c2j.Prelude.{
  Bytes, codes, nat_beq, leb, ltb, if◌then◌else◌, is_nil, length, every, contains, bytes_eq, ◌==◌,
}
use c2j.Prelude.{Result, ok, err, ◌>>=◌, ◌>>◌, reject_if}
use c2j.Prelude.Sorting.{sort_by, bytes_before}
use c2j.Execution.Text.{
  contains_any, has_byte, has_prefix, contains_text, cut, split_at, join, utf8_valid, is_digit,
  is_lower,
}
use c2j.Execution.Quantity.{Parser, normalize_cpu, normalize_bytes}

-- The places that make an error.
pub data Error : Type 0 where
  base_with_legacy bad_base abstract_base bad_reference bad_platform : Error
  bad_capability bad_package : Bytes → Error
  bad_cpu bad_memory bad_storage : Error
  unsupported_allocation : ℕ → Error
  legacy_allocation_base bad_digest bad_image_id digest_disagrees : Error
  base_override resource_override base_conflict nil_pointer : Error
  unsupported_version : ℕ → Error
  legacy_base bad_resolution not_loaded malformed : Error

-- What the package calls of other libraries: Kubernetes' quantities, the image references and
-- digests of distribution, and Go's Unicode tables.
pub record Formats : Type 0 where
  pub quantity : Parser
  -- `reference.TagNameOnly(reference.ParseNormalizedNamed(value)).String()`
  pub reference : Bytes → Option Bytes
  -- The digest of a reference that parses and is `reference.Digested`.
  pub pinned : Bytes → Option Bytes
  -- `digest.Digest(value).Validate() == nil`
  pub digest_valid : Bytes → Bool
  -- `strings.ToLower`
  pub lower : Bytes → Bytes
  -- `strings.TrimSpace`
  pub trim : Bytes → Bytes

pub record Resources : Type 0 where
  pub cpu : Option Bytes
  pub memory : Option Bytes
  pub storage : Option Bytes

pub record Requirements : Type 0 where
  pub base : Option Bytes
  pub capabilities : List Bytes
  pub packages : List Bytes
  pub image : Option Bytes
  pub platform : Option Bytes
  pub resources : Resources

pub record Image : Type 0 where
  pub reference : Bytes
  pub manifest_digest : Bytes
  pub image_id : Bytes

pub record Allocation : Type 0 where
  pub base : Bytes
  pub capabilities : List Bytes
  pub schema_version : ℕ
  pub image : Image
  pub platform : Option Bytes
  pub resources : Resources

abbrev pub schema_version : ℕ
schema_version = 2

abbrev pub legacy_allocation_schema_version : ℕ
legacy_allocation_schema_version = 1

abbrev pub choose : Option Bytes → Option Bytes → Option Bytes
choose base none = base
choose base (some v) = some v

-- The loop of `mergePackages`, which keeps the first of equal references.
unfoldable pub unseen : List Bytes → List Bytes → List Bytes
unseen seen [] = []
unseen seen (ref ∷ refs) =
    let old = unseen seen refs in
    let new = ref ∷ unseen (ref ∷ seen) refs in if contains seen ref then old else new

unfoldable pub merge_packages : List Bytes → List Bytes → List Bytes
unfolding unseen
merge_packages base override = unseen [] (base ++ override)

unfoldable pub merge_capabilities : List Bytes → List Bytes → List Bytes
unfolding merge_packages sort_by
merge_capabilities base patch = sort_by bytes_before (merge_packages base patch)

unfoldable pub overlay : Requirements → Requirements → Requirements
overlay base override = record {
  base = choose base.base override.base;
  capabilities = merge_capabilities base.capabilities override.capabilities;
  packages = merge_packages base.packages override.packages;
  image = choose base.image override.image;
  platform = choose base.platform override.platform;
  resources = record {
    cpu = choose base.resources.cpu override.resources.cpu;
    memory = choose base.resources.memory override.resources.memory;
    storage = choose base.resources.storage override.resources.storage;
  };
}

abbrev pub no_requirements : Requirements
no_requirements = record {
  base = none;
  capabilities = [];
  packages = [];
  image = none;
  platform = none;
  resources = record { cpu = none; memory = none; storage = none };
}

abbrev pub is_none {ℓ} : {A : Type ℓ} → Option A → Bool
is_none none = true
is_none (some a) = false

unfoldable pub is_empty : Requirements → Bool
is_empty r =
    is_none r.base
    && is_none r.image
    && is_none r.platform
    && is_none r.resources.cpu
    && is_none r.resources.memory
    && is_none r.resources.storage
    && is_nil r.packages
    && is_nil r.capabilities
