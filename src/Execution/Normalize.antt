-- ===== src/Execution/Normalize.antt =====
-- pkg/execution/requirements.go and legacy.go: the canonical form of requirements and allocations.
use c2j.Prelude.{Bool, true, false, not, ◌&&◌, ◌||◌, Option, none, some}
use c2j.Prelude.{Bytes, nat_beq, if◌then◌else◌, is_nil, bytes_eq, ◌==◌}
use c2j.Prelude.{Result, ok, err, ◌>>=◌, ◌>>◌, reject_if}
use c2j.Execution.Quantity.{normalize_cpu, normalize_bytes}
use c2j.Execution.Requirements.{
  Error, base_with_legacy, bad_reference, bad_platform, bad_cpu, bad_memory, bad_storage,
  unsupported_allocation, legacy_allocation_base, bad_digest, bad_image_id, digest_disagrees,
  Formats, Requirements, Allocation, schema_version, legacy_allocation_schema_version,
  no_requirements, is_none, overlay,
}
use c2j.Execution.Fields.{validate_base, validate_capabilities, normalize_platform, check_packages}

-- One field that is present is replaced by its canonical form.
unfoldable pub normalize_field :
    (Bytes → Option Bytes) → Error → Option Bytes → Result Error (Option Bytes)
normalize_field normal e none = ok none
normalize_field normal e (some v) = elim (normal v) [ none ↦ err e | some w ↦ ok (some w) ]

unfoldable pub check_base : Requirements → Result Error (Unit {0})
check_base r = elim r.base [
  | none ↦ ok tt
  | some v ↦
      reject_if (not (is_none r.image) || not (is_none r.platform)) base_with_legacy
      >> validate_base v false
]

module _ (f : Formats) where
  unfoldable pub normalize : Requirements → Result Error Requirements
  normalize r = do
    let out = overlay r no_requirements
    check_base out
    image ← normalize_field f.reference bad_reference out.image
    platform ← normalize_field (normalize_platform f) bad_platform out.platform
    validate_capabilities out.capabilities
    check_packages f out.packages
    cpu ← normalize_field (normalize_cpu f.quantity) bad_cpu out.resources.cpu
    memory ← normalize_field (normalize_bytes f.quantity) bad_memory out.resources.memory
    storage ← normalize_field (normalize_bytes f.quantity) bad_storage out.resources.storage
    ok (record out {
      image = image;
      platform = platform;
      resources = record { cpu = cpu; memory = memory; storage = storage };
    })

  abbrev disagrees : Option Bytes → Bytes → Bool
  disagrees none manifest = false
  disagrees (some digest) manifest = not (digest == manifest)

  -- The image and the platform of an allocation.
  unfoldable pub normalize_legacy : Allocation → Result Error Allocation
  normalize_legacy a = do
    let given : Option Bytes = if is_nil a.image.reference then none else some a.image.reference
    image ← normalize_field f.reference bad_reference given
    platform ← normalize_field (normalize_platform f) bad_platform a.platform
    let reference : Bytes = elim image [ none ↦ a.image.reference | some v ↦ v ]
    let manifest = a.image.manifest_digest
    reject_if (not (is_nil manifest) && not (f.digest_valid manifest)) bad_digest
    reject_if (not (is_nil a.image.image_id) && not (f.trim a.image.image_id == a.image.image_id))
        bad_image_id
    reject_if
        (not (is_none image) && not (is_nil manifest) && disagrees (f.pinned reference) manifest)
        digest_disagrees
    ok (record a {
      image = record {
        reference = reference;
        manifest_digest = manifest;
        image_id = a.image.image_id;
      };
      platform = platform;
    })

  unfoldable pub check_allocation : Allocation → Result Error (Unit {0})
  check_allocation a = do
    reject_if
        (not (nat_beq a.schema_version schema_version)
          && not (nat_beq a.schema_version legacy_allocation_schema_version))
        (unsupported_allocation a.schema_version)
    if is_nil a.base
        then ok tt
        else (reject_if (nat_beq a.schema_version legacy_allocation_schema_version)
              legacy_allocation_base
            >> validate_base a.base true)

  unfoldable pub normalize_allocation : Allocation → Result Error Allocation
  normalize_allocation a = do
    check_allocation a
    r ←
        normalize
          (record no_requirements { resources = a.resources; capabilities = a.capabilities })
    normalize_legacy (record a { resources = r.resources; capabilities = r.capabilities })

unfoldable pub has_compatibility_facts : Allocation → Bool
has_compatibility_facts a =
    not (is_nil a.base)
    || not (is_nil a.image.reference)
    || not (is_nil a.image.manifest_digest)
    || not (is_none a.platform)
    || not (is_none a.resources.cpu && is_none a.resources.memory && is_none a.resources.storage)
    || not (is_nil a.capabilities)
