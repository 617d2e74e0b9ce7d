-- ===== src/Execution/Compare/Laws.antt =====
-- An empty list of mismatches is compatibility.
use c2j.Prelude.{Bool, true, false, Option, none, some, List, [], ◌∷◌, ◌++◌, ◌≡◌, ◌≤◌, ◌↔◌, refl}
use c2j.Prelude.{Bytes, contains, every, bytes_eq, bytes_beq_iff, arith}
use c2j.Prelude.{ok}
use c2j.Execution.Quantity.{Parser}
use c2j.Execution.Requirements.{Formats, Requirements, Allocation}
use c2j.Execution.Normalize.{normalize, normalize_allocation}
use c2j.Execution.Compare.{
  Field, Mismatch, missing, check, check_resource, check_image, check_reference, mismatches,
}
use c2j.Execution.Compare.{compare, value_of, amount_of, base_matches, platform_matches}

-- A required amount is at most what is allocated.
abbrev pub Covers : Parser → Bool → Option Bytes → Option Bytes → Type 0
Covers parser cpu none actual = Unit {0}
Covers parser cpu (some required) none = ⊥
Covers parser cpu (some required) (some actual) =
    amount_of parser cpu required ≤ amount_of parser cpu actual

-- A pinned image is compared by its digest, any other by its reference.
abbrev pub ReferenceMatches : Option Bytes → Bytes → Allocation → Type 0
ReferenceMatches (some digest) required a = digest ≡ a.image.manifest_digest
ReferenceMatches none required a = required ≡ a.image.reference

abbrev pub ImageMatches : Formats → Option Bytes → Allocation → Type 0
ImageMatches f none a = Unit {0}
ImageMatches f (some required) a = ReferenceMatches (f.pinned required) required a

-- Each requirement is met by the allocation.
pub record Satisfies (f : Formats) (r : Requirements) (a : Allocation) : Type 0 where
  pub capabilities : every (contains a.capabilities) r.capabilities ≡ true
  pub base : base_matches r.base a.base ≡ true
  pub image : ImageMatches f r.image a
  pub platform : platform_matches r.platform a.platform ≡ true
  pub cpu : Covers f.quantity true r.resources.cpu a.resources.cpu
  pub memory : Covers f.quantity false r.resources.memory a.resources.memory
  pub storage : Covers f.quantity false r.resources.storage a.resources.storage

append-eq_nil : (xs ys : List Mismatch) → xs ++ ys ≡ [] → (xs ≡ []) × (ys ≡ [])
append-eq_nil [] ys h = (refl, h)
append-eq_nil (x ∷ xs) ys h = cc

missing_iff :
    (supplied names : List Bytes)
    → (missing supplied names ≡ []) ↔ (every (contains supplied) names ≡ true)
unfolding missing every
missing_iff supplied [] = (λ h. refl, λ h. refl)
missing_iff supplied (name ∷ names) = ground (arith, missing_iff supplied names)

check_resource_iff :
    (parser : Parser) (field : Field) (cpu : Bool) (required actual : Option Bytes)
    → (check_resource parser field cpu required actual ≡ []) ↔ Covers parser cpu required actual
unfolding check_resource check
check_resource_iff parser field cpu none actual = (λ h. tt, λ h. refl)
check_resource_iff parser field cpu (some required) none = (λ h. cc, λ h. absurd h)
check_resource_iff parser field cpu (some required) (some actual) = ground arith

check_iff :
    (field : Field) (required : Option Bytes) (actual : Bytes) (compatible : Bool)
    → (required ≡ none → compatible ≡ true)
    → (check field required actual compatible ≡ []) ↔ (compatible ≡ true)
unfolding check
check_iff field none actual compatible h = (λ e. h refl, λ e. refl)
check_iff field (some required) actual true h = (λ e. refl, λ e. refl)
check_iff field (some required) actual false h = (λ e. cc, λ e. cc)

check_reference_iff :
    (pinned : Option Bytes) (required : Bytes) (a : Allocation)
    → (check_reference pinned required a ≡ []) ↔ ReferenceMatches pinned required a
unfolding check_reference check
check_reference_iff (some digest) required a =
    ground (arith, bytes_beq_iff digest a.image.manifest_digest)
check_reference_iff none required a = ground (arith, bytes_beq_iff required a.image.reference)

check_image_iff :
    (f : Formats) (required : Option Bytes) (a : Allocation)
    → (check_image f required a ≡ []) ↔ ImageMatches f required a
unfolding check_image
check_image_iff f none a = (λ h. tt, λ h. refl)
check_image_iff f (some required) a = check_reference_iff (f.pinned required) required a

mismatches-Satisfies :
    (f : Formats) (r : Requirements) (a : Allocation) → mismatches f r a ≡ [] → Satisfies f r a
unfolding mismatches
mismatches-Satisfies f r a h =
    let (h1, t1) = append-eq_nil (missing a.capabilities r.capabilities) _ h in
    let (h2, t2) =
      append-eq_nil (check Field.base r.base a.base (base_matches r.base a.base)) _ t1 in
    let (h3, t3) = append-eq_nil (check_image f r.image a) _ t2 in
    let (h4, t4) =
      append-eq_nil
        (check Field.platform r.platform (value_of a.platform)
          (platform_matches r.platform a.platform))
        _ t3 in
    let (h5, t5) =
      append-eq_nil (check_resource f.quantity Field.cpu true r.resources.cpu a.resources.cpu) _
        t4 in
    let (h6, h7) =
      append-eq_nil
        (check_resource f.quantity Field.memory false r.resources.memory a.resources.memory) _ t5 in
    record {
      capabilities = (missing_iff a.capabilities r.capabilities).0 h1;
      base = (check_iff Field.base r.base a.base (base_matches r.base a.base) (λ e. rw e)).0 h2;
      image = (check_image_iff f r.image a).0 h3;
      platform =
          (check_iff Field.platform r.platform (value_of a.platform)
              (platform_matches r.platform a.platform) (λ e. rw e)).0
            h4;
      cpu = (check_resource_iff f.quantity Field.cpu true r.resources.cpu a.resources.cpu).0 h5;
      memory =
          (check_resource_iff f.quantity Field.memory false r.resources.memory a.resources.memory).0
            h6;
      storage =
          (check_resource_iff f.quantity Field.storage false r.resources.storage
              a.resources.storage).0
            h7;
    }

Satisfies-mismatches :
    (f : Formats) (r : Requirements) (a : Allocation) → Satisfies f r a → mismatches f r a ≡ []
unfolding mismatches
Satisfies-mismatches f r a s = rw (
  (missing_iff a.capabilities r.capabilities).1 s.capabilities,
  (check_iff Field.base r.base a.base (base_matches r.base a.base) (λ e. rw e)).1 s.base,
  (check_image_iff f r.image a).1 s.image,
  (check_iff Field.platform r.platform (value_of a.platform)
        (platform_matches r.platform a.platform) (λ e. rw e)).1
      s.platform,
  (check_resource_iff f.quantity Field.cpu true r.resources.cpu a.resources.cpu).1 s.cpu,
  (check_resource_iff f.quantity Field.memory false r.resources.memory a.resources.memory).1
      s.memory,
  (check_resource_iff f.quantity Field.storage false r.resources.storage a.resources.storage).1
      s.storage,
)

-- `Compare` of operands that normalise reports no mismatch exactly where the allocation meets every
-- requirement in canonical form.
pub compare_iff :
    (f : Formats) (required : Requirements) (allocated : Allocation) (r : Requirements)
    (a : Allocation)
    → normalize f required ≡ ok r
    → normalize_allocation f allocated ≡ ok a
    → (compare f required allocated ≡ ok []) ↔ Satisfies f r a
unfolding compare
compare_iff f required allocated r a p q = (
  λ h. mismatches-Satisfies f r a (ground arith),
  λ s. ground (arith, Satisfies-mismatches f r a s),
)
